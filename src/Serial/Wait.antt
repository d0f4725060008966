-- ===== src/Serial/Wait.antt =====
-- The wait before a byte is sent.
use lappis.Base.{
  Bool, arith, bit_and, false, holds_below_sound, refl, suc, zero, ℕ, ◌!=◌, ◌%◌, ◌+◌, ◌<◌, ◌==◌,
  ◌^◌, ◌∷◌, ◌≡◌,
}
use lappis.Machine.{Machine, Platform, and_then, in_byte, ok, out_byte}
use lappis.Machine.Ports.{byte_from, inb, outb}
use lappis.Serial.{is_transmit_empty, serial_write_byte, wait_transmit}

never_one : ℕ → Bool
never_one status = bit_and status 0x20 != 1

masked : (status : ℕ) → status < 2 ^ 8 → (bit_and status 0x20 == 1) ≡ false
unfolding never_one
masked status lt = ground (arith, holds_below_sound never_one 256 refl status lt)

module _ (p : Platform) where
  -- Whatever the line status register holds, `is_transmit_empty` returns false after one read of it:
  -- the masked bit is 0x20 and never 1.
  pub is_transmit_empty_lem :
      (port : ℕ) (m : Machine)
      → is_transmit_empty p port m
        ≡ ok false (record m {
          trace = in_byte ((port + 5) % 2 ^ 16) (byte_from p (port + 5) m) ∷ m.trace;
        })
  unfolding is_transmit_empty inb
  is_transmit_empty_lem port m = rw (masked (byte_from p (port + 5) m) (omega arith))

  -- What sending one byte leaves.
  abbrev pub sent : ℕ → ℕ → Machine → Machine
  sent port a m = record m {
    trace =
        out_byte (port % 2 ^ 16) (a % 2 ^ 8)
        ∷ in_byte ((port + 5) % 2 ^ 16) (byte_from p (port + 5) m)
        ∷ m.trace;
  }

  wait_once :
      (rounds port a : ℕ) (m : Machine)
      → 0 < rounds
      → and_then (wait_transmit p rounds port m) (λ _. outb port a) ≡ ok tt (sent port a m)
  unfolding wait_transmit outb
  wait_once zero port a m h = absurd (omega arith)
  wait_once (suc f) port a m h = rw (is_transmit_empty_lem port m)

  -- `serial_write_byte` never waits: it reads the status once, whatever it is, and sends the byte.
  -- The loop is followed for at least one round.
  pub serial_write_byte_lem :
      (port a : ℕ) (m : Machine)
      → 0 < p.rounds
      → serial_write_byte p port a m ≡ ok tt (sent port a m)
  unfolding serial_write_byte
  serial_write_byte_lem port a m pos = wait_once p.rounds port a m pos
