-- ===== src/Ps2/Timeout.antt =====
-- The waits for the PS/2 controller: what they report when it does not get ready.
use lappis.Base.{
  arith, bit_and, false, lt→ltb, refl, sub32, suc, true, zero, ℕ, ◌!=◌, ◌-◌, ◌<◌, ◌==◌, ◌^◌, ◌∷◌,
  ◌≡◌,
}
use lappis.Machine.{Machine, Platform, in_byte, ok, stuck}
use lappis.Machine.Ports.{byte_from, inb}
use lappis.Ps2.{cmd_port, ps2_wait_read, ps2_wait_write, wait_read_loop, wait_write_loop}

module _ (p : Platform) where
  -- The machine after a read of the status port.
  abbrev pub polled : Machine → Machine
  polled m = record m { trace = in_byte cmd_port (byte_from p cmd_port m) ∷ m.trace }

  -- The next `n` reads of the status find the bits of `mask` set, or clear.
  abbrev pub SetFor : ℕ → ℕ → Machine → Type 0
  SetFor mask zero m = Unit
  SetFor mask (suc n) m =
      ((bit_and (byte_from p cmd_port m) mask == 0) ≡ false) × SetFor mask n (polled m)

  abbrev pub ClearFor : ℕ → ℕ → Machine → Type 0
  ClearFor mask zero m = Unit
  ClearFor mask (suc n) m =
      ((bit_and (byte_from p cmd_port m) mask != 0) ≡ false) × ClearFor mask n (polled m)

  -- `n` reads later.
  abbrev pub polled_for : ℕ → Machine → Machine
  polled_for zero m = m
  polled_for (suc n) m = polled_for n (polled m)

  wait_write_loop-busy :
      (f timer : ℕ) (m : Machine)
      → timer < f
      → timer < 2 ^ 32
      → SetFor 2 (suc timer) m
      → wait_write_loop p f timer m ≡ ok (2 ^ 32 - 1) (polled_for (suc timer) m)
  unfolding wait_write_loop inb
  wait_write_loop-busy zero timer m lt small busy = absurd (omega arith)
  wait_write_loop-busy (suc f) zero m lt small busy = rw busy.0
  wait_write_loop-busy (suc f) (suc timer) m lt small busy =
      let less : sub32 (suc timer) 1 ≡ timer = omega arith in
      rw (busy.0, lt→ltb 0 (suc timer) (omega arith), less)
        (wait_write_loop-busy f timer (polled m) (omega arith) (omega arith) busy.1)

  -- A controller whose input buffer is full for all of the 501 reads is reported as ready:
  -- `ps2_wait_write` ends after these reads, and returns true.
  pub ps2_wait_write-busy :
      (m : Machine)
      → 500 < p.rounds
      → SetFor 2 501 m
      → ps2_wait_write p m ≡ ok true (polled_for 501 m)
  unfolding ps2_wait_write
  ps2_wait_write-busy m fuel busy = rw (wait_write_loop-busy p.rounds 500 m fuel (omega arith) busy)

  wait_read_loop-clear :
      (f timer : ℕ) (m : Machine) → ClearFor 1 f m → wait_read_loop p f timer m ≡ stuck
  unfolding wait_read_loop inb
  wait_read_loop-clear zero timer m clear = refl
  wait_read_loop-clear (suc f) timer m clear =
      rw clear.0 (wait_read_loop-clear f (sub32 timer 1) (polled m) clear.1)

  -- The wait of `ps2_read` has no timeout: as long as the controller has no byte, it does not end,
  -- however many rounds it is followed for.
  pub ps2_wait_read-clear : (m : Machine) → ClearFor 1 p.rounds m → ps2_wait_read p m ≡ stuck
  unfolding ps2_wait_read
  ps2_wait_read-clear m clear = rw (wait_read_loop-clear p.rounds 500 m clear)
