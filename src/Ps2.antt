-- ===== src/Ps2.antt =====
-- src/kernel/ps2.c: the PS/2 controller's handshake. `timer` is a `uint32_t`.
pub mod Timeout
use lappis.Base.{
  Bool, [], bit_and, false, if◌then◌else◌, ltb, sub32, suc, true, zero, ℕ, ◌!=◌, ◌==◌,
}
use lappis.Machine.{Cmd, Platform, and_then, error, pure, stuck, ◌>>=◌, ◌>>◌}
use lappis.Machine.Ports.{inb, outb}

abbrev pub cmd_port : ℕ
cmd_port = 0x64

abbrev pub data_port : ℕ
data_port = 0x60

module _ (p : Platform) where
  -- `while ((inb(0x64) & 2) && timer-- > 0) {}`: the test reads the old value, and the decrement
  -- wraps below 0 also where the test fails.
  pub wait_write_loop : ℕ → ℕ → Cmd ℕ
  wait_write_loop zero timer = λ m. stuck
  wait_write_loop (suc f) timer = do
    status ← inb p cmd_port
    if bit_and status 2 == 0
        then pure timer
        else if ltb 0 timer
        then wait_write_loop f (sub32 timer 1)
        else pure (sub32 timer 1)

  pub ps2_wait_write : Cmd Bool
  ps2_wait_write = do timer ← wait_write_loop p.rounds 500; pure (timer != 0)

  -- `while (!(inb(0x64) & 1) && timer-- >= 0) {}`: an unsigned number is at least 0 always.
  pub wait_read_loop : ℕ → ℕ → Cmd ℕ
  wait_read_loop zero timer = λ m. stuck
  wait_read_loop (suc f) timer = do
    status ← inb p cmd_port
    if bit_and status 1 != 0 then pure timer else wait_read_loop f (sub32 timer 1)

  pub ps2_wait_read : Cmd Bool
  ps2_wait_read = do timer ← wait_read_loop p.rounds 500; pure (timer != 0)

  -- `return -1` from a `uint8_t`.
  pub ps2_read : ℕ → Cmd ℕ
  ps2_read port = do
    ready ← ps2_wait_read
    if ready then inb p port else do error "ps2_read: fail" []; pure 0xff

  pub ps2_write : ℕ → ℕ → Cmd Bool
  ps2_write port b = do
    ready ← ps2_wait_write
    if ready then (do outb port b; pure true) else do error "ps2_write: fail" []; pure false
