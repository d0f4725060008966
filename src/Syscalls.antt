-- ===== src/Syscalls.antt =====
-- src/kernel/syscalls.c: what a program asks of the kernel. Keyboard interrupts arrive while
-- `sys_getch_new` waits.
pub mod Getch
pub mod PrintCall
use lappis.Base.{Bool, if◌then◌else◌, none, some, suc, zero, ℕ, ◌!=◌}
use lappis.Heap.{malloc, userland_memcpy}
use lappis.Keyboard.{Keyboard, circ_buf_pop, keyboard_handler}
use lappis.Machine.{
  Cmd, Platform, and_then, cli, emit, get_mem, pure, put_mem, sti, stuck, ◌>>=◌, ◌>>◌,
}
use lappis.Machine.Memory.{bytes_at, store}
use lappis.Serial.{debug_buffer}

-- `cli` and `sti`.
pub disable_interrupt : Cmd (Unit {0})
disable_interrupt = emit cli

pub enable_interrupt : Cmd (Unit {0})
enable_interrupt = emit sti

module _ (p : Platform) where
  -- The block is not checked against NULL.
  pub sys_print_new : ℕ → ℕ → Cmd (Unit {0})
  sys_print_new u_str size = do
    k_p ← malloc size
    dest ← userland_memcpy p k_p u_str size
    mem ← get_mem
    debug_buffer p (bytes_at mem k_p size)

  -- A keyboard interrupt, or none.
  pub interrupt : Bool → Keyboard → Cmd Keyboard
  interrupt raised k = if raised then keyboard_handler p k else pure k

  -- `while (c == 0)`. `irq i` tells whether an interrupt comes before the `i`-th call of
  -- `circ_buf_pop`, which leaves `c` alone when the buffer is empty.
  pub getch_loop : ℕ → (ℕ → Bool) → ℕ → Keyboard → Cmd (ℕ × Keyboard)
  getch_loop zero irq c k = λ m. stuck
  getch_loop (suc f) irq c k = if c != 0 then pure (c, k) else do
    k' ← interrupt (irq 0) k
    let (done, popped, keys) = circ_buf_pop k'.keys
    getch_loop f (λ i. irq (suc i)) (elim popped [ none ↦ c | some v ↦ v ])
        (record k' { keys = keys })

  -- `c` is a local variable at `c_at`.
  pub sys_getch_new : (ℕ → Bool) → ℕ → ℕ → Keyboard → Cmd Keyboard
  sys_getch_new irq c_at u_c k = do
    enable_interrupt
    (c, k') ← getch_loop p.rounds irq 0 k
    mem ← get_mem
    put_mem (store mem c_at c)
    dest ← userland_memcpy p u_c c_at 1
    disable_interrupt
    pure k'
