-- ===== src/Machine.antt =====
-- The machine that the kernel's C runs on: byte memory, the globals of src/kernel/heap.c, the
-- flags that inline assembly sets, and a record of every port access. A C function is a command:
-- it takes the machine to the next one. What the kernel links against and does not implement in
-- its own C (linker symbols, devices, memcpy.c, tinyprintf.c, terminal-font.c) is a `Platform`.
pub mod Memory
pub mod Ports
use lappis.Base.{List, String, ℕ, ◌∷◌}

-- What is visible from outside: port accesses, the messages of the `debug` and `error` macros with
-- their arguments, privileged instructions, and the accesses to userland's memory that SMAP checks:
-- `user_fill p n` zeroes `n` bytes at `p`, `user_copy d s n` copies `n` bytes from `s` to `d`.
pub data Event : Type 0 where
  out_byte : ℕ → ℕ → Event
  in_byte : ℕ → ℕ → Event
  in_word : ℕ → ℕ → Event
  debug_msg : String → List ℕ → Event
  error_msg : String → List ℕ → Event
  stac : Event
  clac : Event
  cli : Event
  sti : Event
  hlt : Event
  lidt : Event
  fldcw : ℕ → Event
  mov_cr4 : ℕ → Event
  user_fill : ℕ → ℕ → Event
  user_copy : ℕ → ℕ → ℕ → Event

abbrev pub Mem : Type 0
Mem = ℕ → ℕ

-- `device h port` is what a read of `port` returns after the events `h`, newest first.
-- `rounds` is how long a loop that waits, or that looks for a terminator, is followed.
-- `copied m s n` is what memcpy delivers from the `n` bytes at `s`, and `format m n f args` what
-- tinyprintf stores, its NUL included, for a buffer of `n` bytes.
pub record Platform : Type 0 where
  pub kernel_data : ℕ
  pub kernel_data_end : ℕ
  pub userland : ℕ
  pub userland_end : ℕ
  pub frame_buffer : ℕ
  pub rounds : ℕ
  pub device : List Event → ℕ → ℕ
  pub copied : Mem → ℕ → ℕ → List ℕ
  pub format : Mem → ℕ → String → List ℕ → List ℕ
  pub large_font : ℕ → ℕ → ℕ

pub record Machine : Type 0 where
  pub mem : Mem
  pub heap_start : ℕ
  pub heap_end : ℕ
  pub heap_current : ℕ
  pub userland_heap_start : ℕ
  pub userland_heap_end : ℕ
  pub userland_heap_current : ℕ
  pub cr4 : ℕ
  pub trace : List Event

-- `stuck`: a loop was still running after `rounds` rounds, or ran into a guard page. `entered`: the
-- program at an address was entered, from which the kernel's code does not go on.
pub data Run (A : Type 0) : Type 0 where
  ok : A → Machine → Run A
  stuck : Run A
  entered : ℕ → Machine → Run A

abbrev pub Cmd : Type 0 → Type 0
Cmd A = Machine → Run A

abbrev pub pure : {A : Type 0} → A → Cmd A
pure = ok

abbrev pub skip : Cmd (Unit {0})
skip = ok tt

module _ {A B : Type 0} where
  abbrev pub and_then : Run A → (A → Cmd B) → Run B
  and_then (ok a m) k = k a m
  and_then stuck k = stuck
  and_then (entered target m) k = entered target m

  infixl 5 ◌>>=◌ ◌>>◌
  abbrev pub ◌>>=◌ : Cmd A → (A → Cmd B) → Cmd B
  c >>= k = λ m. and_then (c m) k

  abbrev pub ◌>>◌ : Cmd A → Cmd B → Cmd B
  c >> d = c >>= λ _. d

abbrev pub emit : Event → Cmd (Unit {0})
emit e m = ok tt (record m { trace = e ∷ m.trace })

-- The macros of src/kernel/serial.h. What they send to COM1 is in `Serial`.
abbrev pub debug : String → List ℕ → Cmd (Unit {0})
debug text args = emit (debug_msg text args)

abbrev pub error : String → List ℕ → Cmd (Unit {0})
error text args = emit (error_msg text args)

-- The machine's memory, read and replaced as a whole.
abbrev pub get_mem : Cmd Mem
get_mem m = ok m.mem m

abbrev pub put_mem : Mem → Cmd (Unit {0})
put_mem mem m = ok tt (record m { mem = mem })

-- A run that enters the program at an address, in a state with the property.
pub data Enters {A : Type 0} (target : ℕ) (P : Machine → Type 0) : Run A → Type 0 where
  enters : {m : Machine} → P m → Enters target P (entered target m)

-- Total correctness of a run: it ends, in a state with the property.
pub data Returns {A : Type 0} (P : A → Machine → Type 0) : Run A → Type 0 where
  returns : {a : A} {m : Machine} → P a m → Returns P (ok a m)

module _ {A B : Type 0} {P : A → Machine → Type 0} where
  pub Returns-bind :
      {Q : B → Machine → Type 0} {r : Run A} {k : A → Cmd B}
      → Returns P r
      → ((a : A) (m : Machine) → P a m → Returns Q (k a m))
      → Returns Q (and_then r k)
  Returns-bind (returns h) next = next _ _ h

pub Returns-mono :
    {A : Type 0} {P Q : A → Machine → Type 0} {r : Run A}
    → Returns P r
    → ((a : A) (m : Machine) → P a m → Q a m)
    → Returns Q r
Returns-mono (returns h) weaken = returns (weaken _ _ h)

module _ {A B : Type 0} {target : ℕ} {Q : Machine → Type 0} where
  -- What comes behind the entry is not run.
  pub Enters-bind : {r : Run A} (k : A → Cmd B) → Enters target Q r → Enters target Q (and_then r k)
  Enters-bind k (enters h) = enters h

  pub Enters-behind :
      {P : A → Machine → Type 0} {r : Run A} {k : A → Cmd B}
      → Returns P r
      → ((a : A) (m : Machine) → P a m → Enters target Q (k a m))
      → Enters target Q (and_then r k)
  Enters-behind (returns h) next = next _ _ h
