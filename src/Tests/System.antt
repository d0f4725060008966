-- ===== src/Tests/System.antt =====
-- System calls, messages, and the processor, on small inputs.
use lappis.Base.{Bool, List, [], arith, codes, false, refl, ℕ, ◌++◌, ◌<◌, ◌==◌, ◌∷◌, ◌≡◌, ◌≢◌}
use lappis.Keyboard.{circ_buf_push, keyboard, keyboard_to_ascii, lookup_key}
use lappis.Keyboard.Buffer.{IsValid, cbuf-IsValid, contents}
use lappis.Keyboard.Interleave.{
  InOrder, Reach, Reach-InOrder, Shared, after_advance, after_press, fetch, fetch_tail, fetched,
  followed_by, move_tail, press, started, test, tested, unmoved,
}
use lappis.Machine.{Event, Machine, Platform, Returns, clac, cli, stac, user_copy}
use lappis.Machine.Memory.{Holds-store_list, store_list}
use lappis.Serial.{serial_com2_port}
use lappis.Serial.Text.{sent_on}
use lappis.Syscalls.{sys_getch_new, sys_print_new}
use lappis.Syscalls.Getch.{sys_getch_new_lem}
use lappis.Syscalls.PrintCall.{CopiedTo, sys_print_new_lem}
use lappis.Tests.{IsHeap-machine_with, machine, machine_with, platform, platform-MemcpyCopies}

abbrev typing : Platform
typing = record platform { device = λ trace port. 0x1E }

a_key : keyboard_to_ascii 0x1E ≢ 0
unfolding keyboard_to_ascii lookup_key
a_key = omega arith

-- The key `a`, in the third round.
abbrev third : ℕ → Bool
third i = i == 2

before_third : (i : ℕ) → i < 2 → third i ≡ false
before_third i lt = ground arith

sys_getch_new_lem_example :
    Returns
      (λ k' m'.
        (m'.mem 0x900000 ≡ keyboard_to_ascii 0x1E)
        × IsValid k'.keys
        × (contents k'.keys ≡ [])
        × ((t : List Event) × (m'.trace ≡ cli ∷ clac ∷ user_copy 0x900000 0x50000 1 ∷ stac ∷ t)))
      (sys_getch_new typing third 0x50000 0x900000 keyboard machine)
sys_getch_new_lem_example =
    sys_getch_new_lem typing (record { text_of = λ m n text args pos. ([], refl, tt, pos) }) 2 third
      0x50000 0x900000 keyboard 0x1E machine (record { delivers = λ m s n. refl }) (omega arith)
      before_third refl cbuf-IsValid (omega arith) refl refl (omega arith) a_key
      (IsHeap-machine_with (λ a. 0))
      (record { heap_below = omega arith; addressable = omega arith; rounds = omega arith })

-- `Hi` in the program's memory.
abbrev greeting : Machine
greeting = machine_with (store_list (λ a. 0) 0x30000 (b'H' ∷ b'i' ∷ []))

sys_print_new_lem_example :
    Returns
      (λ _ m'.
        (sent_on serial_com2_port m'.trace ≡ b'H' ∷ b'i' ∷ [])
        × CopiedTo (b'H' ∷ b'i' ∷ []) greeting m')
      (sys_print_new platform 0x30000 2 greeting)
sys_print_new_lem_example =
    sys_print_new_lem platform platform-MemcpyCopies (omega arith) 0x30000 (b'H' ∷ b'i' ∷ [])
      greeting (IsHeap-machine_with greeting.mem) (omega arith) (omega arith)
      (Holds-store_list (λ a. 0) 0x30000 (b'H' ∷ b'i' ∷ []) (omega arith)) (omega arith)

-- A key, the test of a pop, another key, and the rest of the pop.
abbrev one_key : Shared
one_key = after_press b'a' started

abbrev two_keys : Shared
two_keys = after_press b'b' (record one_key { call = tested })

abbrev popped : Shared
popped =
    after_advance (fetch_tail two_keys.keys)
      (record two_keys { call = fetched (fetch_tail two_keys.keys) })

some_key : (one_key.keys.head == one_key.keys.tail) ≡ false
unfolding circ_buf_push
some_key = refl

popped-Reach : Reach started popped
popped-Reach =
    followed_by
      (followed_by
        (followed_by (followed_by (followed_by unmoved (press b'a' refl)) (test refl some_key refl))
          (press b'b' refl))
        (fetch refl refl))
      (move_tail (fetch_tail two_keys.keys) refl refl)

Reach-InOrder_example : InOrder popped
Reach-InOrder_example = Reach-InOrder popped-Reach

-- The message of the function `f` in line 7 of `a/b.c`.
abbrev named : Machine
named =
    machine_with
      (store_list (store_list (λ a. 0) 64 (codes "a/b.c" ++ 0 ∷ [])) 80 (codes "f" ++ 0 ∷ []))
