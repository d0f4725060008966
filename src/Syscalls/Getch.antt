-- ===== src/Syscalls/Getch.antt =====
-- `sys_getch_new` waits for a key, and ends with it.
use lappis.Base.{
  Bool, List, [], ap, arith, drop, false, get_or, holds_below, holds_below_sound, inl, inr, length,
  ltb, ne→==, none, refl, some, suc, sym, true, zero, ℕ, ◌!=◌, ◌++◌, ◌+◌, ◌<◌, ◌^◌, ◌∙◌, ◌∷◌, ◌≡◌,
  ◌≢◌, ◌≤◌,
}
use lappis.Heap.{userland_memcpy}
use lappis.Heap.Alloc.{IsHeap}
use lappis.Heap.Userland.{MemcpyCopies}
use lappis.Keyboard.{CircBuf, Keyboard, circ_buf_pop, keyboard_to_ascii, lookup_key}
use lappis.Keyboard.Buffer.{IsValid, circ_buf_pop_lem, circ_buf_push_lem, contents}
use lappis.Keyboard.Handler.{acknowledged, heard, keyboard_handler_lem}
use lappis.Machine.{
  Event, Machine, Platform, Returns, Returns-bind, Run, and_then, clac, cli, returns, stac, sti,
  user_copy,
}
use lappis.Machine.Memory.{store, store_list}
use lappis.Machine.Ports.{byte_from}
use lappis.Print.Shown.{Drew, Drew-log, FormatTerminates, IsScreen, IsScreen-Drew}
use lappis.Syscalls.{disable_interrupt, enable_interrupt, getch_loop, interrupt, sys_getch_new}

char_small : ℕ → Bool
char_small raw = ltb (keyboard_to_ascii raw) 256

all_small : holds_below char_small 129 ≡ true
unfolding char_small keyboard_to_ascii lookup_key
all_small = refl

keyboard_to_ascii-small : (raw : ℕ) → raw ≤ 0x80 → keyboard_to_ascii raw < 2 ^ 8
unfolding char_small
keyboard_to_ascii-small raw le =
    ground (arith, holds_below_sound char_small 129 all_small raw (omega arith))

-- The byte that is alone in the buffer is popped, and leaves it empty.
pop_only :
    (c : CircBuf) (v : ℕ)
    → IsValid c
    → contents c ≡ v ∷ []
    → (c' : CircBuf) × (circ_buf_pop c ≡ (true, some v, c')) × IsValid c' × (contents c' ≡ [])
pop_only c v valid e = elim (circ_buf_pop_lem c valid) [
  | inl (none_left, empty) ↦
      let sizes : 0 ≡ 1 = ap length (sym empty ∙ e) in absurd (omega (arith, sizes))
  | inr (w, c', popped, valid', same, grown) ↦
      let first : w ≡ v = ap (λ q. get_or q 0 0) (sym grown ∙ e) in
      let rest : contents c' ≡ [] = ap (drop 1) (sym grown ∙ e) in
      (c', popped ∙ ap (λ b. (true, some b, c')) first, valid', rest)
]

-- A key that is heard by an empty buffer is alone in it.
heard_only :
    (raw : ℕ) (c : CircBuf)
    → IsValid c
    → 1 < c.maxlen
    → contents c ≡ []
    → raw ≤ 0x80
    → keyboard_to_ascii raw ≢ 0
    → IsValid (heard raw c) × (contents (heard raw c) ≡ keyboard_to_ascii raw ∷ [])
heard_only raw c valid room empty le some_char =
    let pressed : ltb 0x80 raw ≡ false = ground arith in
    let known = ne→== (keyboard_to_ascii raw) 0 some_char in
    elim (circ_buf_push_lem (keyboard_to_ascii raw) c valid) [
      | inl (e, full) ↦
          let none_there : length (contents c) ≡ 0 = rw empty refl in
          absurd (omega (arith, none_there))
      | inr (c', e, valid', same, less, grown) ↦
          rw (pressed, known, e) (valid', grown ∙ ap (λ q. q ++ keyboard_to_ascii raw ∷ []) empty)
    ]

-- What the loop ends with.
abbrev Delivered : ℕ → Machine → ℕ × Keyboard → Machine → Type 0
Delivered v m (c, k) m' = (c ≡ v) × IsValid k.keys × (contents k.keys ≡ []) × Drew m m'

module _ (p : Platform) (laws : FormatTerminates p) where
  -- What follows the interrupt of a round in which `c` is still 0.
  abbrev after_interrupt : ℕ → (ℕ → Bool) → Keyboard → Machine → Run (ℕ × Keyboard)
  after_interrupt f irq k m =
      let (done, popped, keys) = circ_buf_pop k.keys in
      getch_loop p f irq (elim popped [ none ↦ 0 | some v ↦ v ]) (record k { keys = keys }) m

  getch_loop-round :
      (f : ℕ) (irq : ℕ → Bool) (k : Keyboard) (m : Machine)
      → getch_loop p (suc f) irq 0 k m
        ≡ and_then (interrupt p (irq 0) k m) (after_interrupt f (λ i. irq (suc i)))
  unfolding getch_loop
  getch_loop-round f irq k m = refl

  -- The loop takes the only byte of the buffer, and ends.
  loop_takes :
      (f : ℕ) (irq : ℕ → Bool) (k : Keyboard) (v : ℕ) (m m1 : Machine)
      → IsValid k.keys
      → contents k.keys ≡ v ∷ []
      → v ≢ 0
      → Drew m m1
      → Returns (Delivered v m) (after_interrupt (suc f) irq k m1)
  unfolding getch_loop
  loop_takes f irq k v m m1 valid e some_char d =
      let (c', popped, valid', empty) = pop_only k.keys v valid e in
      let ends : (v != 0) ≡ true = ground (arith, some_char) in
      rw (popped, ends) (returns (refl, valid', empty, d))

  -- `n` rounds without an interrupt, and one with the interrupt of the key `raw`.
  loop_waits :
      (n f : ℕ) (irq : ℕ → Bool) (k : Keyboard) (raw : ℕ) (m : Machine)
      → suc n < f
      → ((i : ℕ) → i < n → irq i ≡ false)
      → irq n ≡ true
      → IsValid k.keys
      → 1 < k.keys.maxlen
      → contents k.keys ≡ []
      → byte_from p 0x60 (acknowledged m) ≡ raw
      → raw ≤ 0x80
      → keyboard_to_ascii raw ≢ 0
      → IsHeap m
      → IsScreen p m
      → Returns (Delivered (keyboard_to_ascii raw) m) (getch_loop p f irq 0 k m)
  unfolding interrupt
  loop_waits n (suc zero) irq k raw m fuel quiet now valid room empty answer le some_char heap
        screen =
      absurd (omega (arith, fuel))
  loop_waits n zero irq k raw m fuel quiet now valid room empty answer le some_char heap screen =
      absurd (omega (arith, fuel))
  loop_waits zero (suc (suc f)) irq k raw m fuel quiet now valid room empty answer le some_char heap
        screen =
      rw (getch_loop-round (suc f) irq k m, now)
        (Returns-bind (keyboard_handler_lem p laws k m heap screen) λ k' m1 (e, d).
          let (valid', only) = heard_only raw k.keys valid room empty le some_char in
          let same : k'.keys ≡ heard raw k.keys = e ∙ ap (λ r. heard r k.keys) answer in
          loop_takes f (λ i. irq (suc i)) k' (keyboard_to_ascii raw) m m1 (rw same valid')
            (rw same only) some_char d)
  loop_waits (suc n) (suc (suc f)) irq k raw m fuel quiet now valid room empty answer le some_char
        heap screen =
      elim (circ_buf_pop_lem k.keys valid) [
        | inl (none_left, e) ↦
            rw (getch_loop-round (suc f) irq k m, quiet 0 (omega arith), none_left)
              (loop_waits n (suc f) (λ i. irq (suc i)) (record k { keys = k.keys }) raw m
                (omega arith) (λ i lt. quiet (suc i) (omega arith)) now valid room empty answer le
                some_char heap screen)
        | inr (v, c', popped, valid', same, grown) ↦
            let sizes : 0 ≡ suc (length (contents c')) = ap length (sym empty ∙ grown) in
            absurd (omega (arith, sizes))
      ]

  -- A program that asks for a character while none has been typed gets one: after any number of
  -- rounds without a key, the first key with a character that the keyboard's interrupt delivers ends
  -- `sys_getch_new`. The program's byte is then that character, the key is no longer in the buffer,
  -- and interrupts are off behind the write into the program's memory. The loop is followed for as
  -- many rounds as the key needs to come and one more, memcpy copies, vsnprintf terminates what it
  -- stores, and the heap lies below the frame buffer.
  pub sys_getch_new_lem :
      (n : ℕ) (irq : ℕ → Bool) (c_at u_c : ℕ) (k : Keyboard) (raw : ℕ) (m : Machine)
      → MemcpyCopies p
      → n + 2 ≤ p.rounds
      → ((i : ℕ) → i < n → irq i ≡ false)
      → irq n ≡ true
      → IsValid k.keys
      → 1 < k.keys.maxlen
      → contents k.keys ≡ []
      → byte_from p 0x60 (acknowledged (record m { trace = sti ∷ m.trace })) ≡ raw
      → raw ≤ 0x80
      → keyboard_to_ascii raw ≢ 0
      → IsHeap m
      → IsScreen p m
      → Returns
          (λ k' m'.
            (m'.mem u_c ≡ keyboard_to_ascii raw)
            × IsValid k'.keys
            × (contents k'.keys ≡ [])
            × ((t : List Event) × (m'.trace ≡ cli ∷ clac ∷ user_copy u_c c_at 1 ∷ stac ∷ t)))
          (sys_getch_new p irq c_at u_c k m)
  unfolding sys_getch_new enable_interrupt disable_interrupt userland_memcpy store_list store
  sys_getch_new_lem n irq c_at u_c k raw m copies fuel quiet now valid room empty answer le
        some_char heap screen =
      let m1 = record m { trace = sti ∷ m.trace } in
      let c = keyboard_to_ascii raw in
      let small = keyboard_to_ascii-small raw le in
      Returns-bind
        (loop_waits n p.rounds irq k raw m1 (omega arith) quiet now valid room empty answer le
          some_char (Drew-log m (sti ∷ m.trace) heap).valid
          (IsScreen-Drew p m m1 screen (Drew-log m (sti ∷ m.trace) heap)))
        λ r m2 (same, valid', none_left, d).
          rw (copies.delivers (store m2.mem c_at r.0) c_at 1)
            (returns (ground arith, valid', none_left, (m2.trace, refl)))
