-- ===== src/Keyboard/Buffer.antt =====
-- The circular buffer of src/kernel/drivers/keyboard.c is a bounded first-in first-out queue.
use lappis.Base.{
  Bool, Bool-cases, List, Option, [], ap, ap₂, arith, false, get_or, get_or-set_ne, get_or-set_self,
  if◌then◌else◌, inl, inr, leb, length, length-set, le→ltb, ltb, lt→ltb, none, refl, set, some, suc,
  true, zero, ℕ, ◌++◌, ◌+◌, ◌-◌, ◌<◌, ◌==◌, ◌^◌, ◌∙◌, ◌∷◌, ◌≡◌, ◌≢◌, ◌⊎◌,
}
use lappis.Keyboard.{CircBuf, cbuf, circ_buf_pop, circ_buf_push, next_index}
use lappis.Strings.{byte}

-- One index further, at a distance that shrinks by one with every step towards `h`.
abbrev pub ahead : ℕ → ℕ → ℕ → ℕ
ahead maxlen i h = if leb i h then h - i else h + maxlen - i

-- The `n` bytes from index `i` on, around the end of the array.
abbrev pub window : CircBuf → ℕ → ℕ → List ℕ
window c i zero = []
window c i (suc n) = get_or c.buffer i 0 ∷ window c (next_index c i) n

-- What the buffer holds, oldest first.
abbrev pub contents : CircBuf → List ℕ
contents c = window c c.tail (ahead c.maxlen c.tail c.head)

pub record IsValid (c : CircBuf) : Type 0 where
  pub array : length c.buffer ≡ c.maxlen
  pub small : c.maxlen < 2 ^ 32
  pub head_in : c.head < c.maxlen
  pub tail_in : c.tail < c.maxlen

-- The buffer after a write at its head, which moves on.
abbrev written : CircBuf → ℕ → CircBuf
written c v = record c { buffer = set c.buffer c.head v; head = next_index c c.head }

-- A write at the head is not seen before it, and is the last byte of the window that reaches it.
window-written :
    (c : CircBuf) (v i n : ℕ)
    → IsValid c
    → i < c.maxlen
    → ahead c.maxlen i c.head ≡ n
    → window (written c v) i (suc n) ≡ window c i n ++ v ∷ []
window-written c v i zero valid lt near =
    let here : i ≡ c.head = ground arith in
    rw (here, get_or-set_self c.buffer c.head v 0 (omega (arith, valid.array, valid.head_in)))
window-written c v i (suc n) valid lt near =
    let there : c.head ≢ i = ground arith in
    let small = valid.small in
    let head_in = valid.head_in in
    rw (
      get_or-set_ne c.buffer c.head i v 0 there,
      window-written c v (next_index c i) n valid (ground arith) (ground arith),
    )

length-window : (c : CircBuf) (i n : ℕ) → length (window c i n) ≡ n
length-window c i zero = refl
length-window c i (suc n) = ap suc (length-window c (next_index c i) n)

-- What the two operations do to a queue that takes `capacity` bytes.
pub data KeyOp : Type 0 where
  push : ℕ → KeyOp
  pop : KeyOp

abbrev pub fifo_run : ℕ → List KeyOp → List ℕ → List (Bool × Option ℕ)
fifo_run capacity [] q = []
fifo_run capacity (push v ∷ ops) q =
    if ltb (length q) capacity
    then (true, none) ∷ fifo_run capacity ops (q ++ v ∷ [])
    else (false, none) ∷ fifo_run capacity ops q
fifo_run capacity (pop ∷ ops) [] = (false, none) ∷ fifo_run capacity ops []
fifo_run capacity (pop ∷ ops) (v ∷ q) = (true, some v) ∷ fifo_run capacity ops q

-- The same operations on the circular buffer: what each call returns, and the byte it delivers.
pub circ_run : List KeyOp → CircBuf → List (Bool × Option ℕ)
circ_run [] c = []
circ_run (push v ∷ ops) c = let (done, c') = circ_buf_push v c in (done, none) ∷ circ_run ops c'
circ_run (pop ∷ ops) c = let (done, byte, c') = circ_buf_pop c in (done, byte) ∷ circ_run ops c'

-- `circ_buf_push` on a valid buffer keeps it valid. It refuses exactly when the queue holds
-- `maxlen - 1` bytes, and else appends the byte to the queue.
pub circ_buf_push_lem :
    (v : ℕ) (c : CircBuf)
    → IsValid c
    → ((circ_buf_push v c ≡ (false, c)) × (length (contents c) ≡ c.maxlen - 1))
      ⊎ ((c' : CircBuf) × (circ_buf_push v c ≡ (true, c'))
          × IsValid c'
          × (c'.maxlen ≡ c.maxlen)
          × (length (contents c) < c.maxlen - 1)
          × (contents c' ≡ contents c ++ v ∷ []))
unfolding circ_buf_push
circ_buf_push_lem v c valid =
    let small = valid.small in
    let head_in = valid.head_in in
    let tail_in = valid.tail_in in
    let n = ahead c.maxlen c.tail c.head in
    let size = length-window c c.tail n in
    elim (Bool-cases (next_index c c.head == c.tail)) [
      | inl full ↦ inl (rw full, ground arith)
      | inr room ↦
          let grows : ahead c.maxlen c.tail (next_index c c.head) ≡ suc n = ground arith in
          inr (
            written c v,
            rw room,
            record {
              array = length-set c.buffer c.head v ∙ valid.array;
              small = small;
              head_in = ground arith;
              tail_in = tail_in;
            },
            refl,
            ground arith,
            rw grows (window-written c v c.tail n valid tail_in refl),
          )
    ]

-- Where the head is at the tail, nothing is left.
pub contents-empty : (c : CircBuf) → IsValid c → (c.head == c.tail) ≡ true → contents c ≡ []
contents-empty c valid same =
    let empty : ahead c.maxlen c.tail c.head ≡ 0 = ground arith in rw empty refl

-- Else the byte at the tail is the oldest one, and the tail moves on.
pub contents-step :
    (c : CircBuf)
    → IsValid c
    → (c.head == c.tail) ≡ false
    → IsValid (record c { tail = next_index c c.tail })
      × (contents c ≡ get_or c.buffer c.tail 0 ∷ contents (record c { tail = next_index c c.tail }))
contents-step c valid some_left =
    let small = valid.small in
    let head_in = valid.head_in in
    let tail_in = valid.tail_in in
    let shrinks : ahead c.maxlen c.tail c.head ≡ suc (ahead c.maxlen (next_index c c.tail) c.head) =
      ground arith in
    (
      record { array = valid.array; small = small; head_in = head_in; tail_in = ground arith },
      rw shrinks refl,
    )

-- `circ_buf_pop` on a valid buffer keeps it valid. It fails exactly when the queue is empty, and
-- else delivers and removes the oldest byte.
pub circ_buf_pop_lem :
    (c : CircBuf)
    → IsValid c
    → ((circ_buf_pop c ≡ (false, none, c)) × (contents c ≡ []))
      ⊎ ((v : ℕ) × (c' : CircBuf) × (circ_buf_pop c ≡ (true, some v, c'))
          × IsValid c'
          × (c'.maxlen ≡ c.maxlen)
          × (contents c ≡ v ∷ contents c'))
unfolding circ_buf_pop
circ_buf_pop_lem c valid = elim (Bool-cases (c.head == c.tail)) [
  | inl none_left ↦ inl (rw none_left, contents-empty c valid none_left)
  | inr some_left ↦
      let (valid', shrinks) = contents-step c valid some_left in
      inr (
        get_or c.buffer c.tail 0,
        record c { tail = next_index c c.tail },
        rw some_left,
        valid',
        refl,
        shrinks,
      )
]

-- Any sequence of pushes and pops on a valid buffer answers like a first-in first-out queue that
-- takes `maxlen - 1` bytes.
pub circ_run_lem :
    (ops : List KeyOp) (c : CircBuf)
    → IsValid c
    → circ_run ops c ≡ fifo_run (c.maxlen - 1) ops (contents c)
unfolding circ_run
circ_run_lem [] c valid = refl
circ_run_lem (push v ∷ ops) c valid = elim (circ_buf_push_lem v c valid) [
  | inl (e, full) ↦
      rw (e, le→ltb (length (contents c)) (c.maxlen - 1) (omega arith), circ_run_lem ops c valid)
  | inr (c', e, valid', same, room, grown) ↦
      rw (e, lt→ltb (length (contents c)) (c.maxlen - 1) room)
        (ap (λ rest. (true, none) ∷ rest)
          (circ_run_lem ops c' valid' ∙ ap₂ (λ n q. fifo_run (n - 1) ops q) same grown))
]
circ_run_lem (pop ∷ ops) c valid = elim (circ_buf_pop_lem c valid) [
  | inl (e, empty) ↦ rw (e, empty, circ_run_lem ops c valid, empty)
  | inr (v, c', e, valid', same, grown) ↦
      rw (e, grown)
        (ap (λ rest. (true, some v) ∷ rest)
          (circ_run_lem ops c' valid' ∙ ap (λ n. fifo_run (n - 1) ops (contents c')) same))
]

-- The driver's buffer starts out valid and empty.
pub cbuf-IsValid : IsValid cbuf
cbuf-IsValid = record {
  array = refl;
  small = omega arith;
  head_in = omega arith;
  tail_in = omega arith;
}
