-- ===== src/Keyboard/Interleave.antt =====
-- The circular buffer of src/kernel/drivers/keyboard.c while keyboard interrupts arrive: the
-- interrupt handler runs as a whole, and may run between any two accesses of `circ_buf_pop`.
use mathlib.Core.Path.{subst}
use lappis.Base.{
  Bool-cases, List, [], ap, append_assoc, arith, false, get_or, if◌then◌else◌, inl, inr, length,
  refl, some, suc, sym, true, ℕ, ◌++◌, ◌==◌, ◌∙◌, ◌∷◌, ◌≡◌,
}
use lappis.Keyboard.{CircBuf, cbuf, circ_buf_pop, circ_buf_push, next_index}
use lappis.Keyboard.Buffer.{
  IsValid, cbuf-IsValid, circ_buf_push_lem, contents, contents-empty, contents-step,
}

-- Where the call of `circ_buf_pop` stands: outside of it, behind the test, or behind the read of
-- the byte and before the write of the tail.
pub data Progress : Type 0 where
  outside : Progress
  tested : Progress
  fetched : ℕ → Progress

-- The buffer, the call, and for the proof the bytes that the buffer took and that calls delivered.
pub record Shared : Type 0 where
  pub keys : CircBuf
  pub call : Progress
  pub accepted : List ℕ
  pub delivered : List ℕ

-- What an interrupt that pushes `v` leaves.
abbrev pub after_press : ℕ → Shared → Shared
after_press v s =
    let (done, keys) = circ_buf_push v s.keys in
    record s { keys = keys; accepted = if done then s.accepted ++ v ∷ [] else s.accepted }

-- `circ_buf_pop`, access by access.
abbrev pub fetch_tail : CircBuf → ℕ
fetch_tail c = get_or c.buffer c.tail 0

abbrev pub after_advance : ℕ → Shared → Shared
after_advance v s = record s {
  keys = record s.keys { tail = next_index s.keys s.keys.tail };
  call = outside;
  delivered = s.delivered ++ v ∷ [];
}

pub data Step (s t : Shared) : Type 0 where
  press : (v : ℕ) → t ≡ after_press v s → Step s t
  give_up : s.call ≡ outside → (s.keys.head == s.keys.tail) ≡ true → t ≡ s → Step s t
  test :
      s.call ≡ outside
      → (s.keys.head == s.keys.tail) ≡ false
      → t ≡ record s { call = tested }
      → Step s t
  fetch : s.call ≡ tested → t ≡ record s { call = fetched (fetch_tail s.keys) } → Step s t
  move_tail : (v : ℕ) → s.call ≡ fetched v → t ≡ after_advance v s → Step s t

pub data Reach (s : Shared) : Shared → Type 0 where
  unmoved : Reach s s
  followed_by : {t u : Shared} → Reach s t → Step t u → Reach s u

-- What the call already knows of the queue.
abbrev pub Knows : Progress → List ℕ → Type 0
Knows outside q = Unit
Knows tested q = (v : ℕ) × (rest : List ℕ) × (q ≡ v ∷ rest)
Knows (fetched v) q = (rest : List ℕ) × (q ≡ v ∷ rest)

pub record InOrder (s : Shared) : Type 0 where
  pub valid : IsValid s.keys
  pub no_loss : s.accepted ≡ s.delivered ++ contents s.keys
  pub known : Knows s.call (contents s.keys)

abbrev pub started : Shared
started = record { keys = cbuf; call = outside; accepted = []; delivered = [] }

Knows-append : (call : Progress) (q : List ℕ) (v : ℕ) → Knows call q → Knows call (q ++ v ∷ [])
Knows-append outside q v k = tt
Knows-append tested q v (w, rest, e) = (w, rest ++ v ∷ [], rw e refl)
Knows-append (fetched w) q v (rest, e) = (rest ++ v ∷ [], rw e refl)

press-InOrder : (v : ℕ) (s : Shared) → InOrder s → InOrder (after_press v s)
press-InOrder v s inv = elim (circ_buf_push_lem v s.keys inv.valid) [
  | inl (e, full) ↦ rw e inv
  | inr (c', e, valid', same, room, grown) ↦ rw e (record {
    valid = valid';
    no_loss = rw (grown, inv.no_loss) (append_assoc s.delivered (contents s.keys) (v ∷ []));
    known = rw grown (Knows-append s.call (contents s.keys) v inv.known);
  })
]

-- A queue that starts with a byte is not the queue of a head at the tail.
nonempty-ne :
    (c : CircBuf) (v : ℕ) (rest : List ℕ)
    → IsValid c
    → contents c ≡ v ∷ rest
    → (c.head == c.tail) ≡ false
nonempty-ne c v rest valid e = elim (Bool-cases (c.head == c.tail)) [
  | inl same ↦
      let sizes : 0 ≡ suc (length rest) = ap length (sym (contents-empty c valid same) ∙ e) in
      absurd (omega arith)
  | inr apart ↦ apart
]

fetch-InOrder :
    (s : Shared)
    → InOrder s
    → Knows tested (contents s.keys)
    → InOrder (record s { call = fetched (fetch_tail s.keys) })
fetch-InOrder s inv (v, rest, e) =
    let apart = nonempty-ne s.keys v rest inv.valid e in
    let (valid', shrinks) = contents-step s.keys inv.valid apart in
    record { valid = inv.valid; no_loss = inv.no_loss; known = (_, shrinks) }

move_tail-InOrder :
    (v : ℕ) (s : Shared)
    → InOrder s
    → Knows (fetched v) (contents s.keys)
    → InOrder (after_advance v s)
move_tail-InOrder v s inv (rest, e) =
    let apart = nonempty-ne s.keys v rest inv.valid e in
    let (valid', shrinks) = contents-step s.keys inv.valid apart in
    let same_byte : fetch_tail s.keys ≡ v = ap (λ q. get_or q 0 0) (sym shrinks ∙ e) in
    record {
      valid = valid';
      no_loss =
          rw (inv.no_loss, shrinks, same_byte)
            (sym (append_assoc s.delivered (v ∷ []) (contents (after_advance v s).keys)));
      known = tt;
    }

test-InOrder :
    (s : Shared)
    → InOrder s
    → (s.keys.head == s.keys.tail) ≡ false
    → InOrder (record s { call = tested })
test-InOrder s inv apart = record {
  valid = inv.valid;
  no_loss = inv.no_loss;
  known = (_, _, (contents-step s.keys inv.valid apart).1);
}

Step-InOrder : {s t : Shared} → Step s t → InOrder s → InOrder t
Step-InOrder {s} (press v e) inv = rw e (press-InOrder v s inv)
Step-InOrder (give_up out empty e) inv = rw e inv
Step-InOrder {s} (test out some_left e) inv = rw e (test-InOrder s inv some_left)
Step-InOrder {s} (fetch at e) inv =
    rw e (fetch-InOrder s inv (subst (λ call. Knows call (contents s.keys)) at inv.known))
Step-InOrder {s} (move_tail v at e) inv =
    rw e (move_tail-InOrder v s inv (subst (λ call. Knows call (contents s.keys)) at inv.known))

started-InOrder : InOrder started
started-InOrder = record { valid = cbuf-IsValid; no_loss = refl; known = tt }

-- Whatever interrupts arrive between the accesses of `circ_buf_pop`, in every state that is reached
-- from the empty buffer the bytes that the buffer took are the bytes that were delivered, in their
-- order, followed by those it still holds: no byte is lost, doubled or overtaken.
pub Reach-InOrder : {s : Shared} → Reach started s → InOrder s
Reach-InOrder unmoved = started-InOrder
Reach-InOrder (followed_by r st) = Step-InOrder st (Reach-InOrder r)

-- Without an interrupt between them, the accesses are `circ_buf_pop`.
pub circ_buf_pop-Reach :
    (s : Shared)
    → s.call ≡ outside
    → (s.keys.head == s.keys.tail) ≡ false
    → (v : ℕ) × (circ_buf_pop s.keys ≡ (true, some v, (circ_buf_pop s.keys).2))
      × Reach s (record s {
        keys = (circ_buf_pop s.keys).2;
        call = outside;
        delivered = s.delivered ++ v ∷ [];
      })
unfolding circ_buf_pop
circ_buf_pop-Reach s out apart = rw apart (
  fetch_tail s.keys,
  refl,
  followed_by (followed_by (followed_by unmoved (test out apart refl)) (fetch refl refl))
      (move_tail (fetch_tail s.keys) refl refl),
)
