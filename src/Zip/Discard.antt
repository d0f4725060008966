-- ===== src/Zip/Discard.antt =====
-- Blocks that the reader fills and nothing keeps.
use lappis.Base.{
  Bool, Bool-cases, List, arith, if◌then◌else◌, inl, inr, length, ltb, ne→==, refl, true, ℕ, ◌+◌,
  ◌<◌, ◌^◌, ◌∙◌, ◌≡◌, ◌≤◌,
}
use lappis.Heap.Userland.{MemcpyCopies}
use lappis.Machine.{Cmd, Machine, Platform, Returns, Returns-mono}
use lappis.Machine.Memory.{SameBelow, SameBelow-le, SameBelow-trans, fill-SameBelow, store}
use lappis.Zip.{read_discarded}
use lappis.Zip.Archive.{CentralEntry}
use lappis.Zip.Blocks.{
  At-SameBelow, block, block-SameBelow, fixed_bounds, granted, malloc-granted, read_lem,
}
use lappis.Zip.Bytes.{At}

-- A run that takes `n` bytes of the heap, changes no byte below it, and sends nothing.
pub record Took (n : ℕ) (m m' : Machine) : Type 0 where
  pub same : SameBelow m.mem m'.mem m.heap_current
  pub current : m'.heap_current ≡ m.heap_current + n
  pub same_end : m'.heap_end ≡ m.heap_end
  pub trace : m'.trace ≡ m.trace
  pub bounds : fixed_bounds m' ≡ fixed_bounds m

pub Took-trans : (a b : ℕ) (m m' m'' : Machine) → Took a m m' → Took b m' m'' → Took (a + b) m m''
Took-trans a b m m' m'' h k = record {
  same = SameBelow-trans m.mem m'.mem m''.mem m.heap_current h.same (
      SameBelow-le m'.mem m''.mem m'.heap_current m.heap_current (omega (arith, h.current)) k.same);
  current = omega (arith, h.current, k.current);
  same_end = k.same_end ∙ h.same_end;
  trace = k.trace ∙ h.trace;
  bounds = k.bounds ∙ h.bounds;
}

pub Took-refl : (m : Machine) → Took 0 m m
Took-refl m = record {
  same = λ a below. refl;
  current = omega arith;
  same_end = refl;
  trace = refl;
  bounds = refl;
}

abbrev pub ReadTo : ℕ → ℕ → Machine → Bool × ℕ → Machine → Type 0
ReadTo n cur m out m' = (out ≡ (true, cur)) × Took n m m'

-- The state after one discarded block.
discarded : ℕ → List ℕ → Machine → Machine
discarded size bytes m =
    let m1 = block size bytes m in
    if ltb (length bytes) size
    then record m1 { mem = store m1.mem (m.heap_current + length bytes) 0 }
    else m1

discarded-Took :
    (size : ℕ) (bytes : List ℕ) (m : Machine)
    → length bytes ≤ size
    → Took size m (discarded size bytes m)
unfolding discarded store
discarded-Took size bytes m le = elim (Bool-cases (ltb (length bytes) size)) [
  | inl short ↦ rw short (record {
    same = λ a below. ground (arith, block-SameBelow size bytes m a);
    current = refl;
    same_end = refl;
    trace = refl;
    bounds = refl;
  })
  | inr full ↦ rw full (record {
    same = block-SameBelow size bytes m;
    current = refl;
    same_end = refl;
    trace = refl;
    bounds = refl;
  })
]

-- The bytes that a directory entry takes of the heap.
abbrev pub central_cost : CentralEntry → ℕ
central_cost e = length e.name + 1 + (length e.extra + (length e.comment + 0))

module _ (p : Platform) (laws : MemcpyCopies p) (buf : ℕ) where
  read_discarded_lem :
      (size cur n : ℕ) (bytes : List ℕ) (next : ℕ → Cmd (Bool × ℕ)) (m : Machine)
      → n ≡ length bytes
      → At m.mem buf cur bytes
      → cur + length bytes < 2 ^ 64
      → buf + cur + length bytes ≤ m.heap_current
      → 0 < m.heap_current
      → m.heap_current + size < m.heap_end
      → m.heap_end < 2 ^ 64
      → read_discarded p buf size n cur next m ≡ next (cur + length bytes) (discarded size bytes m)
  unfolding discarded
  read_discarded_lem size cur n bytes next m len h room apart pos space small =
      let a1 = malloc-granted size m small space in
      let n1 = ne→== m.heap_current 0 (omega arith) in
      let r1 =
        read_lem p laws buf cur m.heap_current bytes (granted size m)
          (At-SameBelow m.mem _ buf cur m.heap_current bytes
            (fill-SameBelow m.mem m.heap_current size 0) apart h)
          room in
      rw (len, a1, n1, r1)
        (elim (Bool-cases (ltb (length bytes) size)) [ inl short ↦ rw short | inr full ↦ rw full ])

  -- A discarded block, then a run from the state that it leaves.
  pub discard_step :
      (size cur n rest : ℕ) (bytes : List ℕ) (next : ℕ → Cmd (Bool × ℕ)) (cur' : ℕ) (m : Machine)
      → n ≡ length bytes
      → length bytes ≤ size
      → At m.mem buf cur bytes
      → cur + length bytes < 2 ^ 64
      → buf + cur + length bytes ≤ m.heap_current
      → 0 < m.heap_current
      → m.heap_current + size < m.heap_end
      → m.heap_end < 2 ^ 64
      → ((m1 : Machine)
          → Took size m m1
          → Returns (ReadTo rest cur' m1) (next (cur + length bytes) m1))
      → Returns (ReadTo (size + rest) cur' m) (read_discarded p buf size n cur next m)
  discard_step size cur n rest bytes next cur' m len le h room apart pos space small after =
      let took = discarded-Took size bytes m le in
      rw (read_discarded_lem size cur n bytes next m len h room apart pos space small) (
        Returns-mono (after (discarded size bytes m) took) (λ out m' (done, more).
          (done, Took-trans size rest m (discarded size bytes m) m' took more)))
