-- ===== src/Kernel/Background.antt =====
-- The loop that shows the background, of src/kernel/kernel.c.
use lappis.Base.{
  All, Bool-cases, List, [], ap, arith, inl, inr, length, refl, suc, sym, true≢false, ℕ, ◌++◌, ◌+◌,
  ◌<◌, ◌^◌, ◌∙◌, ◌∷◌, ◌≡◌, ◌≢◌, ◌≤◌,
}
use lappis.Heap.Userland.{MemcpyCopies}
use lappis.Kernel.{Linked, background_loop, data_of, file_of, name_of}
use lappis.Kernel.Files.{Entries-SameBelow, IsName, IsSearched, compare_name}
use lappis.Machine.{Machine, Mem, Platform, Run, debug_msg, entered, ok, stuck}
use lappis.Machine.Memory.{Holds, SameBelow, SameBelow-le, SameBelow-trans, store_list-SameBelow}
use lappis.Strings.Length.{IsCString, IsCString-same}
use lappis.Video.Frame.{frame_size, framed, framed-Holds, set_frame_lem}
use lappis.Zip.Archive.{LocalFile}
use lappis.Zip.Cursor.{ZipFs}
use lappis.Zip.Read.Loaded.{Entries}

-- The machine after the loop, or after a round of it: memory changes from the frame buffer on.
pub record Passed (p : Platform) (m m' : Machine) : Type 0 where
  pub same : m' ≡ record m { mem = m'.mem; trace = m'.trace }
  pub below : SameBelow m.mem m'.mem p.frame_buffer

Passed-trans : (p : Platform) (m m1 m2 : Machine) → Passed p m m1 → Passed p m1 m2 → Passed p m m2
Passed-trans p m m1 m2 a b = record {
  same =
      b.same
      ∙ ap {A = Machine} {B = Machine} (λ x. record x { mem = m2.mem; trace = m2.trace }) a.same;
  below = SameBelow-trans m.mem m1.mem m2.mem p.frame_buffer a.below b.below;
}

-- The memory that a run ends with.
abbrev ended_mem : Machine → Run (Unit {0}) → Mem
ended_mem m (ok a m') = m'.mem
ended_mem m stuck = m.mem
ended_mem m (entered target m') = m'.mem

-- What a file of the screen's size, if it is the one that is shown, leaves in the frame buffer.
abbrev pub Shows : Platform → LocalFile → Machine → Type 0
Shows p e m =
    length e.contents ≡ frame_size
    → All (λ b. b < 2 ^ 8) e.contents
    → Holds m.mem p.frame_buffer e.contents

module _ (p : Platform) (copies : MemcpyCopies p) (l : Linked) (zipfs : ZipFs) (lo hi : ℕ)
    (some_heap : 0 < lo) (wanted : List ℕ) (name : IsName p.rounds wanted) (not_null : l.bg_raw ≢ 0)
    (low : hi ≤ p.frame_buffer) (small : p.frame_buffer < 2 ^ 64)
    (literal_low : l.bg_raw + length wanted < p.frame_buffer)
    (array_low : zipfs.files + 128 ≤ hi) where
  -- What the loop relies on, at a file.
  pub record Ready (k : ℕ) (es : List LocalFile) (m : Machine) : Type 0 where
    pub few : k + length es ≤ 16
    pub stands : IsCString m.mem l.bg_raw wanted
    pub entries : Entries zipfs.files lo hi m.mem k es
    pub searched : All (IsSearched p.rounds) es

  record Round (k : ℕ) (x : LocalFile) (es : List LocalFile) (m m1 : Machine) : Type 0 where
    ran :
        background_loop p l (suc (length es)) zipfs k m
        ≡ background_loop p l (length es) zipfs (k + 1) m1
    passed : Passed p m m1
    ready : Ready (k + 1) es m1
    other : x.name ≢ wanted → m1.mem ≡ m.mem
    shown : x.name ≡ wanted → Shows p x m1

  ready_behind :
      (k : ℕ) (x : LocalFile) (es : List LocalFile) (m m1 : Machine)
      → Ready k (x ∷ es) m
      → SameBelow m.mem m1.mem p.frame_buffer
      → Ready (k + 1) es m1
  ready_behind k x es m m1 r same = record {
    few = omega (arith, r.few);
    stands =
        IsCString-same m.mem m1.mem l.bg_raw wanted
          (λ a lo' hi'. same a (omega (arith, literal_low))) r.stands;
    entries =
        Entries-SameBelow zipfs.files lo hi m.mem m1.mem (k + 1) es (omega (arith, r.few)) array_low
          (SameBelow-le m.mem m1.mem p.frame_buffer hi low same) r.entries.1;
    searched = r.searched.1;
  }

  round :
      (k : ℕ) (x : LocalFile) (es : List LocalFile) (m : Machine)
      → Ready k (x ∷ es) m
      → (m1 : Machine) × Round k x es m m1
  unfolding background_loop
  round k x es m r =
      let (ptr, slot, w) = r.entries.0 in
      let c =
        compare_name p l zipfs lo hi some_heap (omega (arith, low, small)) m.mem k l.bg_raw ptr x
          wanted slot w r.searched.0 name r.stands not_null in
      let file = file_of m.mem zipfs k in
      let m1 = record m { trace = debug_msg "" (name_of m.mem file ∷ []) ∷ m.trace } in
      let m2 = record m1 { trace = debug_msg "found bg.raw!" [] ∷ m1.trace } in
      let m3 = framed p (data_of m.mem file) m2 in
      let same : SameBelow m.mem m3.mem p.frame_buffer =
        store_list-SameBelow m.mem p.frame_buffer
          (p.copied m.mem (data_of m.mem file) frame_size) in
      elim (Bool-cases c.result) [
        | inl found ↦ (
          m3,
          record {
            ran = rw (c.compared, found, set_frame_lem p (data_of m.mem file) m2) refl;
            passed = record { same = refl; below = same };
            ready = ready_behind k x es m m3 r same;
            other = λ ne. absurd (ne (c.decides.0 found));
            shown = λ e size bytes.
                framed-Holds p (data_of m.mem file) x.contents m2 copies c.opened.contents size
                  bytes;
          },
        )
        | inr apart ↦ (
          m1,
          record {
            ran = rw (c.compared, apart) refl;
            passed = record { same = refl; below = λ a lt. refl };
            ready = ready_behind k x es m m1 r (λ a lt. refl);
            other = λ ne. refl;
            shown = λ e. absurd (true≢false (sym (c.decides.1 e) ∙ apart));
          },
        )
      ]

  -- The loop ends, and changes nothing below the frame buffer.
  pub background_loop-Passed :
      (k : ℕ) (es : List LocalFile) (m : Machine)
      → Ready k es m
      → (m' : Machine) × (background_loop p l (length es) zipfs k m ≡ ok tt m') × Passed p m m'
  unfolding background_loop
  background_loop-Passed k [] m r = (m, refl, record { same = refl; below = λ a lt. refl })
  background_loop-Passed k (x ∷ es) m r =
      let (m1, step) = round k x es m r in
      let (m', ran, passed) = background_loop-Passed (k + 1) es m1 step.ready in
      (m', step.ran ∙ ran, Passed-trans p m m1 m' step.passed passed)

  -- Where no file has the name, memory stays as it is.
  background_loop-none :
      (k : ℕ) (es : List LocalFile) (m m' : Machine)
      → Ready k es m
      → All (λ x. x.name ≢ wanted) es
      → background_loop p l (length es) zipfs k m ≡ ok tt m'
      → m'.mem ≡ m.mem
  unfolding background_loop
  background_loop-none k [] m m' r others ran = ap (ended_mem m) (sym ran)
  background_loop-none k (x ∷ es) m m' r others ran =
      let (m1, step) = round k x es m r in
      background_loop-none (k + 1) es m1 m' step.ready others.1 (sym step.ran ∙ ran)
      ∙ step.other others.0

  -- The last file of the name is the one that the frame buffer holds at the end of the loop.
  pub background_loop-last :
      (k : ℕ) (before : List LocalFile) (e : LocalFile) (after : List LocalFile) (m m' : Machine)
      → Ready k (before ++ e ∷ after) m
      → e.name ≡ wanted
      → All (λ x. x.name ≢ wanted) after
      → background_loop p l (length (before ++ e ∷ after)) zipfs k m ≡ ok tt m'
      → Shows p e m'
  background_loop-last k [] e after m m' r this others ran size bytes =
      let (m1, step) = round k e after m r in
      let rest = sym step.ran ∙ ran in
      rw (background_loop-none (k + 1) after m1 m' step.ready others rest)
        (step.shown this size bytes)
  background_loop-last k (x ∷ before) e after m m' r this others ran size bytes =
      let (m1, step) = round k x (before ++ e ∷ after) m r in
      background_loop-last (k + 1) before e after m1 m' step.ready this others (sym step.ran ∙ ran)
        size bytes
