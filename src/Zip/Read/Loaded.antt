-- ===== src/Zip/Read/Loaded.antt =====
-- What the loop of `read_zip` leaves, section by section.
use lappis.Base.{
  All, List, Option, [], ap, arith, inl, inr, le_bytes, length, some, ℕ, ◌*◌, ◌++◌, ◌+◌, ◌<◌, ◌∙◌,
  ◌∷◌, ◌≡◌, ◌≤◌,
}
use lappis.Machine.{Machine, Mem}
use lappis.Machine.Memory.{All-left, All-right, Holds, Holds-same}
use lappis.Multiboot.Walk.{total}
use lappis.Zip.Archive.{
  EndRecord, LocalFile, Section, central, local_body, local_file, local_lengths, local_names,
  local_sizes,
}
use lappis.Zip.Blocks.{fixed_bounds}
use lappis.Zip.Discard.{Took, central_cost}
use lappis.Zip.LocalFile.Entry.{FileWithin, FileWithin-same, FileWithin-widen, IsByte}
use lappis.Zip.Read.Step.{LoadedOne, local_cost}

abbrev pub local_files : List Section → List LocalFile
local_files [] = []
local_files (local_file e ∷ ss) = e ∷ local_files ss
local_files (central e ∷ ss) = local_files ss

-- The bytes that the sections take of the heap.
abbrev pub sections_cost : List Section → ℕ
sections_cost [] = 0
sections_cost (local_file e ∷ ss) = local_cost e + sections_cost ss
sections_cost (central e ∷ ss) = central_cost e + sections_cost ss

-- The same with the comment of the end record.
abbrev pub archive_cost : List Section → EndRecord → ℕ
archive_cost [] e = length e.comment + 0
archive_cost (local_file x ∷ ss) e = local_cost x + archive_cost ss e
archive_cost (central x ∷ ss) e = central_cost x + archive_cost ss e

-- From slot `k` on, the pointers at `files` lead to the files in order.
abbrev pub Entries : ℕ → ℕ → ℕ → Mem → ℕ → List LocalFile → Type 0
Entries files lo hi m k [] = Unit
Entries files lo hi m k (e ∷ es) =
    ((ptr : ℕ) × Holds m (files + 8 * k) (le_bytes 8 ptr) × FileWithin lo hi m ptr e)
    × Entries files lo hi m (k + 1) es

-- What the loop leaves, from slot `k` on.
pub record Loaded (files k lo cost : ℕ) (es : List LocalFile) (m : Machine) (out : Option ℕ)
    (m' : Machine) : Type 0 where
  pub count : out ≡ some (k + length es)
  pub entries : Entries files lo m'.heap_current m'.mem k es
  pub grown : m.heap_current ≤ m'.heap_current
  pub blocks : (a : ℕ) → lo ≤ a → a < m.heap_current → m'.mem a ≡ m.mem a
  pub slots : (a : ℕ) → files ≤ a → a < files + 8 * k → m'.mem a ≡ m.mem a
  pub under : (a : ℕ) → a < files → m'.mem a ≡ m.mem a
  pub trace : m'.trace ≡ m.trace
  pub capped : m'.heap_current ≤ m.heap_end
  pub same_end : m'.heap_end ≡ m.heap_end
  pub spent : m'.heap_current ≡ m.heap_current + cost
  pub bounds : fixed_bounds m' ≡ fixed_bounds m

-- A directory section before the rest changes nothing below the heap.
pub Loaded-Took :
    (files k lo n cost total : ℕ) (es : List LocalFile) (m m1 : Machine) (out : Option ℕ)
    (m' : Machine)
    → files + 8 * k ≤ m.heap_current
    → Took n m m1
    → n + cost ≡ total
    → Loaded files k lo cost es m1 out m'
    → Loaded files k lo total es m out m'
Loaded-Took files k lo n cost total es m m1 out m' below took sum l = record {
  count = l.count;
  entries = l.entries;
  grown = omega (arith, took.current, l.grown);
  blocks = λ a ge lt. l.blocks a ge (omega (arith, took.current)) ∙ took.same a lt;
  slots = λ a ge lt. l.slots a ge lt ∙ took.same a (omega arith);
  under = λ a lt. l.under a lt ∙ took.same a (omega arith);
  trace = l.trace ∙ took.trace;
  capped = omega (arith, l.capped, took.same_end);
  same_end = l.same_end ∙ took.same_end;
  spent = omega (arith, l.spent, took.current, sum);
  bounds = l.bounds ∙ took.bounds;
}

-- A file before the rest.
pub Loaded-LoadedOne :
    (files k lo cost total : ℕ) (e : LocalFile) (es : List LocalFile) (m m1 : Machine)
    (out : Option ℕ) (m' : Machine)
    → files + 8 * k + 8 ≤ lo
    → lo ≤ m.heap_current
    → LoadedOne files k lo e m m1
    → local_cost e + cost ≡ total
    → Loaded files (k + 1) lo cost es m1 out m'
    → Loaded files k lo total (e ∷ es) m out m'
Loaded-LoadedOne files k lo cost total e es m m1 out m' room below one sum l = record {
  count = l.count ∙ ap some (omega arith);
  entries = (
    (
      m.heap_current,
      Holds-same m1.mem m'.mem (files + 8 * k) (le_bytes 8 m.heap_current)
          (λ a ge lt. l.slots a (omega arith) (omega arith)) one.slot,
      FileWithin-widen lo m1.heap_current m'.heap_current m'.mem m.heap_current e l.grown
          (FileWithin-same lo m1.heap_current m1.mem m'.mem m.heap_current e l.blocks one.file),
    ),
    l.entries,
  );
  grown = omega (arith, one.current, l.grown);
  blocks =
      λ a ge lt. l.blocks a ge (omega (arith, one.current)) ∙ one.same a lt (inr (omega arith));
  slots = λ a ge lt. l.slots a ge (omega arith) ∙ one.same a (omega arith) (inl lt);
  under = λ a lt. l.under a lt ∙ one.same a (omega arith) (inl (omega arith));
  trace = l.trace ∙ one.trace;
  capped = omega (arith, l.capped, one.same_end);
  same_end = l.same_end ∙ one.same_end;
  spent = omega (arith, l.spent, one.current, sum);
  bounds = l.bounds ∙ one.bounds;
}

pub local_bytes :
    (e : LocalFile) → All IsByte (local_body e) → All IsByte e.name × All IsByte e.contents
local_bytes e h =
    let sizes = All-right IsByte e.fixed (local_sizes e) h in
    let lengths =
      All-right IsByte (le_bytes 4 e.compressed_size ++ le_bytes 4 (length e.contents))
        (local_lengths e) sizes in
    let names =
      All-right IsByte (le_bytes 2 (length e.name) ++ le_bytes 2 (length e.extra)) (local_names e)
        lengths in
    (
      All-left IsByte e.name (e.extra ++ e.contents) names,
      All-right IsByte e.extra e.contents (All-right IsByte e.name (e.extra ++ e.contents) names),
    )
