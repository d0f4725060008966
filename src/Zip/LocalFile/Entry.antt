-- ===== src/Zip/LocalFile/Entry.antt =====
-- What `read_local_file` leaves in memory: the caller's `file_t`, and the blocks that it points at.
use mathlib.Core.Path.{subst}
use lappis.Base.{
  All, All-le_bytes, List, [], ap, arith, inl, inr, le_bytes, length, length-append, sym, ℕ, ◌++◌,
  ◌+◌, ◌<◌, ◌^◌, ◌∙◌, ◌∷◌, ◌≡◌, ◌≤◌, ◌⊎◌,
}
use lappis.Machine.{Machine, Mem}
use lappis.Machine.Memory.{
  All-append, Holds, Holds-same, Holds-store_list, store_list, store_list-SameBelow,
  store_list-above, store_list-append, store_list_one,
}
use lappis.Zip.Archive.{LocalFile}
use lappis.Zip.Blocks.{granted}
use lappis.Zip.LocalFile.{
  after_local, contents_at, end_at, file_bytes, name_at, with_contents, with_contents-SameBelow,
  with_extra, with_extra-SameBelow, with_name, with_name-SameBelow,
}

-- The number is a byte.
abbrev pub IsByte : ℕ → Type 0
IsByte b = b < 2 ^ 8

-- At `file` stands a `file_t` whose pointers lead to the file's name, terminated, and to its
-- contents, and whose size is theirs.
pub record FileAt (m : Mem) (file : ℕ) (e : LocalFile) : Type 0 where
  pub name_ptr : ℕ
  pub contents_ptr : ℕ
  pub struct : Holds m file (file_bytes name_ptr contents_ptr (length e.contents))
  pub name : Holds m name_ptr (e.name ++ 0 ∷ [])
  pub contents : Holds m contents_ptr e.contents

-- As `FileAt`, with everything between `lo` and `hi`.
pub record FileWithin (lo hi : ℕ) (m : Mem) (file : ℕ) (e : LocalFile) : Type 0 where
  pub at : FileAt m file e
  pub file_lo : lo ≤ file
  pub file_hi : file + 20 ≤ hi
  pub name_lo : lo ≤ at.name_ptr
  pub name_hi : at.name_ptr + length e.name + 1 ≤ hi
  pub contents_lo : lo ≤ at.contents_ptr
  pub contents_hi : at.contents_ptr + length e.contents ≤ hi

pub FileWithin-same :
    (lo hi : ℕ) (m m' : Mem) (file : ℕ) (e : LocalFile)
    → ((a : ℕ) → lo ≤ a → a < hi → m' a ≡ m a)
    → FileWithin lo hi m file e
    → FileWithin lo hi m' file e
FileWithin-same lo hi m m' file e same w = record {
  at = record {
    name_ptr = w.at.name_ptr;
    contents_ptr = w.at.contents_ptr;
    struct =
        Holds-same m m' file (file_bytes w.at.name_ptr w.at.contents_ptr (length e.contents))
          (λ a lo' hi'. same a (omega (arith, w.file_lo)) (omega (arith, w.file_hi))) w.at.struct;
    name =
        Holds-same m m' w.at.name_ptr (e.name ++ 0 ∷ [])
          (λ a lo' hi'.
            same a (omega (arith, w.name_lo))
              (omega (arith, w.name_hi, length-append e.name (0 ∷ []))))
          w.at.name;
    contents =
        Holds-same m m' w.at.contents_ptr e.contents
          (λ a lo' hi'. same a (omega (arith, w.contents_lo)) (omega (arith, w.contents_hi)))
          w.at.contents;
  };
  file_lo = w.file_lo;
  file_hi = w.file_hi;
  name_lo = w.name_lo;
  name_hi = w.name_hi;
  contents_lo = w.contents_lo;
  contents_hi = w.contents_hi;
}

pub FileWithin-widen :
    (lo hi hi' : ℕ) (m : Mem) (file : ℕ) (e : LocalFile)
    → hi ≤ hi'
    → FileWithin lo hi m file e
    → FileWithin lo hi' m file e
FileWithin-widen lo hi hi' m file e le w = record {
  at = w.at;
  file_lo = w.file_lo;
  file_hi = omega (arith, w.file_hi);
  name_lo = w.name_lo;
  name_hi = omega (arith, w.name_hi);
  contents_lo = w.contents_lo;
  contents_hi = omega (arith, w.contents_hi);
}

module _ (file : ℕ) (e : LocalFile) (m : Machine) (below : file + 24 ≤ m.heap_current)
    (name_bytes : All IsByte e.name) (contents_bytes : All IsByte e.contents) where
  abbrev struct : List ℕ
  struct = file_bytes (name_at m) (contents_at e m) (length e.contents)

  after_local-mem : (after_local file e m).mem ≡ store_list (with_contents e m).mem file struct
  unfolding after_local
  after_local-mem =
      let mem = (with_contents e m).mem in
      let tail = le_bytes 8 (contents_at e m) ++ le_bytes 4 (length e.contents) in
      let middle = store_list mem file (le_bytes 8 (name_at m)) in
      let at : file + 8 + 8 ≡ file + 16 = omega arith in
      sym (
        store_list-append mem file (le_bytes 8 (name_at m)) tail
        ∙ store_list-append middle (file + 8) (le_bytes 8 (contents_at e m))
            (le_bytes 4 (length e.contents))
        ∙ ap
            (λ q.
              store_list (store_list middle (file + 8) (le_bytes 8 (contents_at e m))) q
                (le_bytes 4 (length e.contents)))
            at)

  after_local-same :
      (a : ℕ)
      → (a < file) ⊎ (file + 24 ≤ a)
      → (after_local file e m).mem a ≡ (with_contents e m).mem a
  after_local-same a (inl lo) =
      rw after_local-mem (store_list-SameBelow (with_contents e m).mem file struct a lo)
  after_local-same a (inr hi) =
      rw after_local-mem (store_list-above (with_contents e m).mem file struct a (omega arith))

  -- The blocks below the new ones, but for the `file_t`, are as before.
  pub after_local-below :
      (a : ℕ)
      → a < m.heap_current
      → (a < file) ⊎ (file + 24 ≤ a)
      → (after_local file e m).mem a ≡ m.mem a
  after_local-below a lo apart =
      after_local-same a apart
      ∙ with_contents-SameBelow e m a (omega arith)
      ∙ with_extra-SameBelow e m a (omega arith)
      ∙ with_name-SameBelow e m a lo

  with_name-Holds : Holds (with_name e m).mem (name_at m) (e.name ++ 0 ∷ [])
  unfolding with_name
  with_name-Holds =
      let mem = (granted (length e.name + 1) m).mem in
      let one : store_list mem (name_at m) (e.name ++ 0 ∷ []) ≡ (with_name e m).mem =
        store_list-append mem (name_at m) e.name (0 ∷ [])
        ∙ store_list_one (store_list mem (name_at m) e.name) (name_at m + length e.name) 0 in
      subst (λ t. Holds t (name_at m) (e.name ++ 0 ∷ [])) one
        (Holds-store_list mem (name_at m) (e.name ++ 0 ∷ [])
          (All-append IsByte e.name (0 ∷ []) name_bytes (omega arith, tt)))

  with_contents-Holds : Holds (with_contents e m).mem (contents_at e m) e.contents
  unfolding with_contents with_extra with_name
  with_contents-Holds =
      Holds-store_list (granted (length e.contents) (with_extra e m)).mem (contents_at e m)
        e.contents contents_bytes

  pub after_local-FileWithin :
      (lo : ℕ) → lo ≤ file → FileWithin lo (end_at e m) (after_local file e m).mem file e
  after_local-FileWithin lo le = record {
    at = record {
      name_ptr = name_at m;
      contents_ptr = contents_at e m;
      struct =
          subst (λ t. Holds t file struct) (sym after_local-mem)
            (Holds-store_list (with_contents e m).mem file struct (
              All-append IsByte (le_bytes 8 (name_at m))
                (le_bytes 8 (contents_at e m) ++ le_bytes 4 (length e.contents))
                (All-le_bytes 8 (name_at m))
                (All-append IsByte (le_bytes 8 (contents_at e m)) (le_bytes 4 (length e.contents))
                  (All-le_bytes 8 (contents_at e m)) (All-le_bytes 4 (length e.contents)))));
      name =
          Holds-same (with_name e m).mem (after_local file e m).mem (name_at m) (e.name ++ 0 ∷ [])
            (λ a lo' hi'.
              let short = length-append e.name (0 ∷ []) in
              after_local-same a (inr (omega arith))
              ∙ with_contents-SameBelow e m a (omega arith)
              ∙ with_extra-SameBelow e m a (omega arith))
            with_name-Holds;
      contents =
          Holds-same (with_contents e m).mem (after_local file e m).mem (contents_at e m) e.contents
            (λ a lo' hi'. after_local-same a (inr (omega arith))) with_contents-Holds;
    };
    file_lo = le;
    file_hi = omega arith;
    name_lo = omega arith;
    name_hi = omega arith;
    contents_lo = omega arith;
    contents_hi = omega arith;
  }
