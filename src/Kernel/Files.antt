-- ===== src/Kernel/Files.antt =====
-- The search for a file by name.
use mathlib.Core.Path.{subst}
use lappis.Base.{
  All, Bool, Bool-cases, List, [], arith, false, inl, inr, le_bytes, length, some, true, ℕ, ◌*◌,
  ◌++◌, ◌+◌, ◌<◌, ◌^◌, ◌↔◌, ◌∷◌, ◌≡◌, ◌≢◌, ◌≤◌,
}
use lappis.Elf.Numbers.{load_lem}
use lappis.Kernel.{Linked, data_of, file_of, name_of, size_of}
use lappis.Keyboard.Buffer.{contents}
use lappis.Machine.{Mem, Platform}
use lappis.Machine.Memory.{Holds, Holds-append, Holds-same, SameBelow, load}
use lappis.Strings.{streq}
use lappis.Strings.Equal.{streq_lem}
use lappis.Strings.Length.{IsCString, IsChar}
use lappis.Zip.Archive.{LocalFile}
use lappis.Zip.Cursor.{ZipFs}
use lappis.Zip.LocalFile.Entry.{FileWithin, FileWithin-same}
use lappis.Zip.Read.Loaded.{Entries}

-- No byte of the name ends it, and its length is an int.
pub record IsName (rounds : ℕ) (name : List ℕ) : Type 0 where
  pub chars : All IsChar name
  pub short : length name < rounds
  pub small : length name < 2 ^ 31

IsCString-of_Holds :
    (m : Mem) (s : ℕ) (cs : List ℕ) → All IsChar cs → Holds m s (cs ++ 0 ∷ []) → IsCString m s cs
IsCString-of_Holds m s [] chars h = h.0
IsCString-of_Holds m s (c ∷ cs) chars h =
    (h.0, chars.0.0, IsCString-of_Holds m (s + 1) cs chars.1 h.1)

-- What the three fields of a `file_t` hold.
pub record Opened (mem : Mem) (ptr lo hi : ℕ) (e : LocalFile) : Type 0 where
  pub name : Holds mem (name_of mem ptr) (e.name ++ 0 ∷ [])
  pub some_name : lo ≤ name_of mem ptr
  pub contents : Holds mem (data_of mem ptr) e.contents
  pub size : size_of mem ptr ≡ length e.contents
  pub contents_hi : data_of mem ptr + length e.contents ≤ hi

file_fields :
    (lo hi : ℕ) (mem : Mem) (ptr : ℕ) (e : LocalFile)
    → FileWithin lo hi mem ptr e
    → hi < 2 ^ 64
    → length e.contents < 2 ^ 32
    → Opened mem ptr lo hi e
file_fields lo hi mem ptr e w small fits =
    let (name, rest) =
      Holds-append mem ptr (le_bytes 8 w.at.name_ptr)
        (le_bytes 8 w.at.contents_ptr ++ le_bytes 4 (length e.contents)) w.at.struct in
    let (contents, size) =
      Holds-append mem (ptr + 8) (le_bytes 8 w.at.contents_ptr) (le_bytes 4 (length e.contents))
        rest in
    let at16 : ptr + 8 + 8 ≡ ptr + 16 = omega arith in
    let name_is : load mem ptr 8 ≡ w.at.name_ptr =
      load_lem mem ptr 8 w.at.name_ptr name (omega (arith, w.name_hi)) in
    let contents_is : load mem (ptr + 8) 8 ≡ w.at.contents_ptr =
      load_lem mem (ptr + 8) 8 w.at.contents_ptr contents (omega (arith, w.contents_hi)) in
    record {
      name = rw name_is w.at.name;
      some_name = omega (arith, name_is, w.name_lo);
      contents = rw contents_is w.at.contents;
      contents_hi = rw contents_is w.contents_hi;
      size =
          load_lem mem (ptr + 16) 4 (length e.contents)
            (subst (λ q. Holds mem q (le_bytes 4 (length e.contents))) at16 size)
            (omega (arith, fits));
    }

-- A file whose name can be compared.
abbrev pub IsSearched : ℕ → LocalFile → Type 0
IsSearched rounds e = IsName rounds e.name × (length e.contents < 2 ^ 32)

module _ (p : Platform) (l : Linked) (zipfs : ZipFs) (lo hi : ℕ) (some_heap : 0 < lo)
    (addressable : hi < 2 ^ 64) where
  -- The file at an index, with its name compared to a literal.
  pub record Compared (mem : Mem) (k literal : ℕ) (e : LocalFile) (wanted : List ℕ) : Type 0 where
    pub opened : Opened mem (file_of mem zipfs k) lo hi e
    pub result : Bool
    pub compared : streq p.rounds mem (name_of mem (file_of mem zipfs k)) literal ≡ some result
    pub decides : (result ≡ true) ↔ (e.name ≡ wanted)

  pub compare_name :
      (mem : Mem) (k literal ptr : ℕ) (e : LocalFile) (wanted : List ℕ)
      → Holds mem (zipfs.files + 8 * k) (le_bytes 8 ptr)
      → FileWithin lo hi mem ptr e
      → IsSearched p.rounds e
      → IsName p.rounds wanted
      → IsCString mem literal wanted
      → literal ≢ 0
      → Compared mem k literal e wanted
  compare_name mem k literal ptr e wanted slot w searched name stands not_null =
      let at : file_of mem zipfs k ≡ ptr =
        load_lem mem (zipfs.files + 8 * k) 8 ptr slot (omega (arith, w.file_hi, addressable)) in
      let opened = file_fields lo hi mem ptr e w addressable searched.1 in
      let here = IsCString-of_Holds mem (name_of mem ptr) e.name searched.0.chars opened.name in
      let (result, compared, decides) =
        streq_lem p.rounds mem (name_of mem ptr) literal e.name wanted here stands
          (omega (arith, opened.some_name, some_heap), not_null) (searched.0.short, name.short)
          (searched.0.small, name.small) in
      record {
        opened = rw at opened;
        result = result;
        compared = rw at compared;
        decides = decides;
      }

  pub not_the_name :
      (mem : Mem) (k literal : ℕ) (e : LocalFile) (wanted : List ℕ)
      (c : Compared mem k literal e wanted)
      → e.name ≢ wanted
      → c.result ≡ false
  not_the_name mem k literal e wanted c other = elim (Bool-cases c.result) [
    | inl same ↦ absurd (other (c.decides.0 same))
    | inr apart ↦ apart
  ]

-- The array and the files stay where memory below them stays.
pub Entries-SameBelow :
    (files lo hi : ℕ) (m m' : Mem) (k : ℕ) (es : List LocalFile)
    → k + length es ≤ 16
    → files + 128 ≤ hi
    → SameBelow m m' hi
    → Entries files lo hi m k es
    → Entries files lo hi m' k es
Entries-SameBelow files lo hi m m' k [] few low same entries = tt
Entries-SameBelow files lo hi m m' k (e ∷ es) few low same entries =
    let (ptr, slot, w) = entries.0 in
    (
      (
        ptr,
        Holds-same m m' (files + 8 * k) (le_bytes 8 ptr)
            (λ a lo' hi'. same a (omega (arith, hi', few, low))) slot,
        FileWithin-same lo hi m m' ptr e (λ a lo' hi'. same a hi') w,
      ),
      Entries-SameBelow files lo hi m m' (k + 1) es (omega (arith, few)) low same entries.1,
    )
