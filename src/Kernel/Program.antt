-- ===== src/Kernel/Program.antt =====
-- The loop that looks for the program, of src/kernel/kernel.c.
use lappis.Base.{
  All, List, [], false, length, refl, true, ℕ, ◌++◌, ◌+◌, ◌<◌, ◌^◌, ◌∷◌, ◌≡◌, ◌≢◌, ◌≤◌,
}
use lappis.Elf.Segments.{run_userland}
use lappis.Kernel.{Linked, data_of, file_of, name_of, program_loop}
use lappis.Kernel.Files.{IsName, IsSearched, compare_name, not_the_name}
use lappis.Machine.{Event, Machine, Platform, debug_msg}
use lappis.Machine.Memory.{Holds}
use lappis.Strings.Length.{IsCString}
use lappis.Zip.Archive.{LocalFile}
use lappis.Zip.Cursor.{ZipFs}
use lappis.Zip.Read.Loaded.{Entries}

module _ (p : Platform) (l : Linked) (zipfs : ZipFs) (lo hi : ℕ) (some_heap : 0 < lo)
    (addressable : hi < 2 ^ 64) (wanted : List ℕ) (name : IsName p.rounds wanted)
    (not_null : l.userland_elf ≢ 0) where
  -- The first file of the name is the one whose contents are run.
  pub program_loop_lem :
      (k : ℕ) (before : List LocalFile) (e : LocalFile) (after : List LocalFile) (m : Machine)
      → IsCString m.mem l.userland_elf wanted
      → Entries zipfs.files lo hi m.mem k (before ++ e ∷ after)
      → All (IsSearched p.rounds) (before ++ e ∷ after)
      → All (λ x. x.name ≢ wanted) before
      → e.name ≡ wanted
      → (program : ℕ) × (t : List Event) × Holds m.mem program e.contents
        × (program + length e.contents ≤ hi)
        × (program_loop p l (length (before ++ e ∷ after)) zipfs k m
            ≡ run_userland p program (length e.contents) (record m { trace = t }))
  unfolding program_loop
  program_loop_lem k [] e after m stands entries searched others this =
      let (ptr, slot, w) = entries.0 in
      let c =
        compare_name p l zipfs lo hi some_heap addressable m.mem k l.userland_elf ptr e wanted slot
          w searched.0 name stands not_null in
      let program = data_of m.mem (file_of m.mem zipfs k) in
      let found : c.result ≡ true = c.decides.1 this in
      let size = c.opened.size in
      let t =
        debug_msg "found userland.elf: %d" (length e.contents ∷ [])
        ∷ debug_msg "" (name_of m.mem (file_of m.mem zipfs k) ∷ [])
        ∷ m.trace in
      (program, t, c.opened.contents, c.opened.contents_hi, rw (c.compared, found, size) refl)
  program_loop_lem k (x ∷ before) e after m stands entries searched others this =
      let (ptr, slot, w) = entries.0 in
      let c =
        compare_name p l zipfs lo hi some_heap addressable m.mem k l.userland_elf ptr x wanted slot
          w searched.0 name stands not_null in
      let other : c.result ≡ false =
        not_the_name p l zipfs lo hi some_heap addressable m.mem k l.userland_elf x wanted c
          others.0 in
      let m1 = record m {
        trace = debug_msg "" (name_of m.mem (file_of m.mem zipfs k) ∷ []) ∷ m.trace;
      } in
      let (program, t, held, high, ran) =
        program_loop_lem (k + 1) before e after m1 stands entries.1 searched.1 others.1 this in
      (program, t, held, high, rw (c.compared, other) ran)
