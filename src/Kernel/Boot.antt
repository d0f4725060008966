-- ===== src/Kernel/Boot.antt =====
-- From the archive to the program that it holds.
use lappis.Base.{All, List, codes, length, true, ℕ, ◌++◌, ◌+◌, ◌<◌, ◌^◌, ◌∷◌, ◌≡◌, ◌≢◌, ◌≤◌}
use lappis.Elf.Segments.{run_userland}
use lappis.Heap.Alloc.{IsHeap}
use lappis.Kernel.{Linked, fsbuf_size, start_files}
use lappis.Kernel.Background.{Shows}
use lappis.Kernel.Files.{IsSearched}
use lappis.Machine.{Machine, Platform, and_then, pure}
use lappis.Machine.Memory.{Holds, IsBytes}
use lappis.Strings.Length.{IsCString}
use lappis.Zip.Archive.{Archive, Fits, LocalFile, encode}
use lappis.Zip.Blocks.{fixed_bounds}
use lappis.Zip.Cursor.{ZipFs}
use lappis.Zip.Read.Loaded.{archive_cost, local_files, sections_cost}

abbrev pub bg_raw_name : List ℕ
bg_raw_name = codes "bg.raw"

abbrev pub userland_elf_name : List ℕ
userland_elf_name = codes "userland.elf"

-- A machine on which `start_files` finds an archive: it stands below the free part of the heap, as
-- the two literals do, the heap has room for what it holds, and lies below the frame buffer.
pub record IsBootable (p : Platform) (l : Linked) (a : Archive) (fsbuf : ℕ) (m : Machine)
    : Type 0 where
  pub fits : Fits a
  pub bytes : IsBytes m.mem
  pub heap : IsHeap m
  pub stands : Holds m.mem fsbuf (encode a)
  pub below : fsbuf + length (encode a) ≤ m.heap_current
  pub within : length (encode a) < fsbuf_size
  pub few : length (local_files a.sections) ≤ 16
  pub room :
      m.heap_current + 128 + sections_cost a.sections + length a.end_record.comment < m.heap_end
  pub rounds : length a.sections < p.rounds
  pub searched : All (IsSearched p.rounds) (local_files a.sections)
  pub long : 12 < p.rounds
  pub bg_raw : IsCString m.mem l.bg_raw bg_raw_name
  pub bg_raw_below : (0 < l.bg_raw) × (l.bg_raw + 6 < m.heap_current)
  pub userland_elf : IsCString m.mem l.userland_elf userland_elf_name
  pub userland_elf_below : (0 < l.userland_elf) × (l.userland_elf + 12 < m.heap_current)
  pub frame_above : m.heap_end ≤ p.frame_buffer
  pub frame_small : p.frame_buffer < 2 ^ 64

-- What `start_files` comes to: the program's bytes stand at `program` when it is run, and the frame
-- buffer holds the last background.
pub record Started (p : Platform) (l : Linked) (zipfs0 : ZipFs) (fsbuf : ℕ) (a : Archive)
    (e : LocalFile) (m : Machine) : Type 0 where
  pub then : Machine
  pub program : ℕ
  pub stands : Holds then.mem program e.contents
  pub placed : program + length e.contents ≤ then.heap_current
  pub spent : then.heap_current ≡ m.heap_current + 128 + archive_cost a.sections a.end_record
  pub same_end : then.heap_end ≡ m.heap_end
  pub bounds : fixed_bounds then ≡ fixed_bounds m
  pub ran :
      start_files p l zipfs0 fsbuf m
      ≡ and_then (run_userland p program (length e.contents) then) (λ _. pure true)
  pub shows :
      (before : List LocalFile) (b : LocalFile) (after : List LocalFile)
      → local_files a.sections ≡ before ++ b ∷ after
      → b.name ≡ bg_raw_name
      → All (λ x. x.name ≢ bg_raw_name) after
      → Shows p b then
