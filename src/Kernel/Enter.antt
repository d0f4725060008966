-- ===== src/Kernel/Enter.antt =====
-- From the archive to the program's entry: `start_files` with `run_userland` of src/kernel/elf2.c.
use lappis.Base.{List, length, ℕ, ◌*◌, ◌++◌, ◌+◌, ◌<◌, ◌^◌, ◌≡◌, ◌≤◌}
use lappis.Elf.Ident.{encode_ehdr}
use lappis.Elf.Segments.Phdr.{encode_phdr}
use lappis.Elf.Segments.Ready.{File, encode_phdrs}
use lappis.Heap.Userland.{IsUserlandHeap}
use lappis.Machine.{Machine}
use lappis.Zip.Archive.{Archive}
use lappis.Zip.Read.Loaded.{archive_cost}

-- The bytes stand in a file at an offset.
pub record StandsAt (file : List ℕ) (offset : ℕ) (bytes : List ℕ) : Type 0 where
  pub before : List ℕ
  pub after : List ℕ
  pub split : file ≡ before ++ (bytes ++ after)
  pub offset_is : length before ≡ offset

-- The headers and the segment of the program where the file's header says.
pub record IsImage (x : File) (image : List ℕ) : Type 0 where
  pub ehdr : StandsAt image 0 (encode_ehdr x.ident x.header)
  pub phdrs : StandsAt image x.header.e_phoff (encode_phdrs x.others ++ encode_phdr x.loaded)
  pub segment : StandsAt image x.loaded.p_offset x.bytes

-- Both heaps have room for the program, behind what the files of the archive take.
pub record HasRoom (a : Archive) (x : File) (m : Machine) : Type 0 where
  pub userland : IsUserlandHeap m
  pub room :
      m.heap_current
        + 128
        + archive_cost a.sections a.end_record
        + 80
        + 64 * x.header.e_shnum
        + 64 * length x.others
        + 64
        + length x.bytes
      < m.heap_end
  pub userland_room : m.userland_heap_current + length x.bytes < m.userland_heap_end
  pub above : m.heap_end ≤ m.userland_heap_current
  pub entry_small : m.userland_heap_current + x.header.e_entry < 2 ^ 64
