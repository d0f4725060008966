-- ===== src/Tests/Archives.antt =====
-- A small archive: a file `a` with two bytes, its directory entry, and the end record.
use lappis.Base.{All, [], arith, refl, replicate, ◌<◌, ◌^◌, ◌∷◌, ◌≡◌}
use lappis.Machine.{Machine, Returns, ok}
use lappis.Machine.Memory.{Holds, Holds-store_list, IsBytes-store_list, store_list}
use lappis.Tests.{IsHeap-machine_with, machine_with, platform, platform-MemcpyCopies}
use lappis.Zip.{peek_zip, read_zip}
use lappis.Zip.Archive.{Archive, CentralEntry, Fits, LocalFile, central, encode, local_file}
use lappis.Zip.Peek.{peek_zip_lem}
use lappis.Zip.Read.Files.{FilesRead, read_zip_lem}

abbrev file_a : LocalFile
file_a = record {
  fixed = replicate 14 0;
  compressed_size = 2;
  name = b'a' ∷ [];
  extra = [];
  contents = 1 ∷ 2 ∷ [];
}

abbrev entry_a : CentralEntry
entry_a = record {
  fixed = replicate 16 0;
  compressed_size = 2;
  uncompressed_size = 2;
  disk_number_start = 0;
  internal_attributes = 0;
  external_attributes = 0;
  header_offset = 0;
  name = b'a' ∷ [];
  extra = [];
  comment = [];
}

abbrev archive : Archive
archive = record {
  sections = local_file file_a ∷ central entry_a ∷ [];
  end_record = record {
    disk_number = 0;
    start_disk = 0;
    entries_on_this_disk = 1;
    entries = 1;
    directory_size = 47;
    directory_offset = 33;
    comment = [];
  };
}

archive-Fits : Fits archive
archive-Fits = record {
  sections = (
    record { fixed = refl; name = omega arith; extra = omega arith; contents = omega arith },
    (record { fixed = refl; name = omega arith; extra = omega arith; comment = omega arith }, tt),
  );
  comment = omega arith;
}

-- The archive at 64.
abbrev loaded_archive : Machine
loaded_archive = machine_with (store_list (λ a. 0) 64 (encode archive))

small_bytes : All (λ b. b < 2 ^ 8) (encode archive)
small_bytes = omega arith

archive-Holds : Holds loaded_archive.mem 64 (encode archive)
archive-Holds = Holds-store_list (λ a. 0) 64 (encode archive) small_bytes

peek_zip_lem_example : peek_zip platform 64 loaded_archive ≡ ok 102 loaded_archive
peek_zip_lem_example =
    peek_zip_lem platform archive 64 loaded_archive platform-MemcpyCopies archive-Fits archive-Holds
      (omega arith) (omega arith)

read_zip_lem_example :
    Returns
      (FilesRead archive loaded_archive)
      (read_zip platform 64 102 (record { files = 0; num_files = 0 }) loaded_archive)
read_zip_lem_example =
    read_zip_lem platform archive 64 (record { files = 0; num_files = 0 }) loaded_archive
      platform-MemcpyCopies archive-Fits
      (IsBytes-store_list (λ a. 0) 64 (encode archive) (λ a. omega arith))
      (IsHeap-machine_with loaded_archive.mem) archive-Holds (omega arith) (omega arith)
      (omega arith) (omega arith)
