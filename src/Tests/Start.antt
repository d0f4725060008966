-- ===== src/Tests/Start.antt =====
-- The start of the kernel, on a small archive and a drive that is always ready.
use lappis.Ata.{IdeDev, ata_primary_io, ata_read}
use lappis.Ata.Drive.{ata_read_lem}
use lappis.Ata.Sector.{answers}
use lappis.Ata.Serving.{IsDrive, disk_bytes}
use lappis.Base.{
  List, [], ap, arith, bit, codes, if◌then◌else◌, length, length-replicate, none, refl, replicate,
  suc, zero, ℕ, ◌++◌, ◌==◌, ◌∷◌, ◌≡◌,
}
use lappis.Kernel.{Linked, get_cpu_vendor}
use lappis.Kernel.Cpu.{enable_features, enable_features_lem, feature_bit, get_cpu_vendor_lem}
use lappis.Machine.{Event, Machine, Mem, Platform, Returns, ok}
use lappis.Machine.Memory.{Holds, SameBelow, Written, store_list}
use lappis.Tests.{IsHeap-machine_with, machine, machine_with, platform}
use lappis.Tests.Program.{small_image}
use lappis.Zip.Archive.{Archive, LocalFile, encode, local_file}

abbrev linked : Linked
linked = record {
  cpuid = λ leaf. record { eax = 13; ebx = 0x756E6547; ecx = 0x6C65746E; edx = 0x49656E69 };
  get_cpuid = λ leaf. none;
  foo = λ n. n;
  bar = λ n. n;
  isr_stub_table = λ i. 0;
  bg_raw = 0x8000;
  userland_elf = 0x8010;
  end_of_execution_text = 0;
}

get_cpu_vendor_lem_example :
    Returns
      (λ vendor m'.
        (vendor ≡ 0x10000)
        × Holds m'.mem vendor (codes "GenuineIntel" ++ 0 ∷ [])
        × SameBelow machine.mem m'.mem 0x10000
        × (m'.heap_current ≡ 0x1000D))
      (get_cpu_vendor platform linked machine)
get_cpu_vendor_lem_example =
    get_cpu_vendor_lem platform linked machine (IsHeap-machine_with (λ a. 0)) (omega arith)

enable_features_lem_example :
    (cr4 : ℕ) × (t : List Event) × (enable_features machine
      ≡ ok tt (record machine { cr4 = cr4; trace = t }))
    × ((k : ℕ) → bit k cr4 ≡ feature_bit k (bit k 0))
enable_features_lem_example = enable_features_lem machine

-- A background of one byte, and a program.
abbrev background : LocalFile
background = record {
  fixed = replicate 14 0;
  compressed_size = 1;
  name = codes "bg.raw";
  extra = [];
  contents = 7 ∷ [];
}

abbrev program : LocalFile
program = record {
  fixed = replicate 14 0;
  compressed_size = 178;
  name = codes "userland.elf";
  extra = [];
  contents = small_image;
}

abbrev disk : Archive
disk = record {
  sections = local_file background ∷ local_file program ∷ [];
  end_record = record {
    disk_number = 0;
    start_disk = 0;
    entries_on_this_disk = 0;
    entries = 0;
    directory_size = 0;
    directory_offset = 0;
    comment = [];
  };
}

-- The archive at 64, and the two literals.
abbrev archive_mem : Mem
archive_mem = store_list (λ a. 0) 64 (encode disk)

abbrev first_literal : Mem
first_literal = store_list archive_mem 0x8000 (codes "bg.raw" ++ 0 ∷ [])

abbrev disk_machine : Machine
disk_machine = machine_with (store_list first_literal 0x8010 (codes "userland.elf" ++ 0 ∷ []))

-- A drive that is never busy, and whose every word is 0x4241.
abbrev ready : Platform
ready = record platform { device = λ h port. if port == 0x1F0 then 0x4241 else 0x58 }

abbrev primary : IdeDev
primary = record { bus = 0; drive = 0; io = ata_primary_io }

same_words : (n : ℕ) (h : List Event) → (answers ready n ata_primary_io h).0 ≡ replicate n 0x4241
unfolding answers
same_words zero h = refl
same_words (suc n) h = ap (λ ws. 0x4241 ∷ ws) (same_words n _)

primary-IsDrive : IsDrive ready primary (λ lba. replicate 256 0x4241)
primary-IsDrive = record {
  serves = λ r3 r4 r5 r6 h select. record {
    busy = 0;
    patience = omega arith;
    is_busy = λ i lt. absurd (omega (arith, lt));
    is_free = refl;
    no_error = refl;
    no_fault = refl;
    has_data = refl;
    answered = same_words 256 _;
  };
}

ata_read_lem_example :
    Returns
      (λ _ m'.
        Written machine.mem 0x20000 (disk_bytes (λ lba. replicate 256 0x4241) 5 2) m'.mem
        × (length (disk_bytes (λ lba. replicate 256 0x4241) 5 2) ≡ 1024)
        × (m'.heap_current ≡ 0x10000))
      (ata_read ready 0x20000 5 2 primary machine)
ata_read_lem_example =
    ata_read_lem ready 2 0x20000 5 primary (λ lba. replicate 256 0x4241) machine primary-IsDrive
      (λ a. length-replicate {A = ℕ} 256 0x4241) (omega arith) (omega arith)
