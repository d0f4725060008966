-- ===== src/Tests/Program.antt =====
-- A program of two bytes, whose file has a note and a segment that is loaded and entered.
use lappis.Base.{List, [], arith, refl, ℕ, ◌++◌, ◌<◌, ◌^◌, ◌∷◌}
use lappis.Elf.Header.{Ehdr}
use lappis.Elf.Ident.{encode_ehdr}
use lappis.Elf.Segments.{run_userland}
use lappis.Elf.Segments.Enter.{EntersAt}
use lappis.Elf.Segments.Phdr.{Phdr, PhdrFits, encode_phdr}
use lappis.Elf.Segments.Program.{IsLoaded, run_userland_lem}
use lappis.Elf.Segments.Ready.{File, FileFits, encode_phdrs}
use lappis.Machine.{Machine}
use lappis.Machine.Memory.{Holds, Holds-append, Holds-store_list, store_list}
use lappis.Tests.{IsHeap-machine_with, machine_with, platform, platform-MemcpyCopies}

abbrev pub small_ehdr : Ehdr
small_ehdr = record {
  e_type = 2;
  e_machine = 62;
  e_version = 1;
  e_entry = 0x1001;
  e_phoff = 64;
  e_shoff = 0;
  e_flags = 0;
  e_ehsize = 64;
  e_phentsize = 56;
  e_phnum = 2;
  e_shentsize = 64;
  e_shnum = 1;
  e_shstrndx = 0;
}

abbrev pub note_phdr : Phdr
note_phdr = record {
  p_type = 4;
  p_flags = 4;
  p_offset = 0;
  p_vaddr = 0;
  p_paddr = 0;
  p_filesz = 0;
  p_memsz = 0;
  p_align = 4;
}

abbrev pub load_phdr : Phdr
load_phdr = record {
  p_type = 1;
  p_flags = 5;
  p_offset = 176;
  p_vaddr = 0x1000;
  p_paddr = 0x1000;
  p_filesz = 2;
  p_memsz = 2;
  p_align = 4096;
}

abbrev pub small_file : File
small_file = record {
  ident = record {
    endianess = 1;
    elf_version = 1;
    os_abi = 0;
    abi_version = 0;
    padding = 0 ∷ 0 ∷ 0 ∷ 0 ∷ 0 ∷ 0 ∷ 0 ∷ [];
  };
  header = small_ehdr;
  others = note_phdr ∷ [];
  loaded = load_phdr;
  bytes = 0x90 ∷ 0xF4 ∷ [];
}

abbrev pub small_phdrs : List ℕ
small_phdrs = encode_phdrs small_file.others ++ encode_phdr load_phdr

abbrev pub small_image : List ℕ
small_image = encode_ehdr small_file.ident small_ehdr ++ (small_phdrs ++ small_file.bytes)

abbrev program_machine : Machine
program_machine = machine_with (store_list (λ a. 0) 0x100 small_image)

image_stands : Holds program_machine.mem 0x100 small_image
image_stands = Holds-store_list (λ a. 0) 0x100 small_image (omega arith)

phdr_fits :
    (h : Phdr)
    → h.p_type < 2 ^ 32
    → h.p_flags < 2 ^ 32
    → h.p_offset < 2 ^ 32
    → h.p_vaddr < 2 ^ 32
    → h.p_paddr < 2 ^ 32
    → h.p_filesz < 2 ^ 32
    → h.p_memsz < 2 ^ 32
    → h.p_align < 2 ^ 32
    → PhdrFits h
phdr_fits h a b c d e f g i = record {
  type_fits = a;
  flags_fits = b;
  offset_fits = omega (arith, c);
  vaddr_fits = omega (arith, d);
  paddr_fits = omega (arith, e);
  filesz_fits = omega (arith, f);
  memsz_fits = omega (arith, g);
  align_fits = omega (arith, i);
}

pub small_file-FileFits : FileFits small_file
small_file-FileFits = record {
  padded = refl;
  header_fits = record {
    e_type_fits = omega arith;
    e_machine_fits = omega arith;
    e_version_fits = omega arith;
    e_entry_fits = omega arith;
    e_phoff_fits = omega arith;
    e_shoff_fits = omega arith;
    e_flags_fits = omega arith;
    e_ehsize_fits = omega arith;
    e_phentsize_fits = omega arith;
    e_phnum_fits = omega arith;
    e_shentsize_fits = omega arith;
    e_shnum_fits = omega arith;
    e_shstrndx_fits = omega arith;
  };
  others_fit = (
    phdr_fits note_phdr (omega arith) (omega arith) (omega arith) (omega arith) (omega arith)
        (omega arith) (omega arith) (omega arith),
    tt,
  );
  loaded_fits =
      phdr_fits load_phdr (omega arith) (omega arith) (omega arith) (omega arith) (omega arith)
        (omega arith) (omega arith) (omega arith);
  others_skipped = (omega arith, tt);
  loaded_type = refl;
  size = refl;
  bytes_small = omega arith;
  counted = omega arith;
  entry_behind = omega arith;
}

small_file-IsLoaded : IsLoaded small_file 0x100 program_machine
small_file-IsLoaded =
    let (ehdr, rest) =
      Holds-append program_machine.mem 0x100 (encode_ehdr small_file.ident small_ehdr)
        (small_phdrs ++ small_file.bytes) image_stands in
    let (headers, segment) =
      Holds-append program_machine.mem 0x140 small_phdrs small_file.bytes rest in
    record {
      ehdr = ehdr;
      phdrs = headers;
      segment = segment;
      ehdr_below = omega arith;
      phdrs_below = omega arith;
      segment_below = omega arith;
      heap = IsHeap-machine_with program_machine.mem;
      userland = record {
        not_null = omega arith;
        started = omega arith;
        below_end = omega arith;
        addressable = omega arith;
      };
      room = omega arith;
      userland_room = omega arith;
      above = omega arith;
      entry_small = omega arith;
    }

run_userland_lem_example :
    EntersAt 0x20000 0x20001 (0x90 ∷ 0xF4 ∷ []) (run_userland platform 0x100 178 program_machine)
run_userland_lem_example =
    run_userland_lem platform small_file 0x100 178 program_machine platform-MemcpyCopies
      small_file-FileFits small_file-IsLoaded (omega arith) (omega arith)
