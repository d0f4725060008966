-- ===== src/Elf/Fields.antt =====
-- The fields that `run_userland` reads again, from the block that `header_fields` has filled.
use lappis.Base.{All, List, arith, le_bytes, length, ℕ, ◌++◌, ◌+◌, ◌<◌, ◌^◌, ◌≡◌, ◌≤◌}
use lappis.Elf.{e_entry_at, e_phnum_at, e_phoff_at, e_shnum_at, e_shoff_at, header_fields}
use lappis.Elf.Header.{
  Ehdr, FieldsFit, encode_fields, from_ehsize, from_entry, from_flags, from_machine, from_phentsize,
  from_phnum, from_phoff, from_shentsize, from_shnum, from_shoff, from_shstrndx, from_version,
  header_fields_lem,
}
use lappis.Elf.Numbers.{load_lem}
use lappis.Heap.Userland.{MemcpyCopies}
use lappis.Machine.{Machine, Mem, Platform, Returns, Returns-mono}
use lappis.Machine.Memory.{Holds, Holds-append, Holds-store_list, load, store_list}
use lappis.Zip.Bytes.{At}

pub Holds-drop :
    (m : Mem) (p k : ℕ) (xs ys : List ℕ) → Holds m p (xs ++ ys) → k ≡ p + length xs → Holds m k ys
Holds-drop m p k xs ys h e = rw e ((Holds-append m p xs ys h).1)

pub Holds-front : (m : Mem) (p : ℕ) (xs ys : List ℕ) → Holds m p (xs ++ ys) → Holds m p xs
Holds-front m p xs ys h = (Holds-append m p xs ys h).0

pub encoded_bytes : (e : Ehdr) → All (λ b. b < 2 ^ 8) (encode_fields e)
encoded_bytes e = omega arith

-- What the loader reads of a header.
pub record FieldsAt (mem : Mem) (header : ℕ) (e : Ehdr) : Type 0 where
  pub entry : load mem (header + e_entry_at) 8 ≡ e.e_entry
  pub phoff : load mem (header + e_phoff_at) 8 ≡ e.e_phoff
  pub shoff : load mem (header + e_shoff_at) 8 ≡ e.e_shoff
  pub phnum : load mem (header + e_phnum_at) 2 ≡ e.e_phnum
  pub shnum : load mem (header + e_shnum_at) 2 ≡ e.e_shnum

pub FieldsAt-Holds :
    (mem : Mem) (header : ℕ) (e : Ehdr)
    → FieldsFit e
    → Holds mem (header + 16) (encode_fields e)
    → FieldsAt mem header e
FieldsAt-Holds mem header e fits h16 =
    let h18 =
      Holds-drop mem (header + 16) (header + 18) (le_bytes 2 e.e_type) (from_machine e) h16
        (omega arith) in
    let h20 =
      Holds-drop mem (header + 18) (header + 20) (le_bytes 2 e.e_machine) (from_version e) h18
        (omega arith) in
    let h24 =
      Holds-drop mem (header + 20) (header + 24) (le_bytes 4 e.e_version) (from_entry e) h20
        (omega arith) in
    let h32 =
      Holds-drop mem (header + 24) (header + 32) (le_bytes 8 e.e_entry) (from_phoff e) h24
        (omega arith) in
    let h40 =
      Holds-drop mem (header + 32) (header + 40) (le_bytes 8 e.e_phoff) (from_shoff e) h32
        (omega arith) in
    let h48 =
      Holds-drop mem (header + 40) (header + 48) (le_bytes 8 e.e_shoff) (from_flags e) h40
        (omega arith) in
    let h52 =
      Holds-drop mem (header + 48) (header + 52) (le_bytes 4 e.e_flags) (from_ehsize e) h48
        (omega arith) in
    let h54 =
      Holds-drop mem (header + 52) (header + 54) (le_bytes 2 e.e_ehsize) (from_phentsize e) h52
        (omega arith) in
    let h56 =
      Holds-drop mem (header + 54) (header + 56) (le_bytes 2 e.e_phentsize) (from_phnum e) h54
        (omega arith) in
    let h58 =
      Holds-drop mem (header + 56) (header + 58) (le_bytes 2 e.e_phnum) (from_shentsize e) h56
        (omega arith) in
    let h60 =
      Holds-drop mem (header + 58) (header + 60) (le_bytes 2 e.e_shentsize) (from_shnum e) h58
        (omega arith) in
    record {
      entry =
          load_lem mem (header + 24) 8 e.e_entry
            (Holds-front mem (header + 24) (le_bytes 8 e.e_entry) (from_phoff e) h24)
            (omega (arith, fits.e_entry_fits));
      phoff =
          load_lem mem (header + 32) 8 e.e_phoff
            (Holds-front mem (header + 32) (le_bytes 8 e.e_phoff) (from_shoff e) h32)
            (omega (arith, fits.e_phoff_fits));
      shoff =
          load_lem mem (header + 40) 8 e.e_shoff
            (Holds-front mem (header + 40) (le_bytes 8 e.e_shoff) (from_flags e) h40)
            (omega (arith, fits.e_shoff_fits));
      phnum =
          load_lem mem (header + 56) 2 e.e_phnum
            (Holds-front mem (header + 56) (le_bytes 2 e.e_phnum) (from_shentsize e) h56)
            (omega (arith, fits.e_phnum_fits));
      shnum =
          load_lem mem (header + 60) 2 e.e_shnum
            (Holds-front mem (header + 60) (le_bytes 2 e.e_shnum) (from_shstrndx e) h60)
            (omega (arith, fits.e_shnum_fits));
    }

-- For a file below the header's block, `header_fields` returns, and the entry point, the offsets
-- and the numbers of the program and section headers that `run_userland` then reads from the block
-- are those that were written in the file. Every field fits its width, and memcpy copies.
pub header_fields-FieldsAt :
    (p : Platform) (buf cur header : ℕ) (e : Ehdr) (m : Machine)
    → MemcpyCopies p
    → FieldsFit e
    → At m.mem buf cur (encode_fields e)
    → buf + cur + 48 ≤ header
    → cur + 48 < 2 ^ 64
    → Returns (λ _ m'. FieldsAt m'.mem header e) (header_fields p buf cur header m)
header_fields-FieldsAt p buf cur header e m laws fits h below small =
    Returns-mono (header_fields_lem p buf cur header e m laws fits h below small)
      λ _ m' (at, copied, same). rw copied (
        FieldsAt-Holds (store_list m.mem (header + 16) (encode_fields e)) header e fits
          (Holds-store_list m.mem (header + 16) (encode_fields e) (encoded_bytes e)))
