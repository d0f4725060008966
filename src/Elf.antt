-- ===== src/Elf.antt =====
-- src/kernel/elf2.c: the header of the userland program. The structs of src/kernel/elf.h stand in
-- memory, field by field, in their 64-bit layout.
pub mod Segments
pub mod Numbers
pub mod Copy
pub mod Header
pub mod Fields
pub mod Ident
use lappis.Base.{
  Bool, List, String, [], bit_or, false, get_or, if◌then◌else◌, le_bytes, suc, true, zero, ℕ, ◌!=◌,
  ◌%◌, ◌&&◌, ◌*◌, ◌+◌, ◌==◌, ◌^◌, ◌∷◌,
}
use lappis.Heap.{malloc, null}
use lappis.Machine.{Cmd, Mem, Platform, and_then, debug, get_mem, pure, put_mem, skip, ◌>>=◌, ◌>>◌}
use lappis.Machine.Memory.{store, store_list}
use lappis.Zip.Archive.{magic_bytes}
use lappis.Zip.Cursor.{read_local, read_uint16, read_uint32, read_uint8, skip_bytes}

abbrev pub ei_nident : ℕ
ei_nident = 16

abbrev pub elfclass64 : ℕ
elfclass64 = 2

-- `ELFMAG`
abbrev pub elfmag : List ℕ
elfmag = 0x7f ∷ b'E' ∷ b'L' ∷ b'F' ∷ []

-- Where the fields of `Elf64_Ehdr` stand, that are read again.
abbrev pub e_entry_at : ℕ
e_entry_at = 24

abbrev pub e_phoff_at : ℕ
e_phoff_at = 32

abbrev pub e_shoff_at : ℕ
e_shoff_at = 40

abbrev pub e_phnum_at : ℕ
e_phnum_at = 56

abbrev pub e_shnum_at : ℕ
e_shnum_at = 60

-- `sizeof(Elf64_Ehdr)` and `sizeof(Elf64_Shdr)`.
abbrev pub sizeof_ehdr : ℕ
sizeof_ehdr = 64

abbrev pub sizeof_shdr : ℕ
sizeof_shdr = 64

-- A message for one number.
abbrev note : String → ℕ → Cmd (Unit {0})
note text v = debug text (v ∷ [])

-- The Boolean of `streqn` on two arrays that are not NULL.
same_list : List ℕ → List ℕ → Bool
same_list [] [] = true
same_list (a ∷ xs) (b ∷ ys) = a == b && same_list xs ys
same_list [] (b ∷ ys) = false
same_list (a ∷ xs) [] = false

-- `ret = (ret << 8) | raw[i]` from the last of the first `n` bytes on.
join_bytes : List ℕ → ℕ → ℕ → ℕ
join_bytes raw zero ret = ret
join_bytes raw (suc i) ret = join_bytes raw i (bit_or (get_or raw i 0) (ret * 2 ^ 8 % 2 ^ 64))

module _ (p : Platform) where
  pub read_uint64 : Mem → ℕ → ℕ → ℕ × ℕ
  read_uint64 m buf cur = (join_bytes (read_local p m buf 8 cur) 8 0, skip_bytes cur 8)

  -- A field of a struct at `dest`, from the file.
  pub field16 : ℕ → ℕ → ℕ → Cmd (ℕ × ℕ)
  field16 buf cur dest = do
    mem ← get_mem
    let (v, cur') = read_uint16 p mem buf cur
    put_mem (store_list mem dest (le_bytes 2 v))
    pure (v, cur')

  pub field32 : ℕ → ℕ → ℕ → Cmd (ℕ × ℕ)
  field32 buf cur dest = do
    mem ← get_mem
    let (v, cur') = read_uint32 p mem buf cur
    put_mem (store_list mem dest (le_bytes 4 v))
    pure (v, cur')

  pub field64 : ℕ → ℕ → ℕ → Cmd (ℕ × ℕ)
  field64 buf cur dest = do
    mem ← get_mem
    let (v, cur') = read_uint64 mem buf cur
    put_mem (store_list mem dest (le_bytes 8 v))
    pure (v, cur')

  -- One byte of `e_ident`, with its message.
  ident_byte : String → ℕ → ℕ → ℕ → Cmd ℕ
  ident_byte text buf cur dest = do
    mem ← get_mem
    let (v, cur') = read_uint8 p mem buf cur
    note text v
    mem' ← get_mem
    put_mem (store mem' dest v)
    pure cur'

  pub parse_ident : ℕ → ℕ → ℕ → Cmd ℕ
  parse_ident kernel_obj cur0 e_ident = do
    mem ← get_mem
    let magic_bytes = read_local p mem kernel_obj 4 cur0
    let cur1 = skip_bytes cur0 4
    debug "ELF magic: %x %x %x %x" magic_bytes
    debug "ELF magic: %x %x %x %x" elfmag
    (if same_list magic_bytes elfmag then debug "magic is valid" [] else skip)
    put_mem (store_list mem e_ident magic_bytes)
    mem' ← get_mem
    let (bitness, cur2) = read_uint8 p mem' kernel_obj cur1
    note "ELF class (bitness): %d" bitness
    if bitness != elfclass64 then (do debug "not implemented!" []; pure cur2) else do
      put_mem (store mem' (e_ident + 4) bitness)
      cur3 ← ident_byte "ELF endianess: %d" kernel_obj cur2 (e_ident + 5)
      cur4 ← ident_byte "ELF version: %d" kernel_obj cur3 (e_ident + 6)
      cur5 ← ident_byte "ELF os_abi: %d" kernel_obj cur4 (e_ident + 7)
      cur6 ← ident_byte "ELF abi_version: %d" kernel_obj cur5 (e_ident + 8)
      mem'' ← get_mem
      debug "ELF padding: %x %x %x %x %x %x %x" (read_local p mem'' kernel_obj 7 cur6)
      pure (skip_bytes cur6 7)

  -- The fields of the header behind `e_ident`.
  pub header_fields : ℕ → ℕ → ℕ → Cmd ℕ
  header_fields kernel_obj cur0 header = do
    (e_type, cur1) ← field16 kernel_obj cur0 (header + 16)
    note "ELF type: %d" e_type
    (e_machine, cur2) ← field16 kernel_obj cur1 (header + 18)
    note "ELF machine: %d" e_machine
    (e_version, cur3) ← field32 kernel_obj cur2 (header + 20)
    note "ELF version: %d" e_version
    (e_entry, cur4) ← field64 kernel_obj cur3 (header + e_entry_at)
    note "ELF entry: 0x%llx" e_entry
    (e_phoff, cur5) ← field64 kernel_obj cur4 (header + e_phoff_at)
    note "ELF phoff: 0x%llx" e_phoff
    (e_shoff, cur6) ← field64 kernel_obj cur5 (header + e_shoff_at)
    note "ELF shoff: 0x%llx" e_shoff
    (e_flags, cur7) ← field32 kernel_obj cur6 (header + 48)
    note "ELF flags: 0x%x" e_flags
    (e_ehsize, cur8) ← field16 kernel_obj cur7 (header + 52)
    note "ELF ehsize: 0x%x" e_ehsize
    (e_phentsize, cur9) ← field16 kernel_obj cur8 (header + 54)
    note "ELF phentsize: 0x%x" e_phentsize
    (e_phnum, cur10) ← field16 kernel_obj cur9 (header + e_phnum_at)
    note "ELF phnum: 0x%x" e_phnum
    (e_shentsize, cur11) ← field16 kernel_obj cur10 (header + 58)
    note "ELF shentsize: 0x%x" e_shentsize
    (e_shnum, cur12) ← field16 kernel_obj cur11 (header + e_shnum_at)
    note "ELF qtySectionHeaders: 0x%x" e_shnum
    (e_shstrndx, cur13) ← field16 kernel_obj cur12 (header + 62)
    note "ELF sectionNamesIndex: 0x%x" e_shstrndx
    pure cur13

  -- The pointer to the header, or NULL, and the cursor. One byte of `e_ident` is copied.
  pub parse_elf_header : ℕ → ℕ → Cmd (ℕ × ℕ)
  parse_elf_header kernel_obj cur0 = do
    e_ident ← malloc ei_nident
    cur1 ← parse_ident kernel_obj cur0 e_ident
    mem ← get_mem
    if mem (e_ident + 4) != elfclass64
        then (do debug "not implemented!" []; pure (null, cur1))
        else do
          header ← malloc sizeof_ehdr
          mem' ← get_mem
          put_mem (store mem' header (mem' e_ident))
          cur2 ← header_fields kernel_obj cur1 header
          pure (header, cur2)
