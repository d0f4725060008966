-- ===== src/Multiboot.antt =====
-- src/kernel/multiboot.c: the walk over the tags that the boot loader leaves.
pub mod Walk
use lappis.Base.{
  List, String, [], add32, codes, get_or, if◌then◌else◌, ltb, suc, zero, ℕ, ◌%◌, ◌&&◌, ◌*◌, ◌+◌,
  ◌/◌, ◌==◌, ◌^◌, ◌∷◌,
}
use lappis.Machine.{
  Cmd, Event, Mem, and_then, debug_msg, emit, error, error_msg, get_mem, skip, stuck, ◌>>=◌, ◌>>◌,
}
use lappis.Machine.Memory.{load}

-- `get_tag_name`, which takes the low byte of the type.
abbrev pub tag_names : List String
tag_names =
    "MULTIBOOT_TAG_TYPE_END" ∷ "MULTIBOOT_TAG_TYPE_CMDLINE" ∷ "MULTIBOOT_TAG_TYPE_BOOT_LOADER_NAME"
    ∷ "MULTIBOOT_TAG_TYPE_MODULE" ∷ "MULTIBOOT_TAG_TYPE_BASIC_MEMINFO"
    ∷ "MULTIBOOT_TAG_TYPE_BOOTDEV" ∷ "MULTIBOOT_TAG_TYPE_MMAP" ∷ "MULTIBOOT_TAG_TYPE_VBE"
    ∷ "MULTIBOOT_TAG_TYPE_FRAMEBUFFER" ∷ "MULTIBOOT_TAG_TYPE_ELF_SECTIONS"
    ∷ "MULTIBOOT_TAG_TYPE_APM" ∷ "MULTIBOOT_TAG_TYPE_EFI32" ∷ "MULTIBOOT_TAG_TYPE_EFI64"
    ∷ "MULTIBOOT_TAG_TYPE_SMBIOS" ∷ "MULTIBOOT_TAG_TYPE_ACPI_OLD" ∷ "MULTIBOOT_TAG_TYPE_ACPI_NEW"
    ∷ "MULTIBOOT_TAG_TYPE_NETWORK" ∷ "MULTIBOOT_TAG_TYPE_EFI_MMAP" ∷ "MULTIBOOT_TAG_TYPE_EFI_BS"
    ∷ "MULTIBOOT_TAG_TYPE_EFI32_IH" ∷ "MULTIBOOT_TAG_TYPE_EFI64_IH"
    ∷ "MULTIBOOT_TAG_TYPE_LOAD_BASE_ADDR" ∷ []

pub get_tag_name : ℕ → String
get_tag_name tag_type = get_or tag_names tag_type "Unknown"

-- `tag->type` and `tag->size`.
abbrev pub tag_type_at : Mem → ℕ → ℕ
tag_type_at m tag = load m tag 4

abbrev pub tag_size_at : Mem → ℕ → ℕ
tag_size_at m tag = load m (tag + 4) 4

-- `struct multiboot_tag` without its data.
abbrev pub sizeof_tag : ℕ
sizeof_tag = 8

-- What the `switch` prints of a tag. A `%s` argument is the address of the string.
abbrev pub tag_event : Mem → ℕ → Event
tag_event m tag =
    let type = tag_type_at m tag in
    if type == 1
    then debug_msg "\tCmdline: %s" ((tag + 8) ∷ [])
    else if type == 2
    then debug_msg "\tBoot loader name: %s" ((tag + 8) ∷ [])
    else if type == 4
    then debug_msg "\tMemory: %dKB/%dKB" (load m (tag + 8) 4 ∷ load m (tag + 12) 4 ∷ [])
    else if type == 5
    then debug_msg "\tBoot device: %d:%d" (load m (tag + 8) 4 ∷ load m (tag + 12) 4 ∷ [])
    else if type == 6
    then debug_msg "\tMemory map: %x" (load m (tag + 8) 4 ∷ [])
    else if type == 7
    then debug_msg "\tVBE: %d" (load m (tag + 8) 2 ∷ [])
    else if type == 8
    then debug_msg "\tFramebuffer: %d x %d, %d bpp"
        (load m (tag + 20) 4 ∷ load m (tag + 24) 4 ∷ load m (tag + 28) 1 ∷ [])
    else if type == 9
    then debug_msg "\tELF sections: %x" (load m (tag + 8) 4 ∷ [])
    else if type == 10
    then debug_msg "\tAPM info: %x" (load m (tag + 8) 2 ∷ [])
    else if type == 14
    then debug_msg "\tACPI: %x (%d bytes)" (load m (tag + 24) 4 ∷ tag_size_at m tag ∷ [])
    else if type == 21
    then debug_msg "\tBase address: %x" (load m (tag + 8) 4 ∷ [])
    else error_msg "Unknown tag: %d" (type ∷ [])

-- How many 8-byte units the tag takes; `tag->size+8` has 32 bits.
pub next_tag : ℕ → ℕ
next_tag size = if size % 8 == 0 then size / 8 else add32 size 8 / 8

-- The message before the `switch`, with the characters of the name.
abbrev pub type_event : Mem → ℕ → Event
type_event m tag = debug_msg "Type: %s" (codes (get_tag_name (tag_type_at m tag % 2 ^ 8)))

-- The loop, from a tag on, with the bytes travelled so far.
pub tag_loop : ℕ → ℕ → ℕ → ℕ → Cmd (Unit {0})
tag_loop zero boot_info tag travel = λ m. stuck
tag_loop (suc f) boot_info tag travel = do
  mem ← get_mem
  emit (type_event mem tag)
  if tag_type_at mem tag == 0 && tag_size_at mem tag == 8
      then skip
      else if ltb (load mem boot_info 4) travel
      then error "Traveled too far, aborting! (travel: %d, total_size: %d)"
          (travel ∷ load mem boot_info 4 ∷ [])
      else do
        emit (tag_event mem tag)
        let next = next_tag (tag_size_at mem tag)
        tag_loop f boot_info (tag + next * sizeof_tag) (add32 travel (next * sizeof_tag))

-- The tags stand behind `total_size` and `reserved`.
pub parse_multiboot_header : ℕ → ℕ → Cmd (Unit {0})
parse_multiboot_header rounds boot_info = tag_loop rounds boot_info (boot_info + 8) 0
