-- ===== src/Kernel.antt =====
-- src/kernel/kernel.c: the start of the kernel, and the messages of unexpected interrupts.
pub mod Cpu
pub mod Files
pub mod Program
pub mod Background
pub mod Boot
pub mod Enter
use lappis.Ata.{IdeDev, ata_primary_io, ata_read}
use lappis.Base.{
  Bool, List, Option, [], bit_and, bit_or, false, if◌then◌else◌, leb, none, not, shr, some, suc,
  true, zero, ℕ, ◌*◌, ◌+◌, ◌/◌, ◌==◌, ◌∷◌,
}
use lappis.Elf.Segments.{run_userland}
use lappis.Fpu.{enable_fpu, read_cr4, write_cr4}
use lappis.Heap.{init_heap, init_userland_heap, malloc, null}
use lappis.Idt.{Idt, idt_init, num_to_error_name}
use lappis.Machine.{
  Cmd, Mem, Platform, and_then, debug, error, get_mem, pure, put_mem, skip, stuck, ◌>>=◌, ◌>>◌,
}
use lappis.Machine.Memory.{load, store_list}
use lappis.Multiboot.{parse_multiboot_header}
use lappis.Print.{print_box}
use lappis.Serial.{init_serial, serial_com1_port, serial_com2_port}
use lappis.Strings.{streq}
use lappis.Video.{Color, large_font_cell_width, set_frame}
use lappis.Zip.{peek_zip, read_zip}
use lappis.Zip.Cursor.{ZipFs, sizeof_pointer}

-- What the cpuid instruction returns.
pub record Registers : Type 0 where
  pub eax : ℕ
  pub ebx : ℕ
  pub ecx : ℕ
  pub edx : ℕ

-- What kernel.c links against: cpuid, `__get_cpuid` of the compiler, the functions in Zig and Rust,
-- the stubs of idt.asm, and where the literals stand that it
-- hands on by address.
pub record Linked : Type 0 where
  pub cpuid : ℕ → Registers
  pub get_cpuid : ℕ → Option Registers
  pub foo : ℕ → ℕ
  pub bar : ℕ → ℕ
  pub isr_stub_table : ℕ → ℕ
  pub bg_raw : ℕ
  pub userland_elf : ℕ
  pub end_of_execution_text : ℕ

abbrev pub red_box : Color
red_box = record { red = 255; green = 0; blue = 0; alpha = 0xff }

abbrev pub green_box : Color
green_box = record { red = 0; green = 255; blue = 0; alpha = 0xff }

abbrev pub fsbuf_size : ℕ
fsbuf_size = 0x801000

pub enable_smep : Cmd (Unit {0})
enable_smep = do
  debug "enable_smep: enabling smep" []
  cr4 ← read_cr4
  write_cr4 (bit_or cr4 0x100000)
  debug "enable_smep: smep enabled" []

pub enable_smap : Cmd (Unit {0})
enable_smap = do
  debug "enable_smap: enabling smap" []
  cr4 ← read_cr4
  write_cr4 (bit_or cr4 0x200000)
  debug "enable_smap: smap enabled" []

-- The 13 stores of `get_cpu_vendor`.
pub vendor_bytes : Registers → List ℕ
vendor_bytes r =
    bit_and r.ebx 0xff
    ∷ bit_and (shr r.ebx 8) 0xff
    ∷ bit_and (shr r.ebx 16) 0xff
    ∷ bit_and (shr r.ebx 24) 0xff
    ∷ bit_and r.edx 0xff
    ∷ bit_and (shr r.edx 8) 0xff
    ∷ bit_and (shr r.edx 16) 0xff
    ∷ bit_and (shr r.edx 24) 0xff
    ∷ bit_and r.ecx 0xff
    ∷ bit_and (shr r.ecx 8) 0xff
    ∷ bit_and (shr r.ecx 16) 0xff
    ∷ bit_and (shr r.ecx 24) 0xff
    ∷ 0
    ∷ []

-- `zipfs.files[i]`, and the fields of `file_t`.
abbrev pub file_of : Mem → ZipFs → ℕ → ℕ
file_of mem zipfs i = load mem (zipfs.files + sizeof_pointer * i) 8

abbrev pub name_of : Mem → ℕ → ℕ
name_of mem file = load mem file 8

abbrev pub data_of : Mem → ℕ → ℕ
data_of mem file = load mem (file + 8) 8

abbrev pub size_of : Mem → ℕ → ℕ
size_of mem file = load mem (file + 16) 4

module _ (p : Platform) (l : Linked) where
  pub get_cpu_vendor : Cmd ℕ
  get_cpu_vendor = do
    let r = l.cpuid 0
    vendor_string ← malloc 13
    mem ← get_mem
    put_mem (store_list mem vendor_string (vendor_bytes r))
    debug "Highest CPUID leaf: %d" (r.eax ∷ [])
    pure vendor_string

  pub get_cpu_features : Cmd (Unit {0})
  get_cpu_features = elim (l.get_cpuid 1) [
    | none ↦ error "Could not get CPU features!" []
    | some r ↦ debug "CPU features: %x" (r.edx ∷ [])
  ]

  -- `num_to_error_name` appends to the block, and snprintf is cut at 256 bytes.
  pub warn_interrupt : ℕ → Cmd (Unit {0})
  warn_interrupt interrupt_number = do
    error "Interrupt: %d/%x!" (interrupt_number ∷ interrupt_number ∷ [])
    error_name ← malloc 256
    if error_name == null then error "Could not allocate memory for error name!" [] else do
      mem ← get_mem
      elim (num_to_error_name p.rounds mem interrupt_number error_name) [
        | none ↦ λ m. stuck
        | some mem' ↦ do
          put_mem mem'
          tmp ← malloc 256
          if tmp == null then error "Could not allocate memory for tmp!" [] else do
            mem'' ← get_mem
            put_mem (
                store_list mem'' tmp (
                  p.format mem'' 256 "Warning! Interrupt occurred: %s [%d/%x]"
                    (error_name ∷ interrupt_number ∷ interrupt_number ∷ [])))
            print_box p tmp large_font_cell_width 2 (some red_box)
      ]

  pub end_of_execution : Cmd (Unit {0})
  end_of_execution = print_box p l.end_of_execution_text large_font_cell_width 2 (some green_box)

  -- The loop that shows "bg.raw", with the files left. The name itself is the format of the message.
  pub background_loop : ℕ → ZipFs → ℕ → Cmd (Unit {0})
  background_loop zero zipfs i = skip
  background_loop (suc left) zipfs i = do
    mem ← get_mem
    let file = file_of mem zipfs i
    debug "" (name_of mem file ∷ [])
    elim (streq p.rounds mem (name_of mem file) l.bg_raw) [
      | none ↦ λ m. stuck
      | some same ↦ if not same then background_loop left zipfs (i + 1) else do
        debug "found bg.raw!" []
        set_frame p (data_of mem file)
        background_loop left zipfs (i + 1)
    ]

  -- The loop that looks for "userland.elf", with the files left: it ends at the first.
  pub program_loop : ℕ → ZipFs → ℕ → Cmd (Unit {0})
  program_loop zero zipfs i = skip
  program_loop (suc left) zipfs i = do
    mem ← get_mem
    let file = file_of mem zipfs i
    debug "" (name_of mem file ∷ [])
    elim (streq p.rounds mem (name_of mem file) l.userland_elf) [
      | none ↦ λ m. stuck
      | some same ↦ if not same then program_loop left zipfs (i + 1) else do
        debug "found userland.elf: %d" (size_of mem file ∷ [])
        run_userland p (data_of mem file) (size_of mem file)
    ]

  -- `main` from the sector buffer on. False is an early return; true is the loop of `sleep(10)`,
  -- which has no end. `zipfs0` is what the local `zipfs` holds before it is filled.
  pub start_files : ZipFs → ℕ → Cmd Bool
  start_files zipfs0 fsbuf = do
    debug "> zipfs" []
    zipfs_size ← peek_zip p fsbuf
    if zipfs_size == 0
        then (do error "Malformed zipfs! Maybe `fsbuf_size` is too small? Aborting." []; pure false)
        else if leb fsbuf_size zipfs_size
        then (do error "Unable to read file system: `fsbuf_size` is too small!" []; pure false)
        else (do
          zipfs ← read_zip p fsbuf zipfs_size zipfs0
          debug "< zipfs" []
          debug "File system initialized." []
          background_loop zipfs.num_files zipfs 0
          program_loop zipfs.num_files zipfs 0
          pure true)

  abbrev pub dev : IdeDev
  dev = record { bus = 0; drive = 0; io = ata_primary_io }

  -- `init_printf` stores a pointer in tinyprintf.c.
  pub main : ℕ → Idt → ZipFs → Cmd Bool
  main boot_info table zipfs0 = do
    init_heap p
    init_userland_heap p
    init_serial p serial_com1_port
    init_serial p serial_com2_port
    debug "zig: %d" (l.foo 1 ∷ [])
    debug "rust: %d" (l.bar 2 ∷ [])
    debug "Kernel started" []
    table' ← idt_init p l.isr_stub_table table
    vendor ← get_cpu_vendor
    debug "Vendor: %s" (vendor ∷ [])
    get_cpu_features
    parse_multiboot_header p.rounds boot_info
    enable_fpu
    enable_smep
    enable_smap
    fsbuf ← malloc fsbuf_size
    if fsbuf == null
        then (do error "Could not allocate memory for file system buffer!" []; pure false)
        else (do
          debug "> ATA" []
          ata_read p fsbuf 0 (fsbuf_size / 512) dev
          debug "< ATA" []
          start_files zipfs0 fsbuf)
