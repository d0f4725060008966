-- ===== src/Idt.antt =====
-- src/kernel/idt.c: the interrupt descriptor table, the timer, and the names of the exceptions.
pub mod Descriptor
pub mod Timer
use lappis.Ata.{enable_ata}
use lappis.Base.{
  List, Option, String, [], bit_and, codes, get_or, if◌then◌else◌, ltb, replicate, set, shr, suc,
  zero, ℕ, ◌%◌, ◌*◌, ◌+◌, ◌-◌, ◌^◌, ◌∷◌,
}
use lappis.Machine.{
  Cmd, Machine, Mem, Platform, and_then, debug, emit, hlt, lidt, pure, sti, stuck, ◌>>=◌, ◌>>◌,
}
use lappis.Mouse.{enable_mouse}
use lappis.Pic.{pic_eoi, pic_remap, pic_send_eoi}
use lappis.Strings.{strcat_text}

abbrev pub idt_max_descriptors : ℕ
idt_max_descriptors = 256

-- The vectors that `idt_init` fills: 0 to 47.
abbrev pub used_vectors : ℕ
used_vectors = 48

-- `idt_entry_t`
pub record IdtEntry : Type 0 where
  pub isr_low : ℕ
  pub kernel_cs : ℕ
  pub ist : ℕ
  pub attributes : ℕ
  pub isr_mid : ℕ
  pub isr_high : ℕ
  pub reserved : ℕ

-- `sizeof(idt_entry_t)`, which is packed.
abbrev pub sizeof_entry : ℕ
sizeof_entry = 16

-- What static memory holds before the first descriptor is set.
abbrev pub empty_entry : IdtEntry
empty_entry = record {
  isr_low = 0;
  kernel_cs = 0;
  ist = 0;
  attributes = 0;
  isr_mid = 0;
  isr_high = 0;
  reserved = 0;
}

-- The table and `idtr`'s limit.
pub record Idt : Type 0 where
  pub entries : List IdtEntry
  pub limit : ℕ

abbrev pub idt : Idt
idt = record { entries = replicate idt_max_descriptors empty_entry; limit = 0 }

pub descriptor : ℕ → ℕ → IdtEntry
descriptor isr flags = record {
  isr_low = bit_and isr 0xFFFF;
  kernel_cs = 0x08;
  ist = 0;
  attributes = flags;
  isr_mid = bit_and (shr isr 16) 0xFFFF;
  isr_high = bit_and (shr isr 32) 0xFFFFFFFF;
  reserved = 0;
}

pub idt_set_descriptor : ℕ → ℕ → ℕ → List IdtEntry → List IdtEntry
unfolding descriptor
idt_set_descriptor vector isr flags entries = set entries vector (descriptor isr flags)

-- The loop over the vectors, from `vector` on, with the vectors left.
pub set_descriptors : (ℕ → ℕ) → ℕ → ℕ → List IdtEntry → List IdtEntry
set_descriptors isr_stub_table zero vector entries = entries
set_descriptors isr_stub_table (suc left) vector entries =
    set_descriptors isr_stub_table left (vector + 1)
      (idt_set_descriptor vector (isr_stub_table vector) 0x8E entries)

-- `(uint16_t)sizeof(idt_entry_t) * IDT_MAX_DESCRIPTORS - 1`
abbrev pub idt_limit : ℕ
idt_limit = (sizeof_entry * idt_max_descriptors - 1) % 2 ^ 16

-- `isr_stub_table` is the table of idt.asm.
pub idt_init : Platform → (ℕ → ℕ) → Idt → Cmd Idt
idt_init p isr_stub_table table = do
  pic_remap p 0x20 0x28
  debug "idt_init: initating IDT" []
  let table' : Idt = record {
    entries = set_descriptors isr_stub_table used_vectors 0 table.entries;
    limit = idt_limit;
  }
  enable_mouse p
  enable_ata p
  emit lidt
  emit sti
  debug "idt_init: IDT initialized" []
  pure table'

-- `exception_handler`
pub exception_handler : Cmd (Unit {0})
exception_handler = emit hlt

-- The interrupt decrements `countdown`.
pub timer_handler : ℕ → Cmd ℕ
timer_handler countdown = do
  pic_send_eoi pic_eoi
  pure (if ltb 0 countdown then countdown - 1 else countdown)

-- An interrupt: the timer's, or another one, whose handler does not touch `countdown`.
pub data Interrupt : Type 0 where
  timer_irq : Interrupt
  other_irq : (Machine → Machine) → Interrupt

-- The interrupts of one round of `sleep`: those between the test of `countdown` and the `hlt`, the one
-- that ends the `hlt`, and those before the next test.
pub record Halt : Type 0 where
  pub before : List Interrupt
  pub wake : Interrupt
  pub after : List Interrupt

-- The handlers of some interrupts, in their order.
pub handle_all : List Interrupt → ℕ → Cmd ℕ
handle_all [] countdown = pure countdown
handle_all (timer_irq ∷ irqs) countdown = do
  countdown' ← timer_handler countdown
  handle_all irqs countdown'
handle_all (other_irq handler ∷ irqs) countdown = λ m. handle_all irqs countdown (handler m)

-- The loop of `sleep`, over the interrupts to come. Without an interrupt, `hlt` lasts.
pub sleep_loop : List Halt → ℕ → Cmd ℕ
sleep_loop [] countdown = if ltb 0 countdown then (λ m. stuck) else pure countdown
sleep_loop (r ∷ halts) countdown =
    if ltb 0 countdown
    then (do
      countdown1 ← handle_all r.before countdown
      emit hlt
      countdown2 ← handle_all (r.wake ∷ r.after) countdown1
      sleep_loop halts countdown2)
    else pure countdown

-- `armed` are the interrupts between the assignment and the first test.
pub sleep : List Interrupt → List Halt → ℕ → Cmd ℕ
sleep armed halts ms = do countdown ← handle_all armed ms; sleep_loop halts countdown

-- The cases of `num_to_error_name`.
abbrev pub error_names : List String
error_names =
    "Divide Error" ∷ "Debug" ∷ "NMI Interrupt" ∷ "Breakpoint" ∷ "Overflow" ∷ "Bound Range Exceeded"
    ∷ "Invalid Opcode" ∷ "Device Not Available" ∷ "Double Fault" ∷ "Coprocessor Segment Overrun"
    ∷ "Invalid TSS" ∷ "Segment Not Present" ∷ "Stack-Segment Fault" ∷ "General Protection Fault"
    ∷ "Page Fault" ∷ "Reserved" ∷ "x87 FPU Floating-Point Error" ∷ "Alignment Check"
    ∷ "Machine-Check" ∷ "SIMD Floating-Point Exception" ∷ "Virtualization Exception" ∷ "Reserved"
    ∷ "Reserved" ∷ "Reserved" ∷ "Reserved" ∷ "Reserved" ∷ "Reserved" ∷ "Reserved"
    ∷ "Hypervisor Injection Exception" ∷ "VMM Communication Exception" ∷ "Security Exception"
    ∷ "Reserved" ∷ []

-- The name is appended to what `error_name` holds.
pub num_to_error_name : ℕ → Mem → ℕ → ℕ → Option Mem
num_to_error_name rounds m interrupt_number error_name =
    strcat_text rounds m error_name
      (codes (get_or error_names interrupt_number "Unknown interrupt, probably reserved"))
