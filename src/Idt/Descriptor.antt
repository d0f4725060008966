-- ===== src/Idt/Descriptor.antt =====
-- The descriptors: the address that the processor reads is the handler's.
use lappis.Base.{
  List, arith, bit_and-ones, get_or, get_or-set_ne, get_or-set_self, inl, inr, length, length-set,
  ltb-cases, refl, set, shr, suc, zero, ℕ, ◌*◌, ◌+◌, ◌<◌, ◌^◌, ◌∙◌, ◌≡◌, ◌≤◌, ◌⊎◌,
}
use lappis.Idt.{
  IdtEntry, descriptor, empty_entry, idt_max_descriptors, idt_set_descriptor, set_descriptors,
  used_vectors,
}

-- What the processor makes of a descriptor: the handler's address.
abbrev pub handler_address : IdtEntry → ℕ
handler_address e = e.isr_low + e.isr_mid * 2 ^ 16 + e.isr_high * 2 ^ 32

-- An interrupt gate of the kernel's code segment for the handler.
abbrev pub Gate : ℕ → IdtEntry → Type 0
Gate isr e =
    (handler_address e ≡ isr)
    × (e.kernel_cs ≡ 0x08)
    × (e.attributes ≡ 0x8E)
    × (e.ist ≡ 0)
    × (e.reserved ≡ 0)

-- The three parts that `idt_set_descriptor` splits a 64-bit address into make it up again.
pub handler_address-descriptor :
    (isr flags : ℕ) → isr < 2 ^ 64 → handler_address (descriptor isr flags) ≡ isr
unfolding descriptor
handler_address-descriptor isr flags lt =
    omega (arith, bit_and-ones 16 isr, bit_and-ones 16 (shr isr 16), bit_and-ones 32 (shr isr 32))

length-set_descriptors :
    (stubs : ℕ → ℕ) (left vector : ℕ) (entries : List IdtEntry)
    → length (set_descriptors stubs left vector entries) ≡ length entries
unfolding set_descriptors idt_set_descriptor
length-set_descriptors stubs zero vector entries = refl
length-set_descriptors stubs (suc left) vector entries =
    length-set_descriptors stubs left (vector + 1)
      (set entries vector (descriptor (stubs vector) 0x8E))
    ∙ length-set entries vector (descriptor (stubs vector) 0x8E)

-- Entries that the loop does not reach keep their value.
set_descriptors_outside :
    (stubs : ℕ → ℕ) (left vector i : ℕ) (entries : List IdtEntry)
    → (i < vector) ⊎ (vector + left ≤ i)
    → get_or (set_descriptors stubs left vector entries) i empty_entry
      ≡ get_or entries i empty_entry
unfolding set_descriptors idt_set_descriptor
set_descriptors_outside stubs zero vector i entries out = refl
set_descriptors_outside stubs (suc left) vector i entries out =
    set_descriptors_outside stubs left (vector + 1) i
      (set entries vector (descriptor (stubs vector) 0x8E))
      (elim out [ inl below ↦ inl (omega arith) | inr above ↦ inr (omega arith) ])
    ∙ get_or-set_ne entries vector i (descriptor (stubs vector) 0x8E) empty_entry
        (λ e. elim out [ inl below ↦ omega arith | inr above ↦ omega arith ])

-- The loop sets each vector it reaches to the descriptor of its stub.
set_descriptors_inside :
    (stubs : ℕ → ℕ) (left vector i : ℕ) (entries : List IdtEntry)
    → vector ≤ i
    → i < vector + left
    → i < length entries
    → get_or (set_descriptors stubs left vector entries) i empty_entry ≡ descriptor (stubs i) 0x8E
unfolding set_descriptors idt_set_descriptor
set_descriptors_inside stubs zero vector i entries ge lt small = absurd (omega arith)
set_descriptors_inside stubs (suc left) vector i entries ge lt small =
    let next = set entries vector (descriptor (stubs vector) 0x8E) in
    let size = length-set entries vector (descriptor (stubs vector) 0x8E) in
    elim (ltb-cases vector i) [
      | inl (t, above) ↦
          set_descriptors_inside stubs left (vector + 1) i next (omega arith) (omega arith)
            (omega arith)
      | inr (t, le) ↦
          let here : i ≡ vector = omega arith in
          set_descriptors_outside stubs left (vector + 1) i next (inl (omega arith))
          ∙ rw here (
              get_or-set_self entries vector (descriptor (stubs vector) 0x8E) empty_entry
                (omega arith))
    ]

descriptor-Gate : (isr : ℕ) → isr < 2 ^ 64 → Gate isr (descriptor isr 0x8E)
unfolding descriptor
descriptor-Gate isr lt = (handler_address-descriptor isr 0x8E lt, refl, refl, refl, refl)

-- The loop of `idt_init`, over a table of 256 entries and a table of 64-bit stub addresses, makes
-- each of the vectors 0 to 47 an interrupt gate for its stub, and leaves the others and the table's
-- length as they were.
pub set_descriptors_lem :
    (stubs : ℕ → ℕ) (entries : List IdtEntry)
    → ((i : ℕ) → stubs i < 2 ^ 64)
    → length entries ≡ idt_max_descriptors
    → (length (set_descriptors stubs used_vectors 0 entries) ≡ idt_max_descriptors)
      × ((i : ℕ)
          → i < used_vectors
          → Gate (stubs i) (get_or (set_descriptors stubs used_vectors 0 entries) i empty_entry))
      × ((i : ℕ)
          → used_vectors ≤ i
          → get_or (set_descriptors stubs used_vectors 0 entries) i empty_entry
            ≡ get_or entries i empty_entry)
set_descriptors_lem stubs entries wide size = (
  length-set_descriptors stubs used_vectors 0 entries ∙ size,
  (λ i lt.
      rw (set_descriptors_inside stubs used_vectors 0 i entries (omega arith) lt (omega arith))
        (descriptor-Gate (stubs i) (wide i))),
  λ i ge. set_descriptors_outside stubs used_vectors 0 i entries (inr ge),
)
