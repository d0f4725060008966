-- ===== src/Tests/Boot.antt =====
-- The interrupt table, the timer and the tags on small inputs.
use lappis.Base.{
  List, [], arith, get_or, if◌then◌else◌, length, length-replicate, refl, ℕ, ◌<◌, ◌==◌, ◌∷◌, ◌≡◌,
  ◌≢◌, ◌≤◌, ◌⊎◌,
}
use lappis.Idt.{
  Halt, Interrupt, empty_entry, idt, idt_max_descriptors, other_irq, set_descriptors, sleep,
  timer_irq, used_vectors,
}
use lappis.Idt.Descriptor.{Gate, set_descriptors_lem}
use lappis.Idt.Timer.{LeastHalts, halted, sleep_lem, take_halts}
use lappis.Machine.{Mem, in_byte, ok, stuck}
use lappis.Machine.Memory.{load}
use lappis.Multiboot.{parse_multiboot_header, tag_size_at, tag_type_at}
use lappis.Multiboot.Walk.{
  Laid, LaidTo, parse_multiboot_header-stuck, parse_multiboot_header_lem, visited,
}
use lappis.Tests.{machine, machine_with}

abbrev stubs : ℕ → ℕ
stubs i = 0x123456789A

set_descriptors_lem_example :
    (length (set_descriptors stubs used_vectors 0 idt.entries) ≡ idt_max_descriptors)
    × ((i : ℕ)
        → i < used_vectors
        → Gate 0x123456789A
            (get_or (set_descriptors stubs used_vectors 0 idt.entries) i empty_entry))
    × ((i : ℕ)
        → used_vectors ≤ i
        → get_or (set_descriptors stubs used_vectors 0 idt.entries) i empty_entry
          ≡ get_or idt.entries i empty_entry)
set_descriptors_lem_example =
    set_descriptors_lem stubs idt.entries (λ i. omega arith) (length-replicate 256 empty_entry)

-- A key between the test and the `hlt`, which a tick ends; then a `hlt` that a key ends, with a tick
-- behind it; and a third that is not needed.
abbrev key : Interrupt
key = other_irq (λ m. record m { trace = in_byte 0x60 0x1E ∷ m.trace })

abbrev halts : List Halt
halts =
    record { before = key ∷ []; wake = timer_irq; after = [] }
    ∷ record { before = []; wake = key; after = timer_irq ∷ [] }
    ∷ record { before = []; wake = timer_irq; after = [] }
    ∷ []

sleep_lem_example :
    ((2 ≤ 3)
      × ((n : ℕ) × LeastHalts 2 halts n
          × (sleep [] halts 2 machine ≡ ok 0 (halted (take_halts n halts) machine))))
    ⊎ ((3 < 2) × (sleep [] halts 2 machine ≡ stuck))
sleep_lem_example = sleep_lem [] halts 2 machine

-- `total_size` 24 at 64, a base address tag of 12 bytes at 72, the end tag at 88.
abbrev tags : Mem
tags a =
    if a == 64 then 24 else if a == 72 then 21 else if a == 76 then 12 else if a == 92 then 8 else 0

-- A tag of 12 bytes at 72, and one of size 0 at 88.
abbrev zero_tag : Mem
zero_tag a =
    if a == 64
    then 40
    else if a == 72
    then 21
    else if a == 76
    then 12
    else if a == 88
    then 21
    else 0

zero_tag-LaidTo : LaidTo zero_tag 72 (record { type = 21; size = 12 } ∷ []) 88
unfolding load
zero_tag-LaidTo = (refl, refl, omega arith, refl)

zero_tag_total : load zero_tag 64 4 ≡ 40
unfolding load
zero_tag_total = refl

tags-Laid : Laid tags 72 (record { type = 21; size = 12 } ∷ [])
unfolding load
tags-Laid = (refl, refl, omega arith, (refl, refl))

tags_total : load tags 64 4 ≡ 24
unfolding load
tags_total = refl

parse_multiboot_header_lem_example :
    parse_multiboot_header 10 64 (machine_with tags)
    ≡ ok tt (record (machine_with tags) {
      trace = visited tags 72 (record { type = 21; size = 12 } ∷ []) [];
    })
parse_multiboot_header_lem_example =
    parse_multiboot_header_lem 10 64 (record { type = 21; size = 12 } ∷ []) (machine_with tags)
      tags-Laid (omega (arith, tags_total)) (omega (arith, tags_total)) (omega arith)

zero_tag_type : tag_type_at zero_tag 88 ≢ 0
unfolding load
zero_tag_type = omega arith

zero_tag_size : tag_size_at zero_tag 88 ≡ 0
unfolding load
zero_tag_size = refl

parse_multiboot_header-stuck_example : parse_multiboot_header 10 64 (machine_with zero_tag) ≡ stuck
parse_multiboot_header-stuck_example =
    parse_multiboot_header-stuck 10 64 88 (record { type = 21; size = 12 } ∷ [])
      (machine_with zero_tag) zero_tag-LaidTo (omega (arith, zero_tag_total))
      (omega (arith, zero_tag_total)) zero_tag_type zero_tag_size
