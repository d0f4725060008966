-- ===== src/Kernel/Cpu.antt =====
-- What the processor is asked and told.
use lappis.Base.{
  All, List, [], arith, bit, bit-set, bit_and, bit_and-ones, bit_or, if◌then◌else◌, le_bytes, refl,
  shr, ℕ, ◌%◌, ◌++◌, ◌+◌, ◌/◌, ◌<◌, ◌==◌, ◌^◌, ◌∷◌, ◌≡◌,
}
use lappis.Fpu.{enable_fpu}
use lappis.Heap.{after_malloc}
use lappis.Heap.Alloc.{IsHeap, malloc-ok}
use lappis.Kernel.{Linked, Registers, enable_smap, enable_smep, get_cpu_vendor, vendor_bytes}
use lappis.Machine.{Cmd, Event, Machine, Platform, Returns, ok, returns, ◌>>◌}
use lappis.Machine.Memory.{
  Holds, Holds-store_list, SameBelow, SameBelow-trans, fill-SameBelow, store_list-SameBelow,
}

-- The vendor, in the order in which the registers spell it, and its terminator.
abbrev pub vendor_text : Registers → List ℕ
vendor_text r = le_bytes 4 r.ebx ++ (le_bytes 4 r.edx ++ (le_bytes 4 r.ecx ++ 0 ∷ []))

byte_and : (v : ℕ) → bit_and v 0xff ≡ v % 2 ^ 8
byte_and v = bit_and-ones 8 v

shr_16 : (v : ℕ) → shr v 16 ≡ v / 2 ^ 8 / 2 ^ 8
shr_16 v = omega arith

shr_24 : (v : ℕ) → shr v 24 ≡ v / 2 ^ 8 / 2 ^ 8 / 2 ^ 8
shr_24 v = omega arith

vendor_bytes-text : (r : Registers) → vendor_bytes r ≡ vendor_text r
unfolding vendor_bytes
vendor_bytes-text r = simp (byte_and, shr_16, shr_24) refl

vendor_small : (r : Registers) → All (λ b. b < 2 ^ 8) (vendor_text r)
vendor_small r = omega arith

-- `get_cpu_vendor` returns a block of the heap with the vendor's twelve bytes as cpuid's leaf 0
-- spells them, in EBX, EDX and ECX, lowest byte first, and a terminator, and nothing below the
-- block changes. The heap has room for the block.
pub get_cpu_vendor_lem :
    (p : Platform) (l : Linked) (m : Machine)
    → IsHeap m
    → m.heap_current + 13 < m.heap_end
    → Returns
        (λ vendor m'.
          (vendor ≡ m.heap_current)
          × Holds m'.mem vendor (vendor_text (l.cpuid 0))
          × SameBelow m.mem m'.mem m.heap_current
          × (m'.heap_current ≡ m.heap_current + 13))
        (get_cpu_vendor p l m)
unfolding get_cpu_vendor
get_cpu_vendor_lem p l m heap room =
    let r = l.cpuid 0 in
    let text = vendor_bytes-text r in
    rw (malloc-ok 13 m heap.addressable room, text)
      (returns (
        refl,
        Holds-store_list (after_malloc 13 m).mem m.heap_current (vendor_text r) (vendor_small r),
        SameBelow-trans m.mem (after_malloc 13 m).mem _ m.heap_current
            (fill-SameBelow m.mem m.heap_current 13 0)
            (store_list-SameBelow (after_malloc 13 m).mem m.heap_current (vendor_text r)),
        omega arith,
      ))

-- `main` calls `enable_fpu`, `enable_smep` and `enable_smap` in this order.
abbrev pub enable_features : Cmd (Unit {0})
enable_features = do enable_fpu; enable_smep; enable_smap

-- What the features make of a digit of CR4.
abbrev pub feature_bit : ℕ → ℕ → ℕ
feature_bit k b = if k == 9 then 1 else if k == 20 then 1 else if k == 21 then 1 else b

-- `enable_fpu`, `enable_smep` and `enable_smap` set the digits 9, 20 and 21 of CR4, for SSE, SMEP
-- and SMAP, keep every other digit, and touch neither memory nor the heap.
pub enable_features_lem :
    (m : Machine)
    → (cr4 : ℕ) × (t : List Event) × (enable_features m ≡ ok tt (record m { cr4 = cr4; trace = t }))
      × ((k : ℕ) → bit k cr4 ≡ feature_bit k (bit k m.cr4))
unfolding enable_fpu enable_smep enable_smap
enable_features_lem m = (
  bit_or (bit_or (bit_or m.cr4 0x200) 0x100000) 0x200000,
  _,
  refl,
  λ k. ground (
    arith,
    bit-set k 9 m.cr4,
    bit-set k 20 (bit_or m.cr4 0x200),
    bit-set k 21 (bit_or (bit_or m.cr4 0x200) 0x100000),
  ),
)
