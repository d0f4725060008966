-- ===== src/Elf/Segments/Enter.antt =====
-- The program's segment is copied to userland and entered.
use mathlib.Core.Path.{subst}
use lappis.Base.{
  All, List, [], add64, arith, inl, inr, length, refl, sub64, suc, zero, ℕ, ◌+◌, ◌-◌, ◌<◌, ◌^◌, ◌∙◌,
  ◌∷◌, ◌≡◌, ◌≤◌,
}
use lappis.Elf.{e_entry_at, note}
use lappis.Elf.Segments.{enter_segment, enter_userland}
use lappis.Heap.{after_malloc, userland_malloc, userland_memcpy}
use lappis.Heap.Alloc.{IsHeap, malloc-ok}
use lappis.Heap.Userland.{IsUserlandHeap, MemcpyCopies, userland_malloc_lem, userland_memcpy_lem}
use lappis.Keyboard.Buffer.{window}
use lappis.Machine.{
  Enters, Enters-behind, Machine, Mem, Platform, Run, and_then, debug_msg, enters, get_mem, ◌>>=◌,
  ◌>>◌,
}
use lappis.Machine.Memory.{
  Holds, Holds-Written, Holds-same, Holds-store_list, SameBelow, SameBelow-trans, SameOn,
  fill-SameBelow, load, store_list-SameBelow,
}
use lappis.Zip.Blocks.{At-SameBelow, block, read_lem, stored}

-- Numbers that stand where memory stays.
pub load-same : (m m' : Mem) (p n : ℕ) → SameOn m m' p n → load m' p n ≡ load m p n
unfolding load
load-same m m' p zero same = refl
load-same m m' p (suc n) same = omega (
  arith,
  same p (omega arith) (omega arith),
  load-same m m' (p + 1) n (λ a lo hi. same a (omega (arith, lo)) (omega (arith, hi))),
)

-- The segment's header, the file's header and the bytes of the segment, all below the free part of
-- the heap, and room for the bytes in both heaps, of which userland's is above.
pub record IsLoadable (kernel_obj header segment offset paddr entry : ℕ) (bytes : List ℕ)
    (m : Machine) : Type 0 where
  pub filesz : load m.mem (segment + 32) 8 ≡ length bytes
  pub paddr_is : load m.mem (segment + 24) 8 ≡ paddr
  pub offset_is : load m.mem (segment + 8) 8 ≡ offset
  pub entry_is : load m.mem (header + e_entry_at) 8 ≡ entry
  pub stands : Holds m.mem (kernel_obj + offset) bytes
  pub small : All (λ b. b < 2 ^ 8) bytes
  pub below : kernel_obj + offset + length bytes ≤ m.heap_current
  pub header_below : header + 32 ≤ m.heap_current
  pub heap : IsHeap m
  pub userland : IsUserlandHeap m
  pub room : m.heap_current + length bytes < m.heap_end
  pub userland_room : m.userland_heap_current + length bytes < m.userland_heap_end
  pub above : m.heap_end ≤ m.userland_heap_current
  pub entry_behind : paddr ≤ entry
  pub entry_small : m.userland_heap_current + entry < 2 ^ 64

-- The run enters the program at `target`, where the bytes stand from `block` on.
abbrev pub EntersAt : {A : Type 0} → ℕ → ℕ → List ℕ → Run A → Type 0
EntersAt block target bytes r = Enters target (λ m. Holds m.mem block bytes) r

-- The field of the header that is read last.
entry_kept :
    (header lo entry : ℕ) (m m' : Mem)
    → header + 32 ≤ lo
    → SameBelow m m' lo
    → load m (header + e_entry_at) 8 ≡ entry
    → load m' (header + e_entry_at) 8 ≡ entry
entry_kept header lo entry m m' below same is =
    load-same m m' (header + e_entry_at) 8 (λ a from to. same a (omega (arith, to, below))) ∙ is

module _ (p : Platform) (copies : MemcpyCopies p) where
  -- From the kernel's copy of the bytes on.
  to_userland :
      (header kernel_code paddr entry : ℕ) (bytes : List ℕ) (m : Machine)
      → Holds m.mem kernel_code bytes
      → All (λ b. b < 2 ^ 8) bytes
      → load m.mem (header + e_entry_at) 8 ≡ entry
      → IsUserlandHeap m
      → m.userland_heap_current + length bytes < m.userland_heap_end
      → kernel_code + length bytes ≤ m.userland_heap_current
      → header + 32 ≤ m.userland_heap_current
      → paddr ≤ entry
      → m.userland_heap_current + entry < 2 ^ 64
      → EntersAt m.userland_heap_current (m.userland_heap_current + (entry - paddr)) bytes (
          and_then (userland_malloc (length bytes) m) λ userland_code.
            userland_memcpy p userland_code kernel_code (length bytes) >>= λ dest.
            get_mem >>= λ mem'.
            let entry' = sub64 (load mem' (header + e_entry_at) 8) paddr in
            note "kernel_code: %p" (add64 kernel_code entry')
            >> (note "userland_code: %p" (add64 userland_code entry')
                >> enter_userland (add64 userland_code entry')))
  to_userland header kernel_code paddr entry bytes m held small entry_is heap room above
        header_below behind fits =
      Enters-behind
        (userland_malloc_lem (length bytes) heap (omega (arith, room, heap.addressable)))
        λ ptr m1 out. elim out [
          | inl got ↦
              let same1 : SameBelow m.mem m1.mem m.userland_heap_current =
                λ a lt. ground (arith, got.contents a, got.start, lt) in
              let held1 =
                Holds-same m.mem m1.mem kernel_code bytes
                  (λ a lo hi. same1 a (omega (arith, hi, above))) held in
              Enters-behind (userland_memcpy_lem p copies ptr kernel_code bytes m1 held1 small)
                λ ret m2 (same_ret, written, window).
                  let same2 : SameBelow m1.mem m2.mem m.userland_heap_current =
                    λ a lt. ground (arith, written a, got.start, lt) in
                  let entry2 =
                    entry_kept header m.userland_heap_current entry m.mem m2.mem header_below
                      (SameBelow-trans m.mem m1.mem m2.mem m.userland_heap_current same1 same2)
                      entry_is in
                  let target : add64 ptr (sub64 entry paddr)
                      ≡ m.userland_heap_current + (entry - paddr) =
                    omega (arith, got.start, behind, fits) in
                  rw (entry2, target)
                    (enters (
                      subst (λ q. Holds m2.mem q bytes) got.start
                        (Holds-Written m1.mem m2.mem ptr bytes written)))
          | inr refused ↦ absurd (omega (arith, refused.full, room))
        ]

  -- The loader copies the bytes of the segment into a block of userland's heap, and enters it at the
  -- address of the file's entry point, moved from the segment's address to the block. Both heaps have
  -- room, the entry point is not below the segment, and memcpy copies.
  pub enter_segment_lem :
      (kernel_obj header segment offset paddr entry : ℕ) (bytes : List ℕ) (m : Machine)
      → IsLoadable kernel_obj header segment offset paddr entry bytes m
      → EntersAt m.userland_heap_current
          (m.userland_heap_current + (entry - paddr))
          bytes
          (enter_segment p kernel_obj header segment m)
  unfolding enter_segment
  enter_segment_lem kernel_obj header segment offset paddr entry bytes m h =
      let n = length bytes in
      let block = m.heap_current in
      let m1 = record m {
        trace =
            debug_msg "pseg_cur: %d" (offset ∷ [])
            ∷ debug_msg "file size: 0x%llx" (n ∷ [])
            ∷ m.trace;
      } in
      let m2 = after_malloc n m1 in
      let m3 = record m2 {
        trace = debug_msg "size: %p" (n ∷ []) ∷ debug_msg "kernel_code: %p" (block ∷ []) ∷ m2.trace;
      } in
      let m4 = stored block bytes m3 in
      let m5 = record m4 { trace = debug_msg "pseg_cur: %d" ((offset + n) ∷ []) ∷ m4.trace } in
      let same2 : SameBelow m.mem m2.mem block = fill-SameBelow m.mem block n 0 in
      let same4 : SameBelow m.mem m4.mem block =
        SameBelow-trans m.mem m2.mem m4.mem block same2 (store_list-SameBelow m2.mem block bytes) in
      let file = At-SameBelow m.mem m3.mem kernel_obj offset block bytes same2 h.below h.stands in
      rw
        (
          h.filesz,
          h.paddr_is,
          h.offset_is,
          malloc-ok n m1 h.heap.addressable h.room,
          read_lem p copies kernel_obj offset block bytes m3 file
              (omega (arith, h.below, h.heap.below_end, h.heap.addressable)),
        )
        (to_userland header block paddr entry bytes m5 (Holds-store_list m2.mem block bytes h.small)
          h.small (entry_kept header block entry m.mem m4.mem h.header_below same4 h.entry_is)
          (record {
            not_null = h.userland.not_null;
            started = h.userland.started;
            below_end = h.userland.below_end;
            addressable = h.userland.addressable;
          })
          h.userland_room (omega (arith, h.room, h.above))
          (omega (arith, h.header_below, h.heap.below_end, h.above)) h.entry_behind h.entry_small)
