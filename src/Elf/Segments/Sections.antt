-- ===== src/Elf/Segments/Sections.antt =====
-- The loop over the section headers, whatever stands in the file.
use lappis.Base.{
  List, arith, false, ltb, refl, suc, true, zero, ℕ, ◌*◌, ◌+◌, ◌<◌, ◌^◌, ◌∙◌, ◌≡◌, ◌≤◌,
}
use lappis.Elf.{e_shnum_at, field32, field64}
use lappis.Elf.Copy.{Taken, Taken-add, Taken-block, Taken-refl, heaps}
use lappis.Elf.Segments.{parse_section_header, section_loop}
use lappis.Elf.Segments.Enter.{load-same}
use lappis.Machine.{Machine, Platform, Returns, Returns-bind, Returns-mono, returns}
use lappis.Machine.Memory.{
  SameBelow, SameBelow-le, SameBelow-trans, load, store_list, store_list-SameBelow,
}
use lappis.Zip.Blocks.{block, granted, malloc-granted}

-- What a store into a block at `lo` keeps.
abbrev Filled : ℕ → Machine → Machine → Type 0
Filled lo m0 m = SameBelow m0.mem m.mem lo × (heaps m ≡ heaps m0)

stored_behind :
    (lo dest : ℕ) (bytes : List ℕ) (m0 m : Machine)
    → SameBelow m0.mem m.mem lo
    → lo ≤ dest
    → SameBelow m0.mem (store_list m.mem dest bytes) lo
stored_behind lo dest bytes m0 m same le =
    SameBelow-trans m0.mem m.mem (store_list m.mem dest bytes) lo same (
      SameBelow-le m.mem (store_list m.mem dest bytes) dest lo le
        (store_list-SameBelow m.mem dest bytes))

module _ (p : Platform) (buf : ℕ) where
  -- A field's store is inside the block, whatever was read.
  field32-Filled :
      (lo cur dest : ℕ) (m0 m : Machine)
      → Filled lo m0 m
      → lo ≤ dest
      → Returns (λ _ m'. Filled lo m0 m') (field32 p buf cur dest m)
  unfolding field32
  field32-Filled lo cur dest m0 m (same, kept) le =
      returns (stored_behind lo dest _ m0 m same le, kept)

  field64-Filled :
      (lo cur dest : ℕ) (m0 m : Machine)
      → Filled lo m0 m
      → lo ≤ dest
      → Returns (λ _ m'. Filled lo m0 m') (field64 p buf cur dest m)
  unfolding field64
  field64-Filled lo cur dest m0 m (same, kept) le =
      returns (stored_behind lo dest _ m0 m same le, kept)

  -- Each header takes a block.
  parse_section_header_lem :
      (cur : ℕ) (m : Machine)
      → m.heap_current + 64 < m.heap_end
      → m.heap_end < 2 ^ 64
      → Returns (λ _ m'. Taken 64 m m') (parse_section_header p buf cur m)
  unfolding parse_section_header
  parse_section_header_lem cur m room addressable =
      let lo = m.heap_current in
      let m0 = granted 64 m in
      rw (malloc-granted 64 m addressable room) (
        Returns-bind (field32-Filled lo cur lo m0 m0 (λ a below. refl, refl) (omega arith))
          λ _ m1 f1. Returns-bind (field32-Filled lo _ _ m0 _ f1 (omega arith)) λ _ m2 f2.
            Returns-bind (field64-Filled lo _ _ m0 m2 f2 (omega arith)) λ _ m3 f3.
              Returns-bind (field64-Filled lo _ _ m0 m3 f3 (omega arith)) λ _ m4 f4.
                Returns-bind (field64-Filled lo _ _ m0 m4 f4 (omega arith)) λ _ m5 f5.
                  Returns-bind (field64-Filled lo _ _ m0 m5 f5 (omega arith)) λ _ m6 f6.
                    Returns-bind (field32-Filled lo _ _ m0 m6 f6 (omega arith)) λ _ m7 f7.
                      Returns-bind (field32-Filled lo _ _ m0 m7 f7 (omega arith)) λ _ m8 f8.
                        Returns-bind (field64-Filled lo _ _ m0 m8 f8 (omega arith)) λ _ m9 f9.
                          Returns-bind (field64-Filled lo _ _ m0 m9 f9 (omega arith))
                            λ _ m10 f10. returns (Taken-block 64 m m10 f10.0 f10.1))

  -- The loop ends, and takes a block for each round.
  pub section_loop_lem :
      (f header n i cur : ℕ) (m : Machine)
      → load m.mem (header + e_shnum_at) 2 ≡ i + n
      → n < f
      → header + 64 ≤ m.heap_current
      → m.heap_current + 64 * n < m.heap_end
      → m.heap_end < 2 ^ 64
      → Returns (λ _ m'. Taken (64 * n) m m') (section_loop p f buf header i cur m)
  unfolding section_loop
  section_loop_lem zero header n i cur m count enough below room addressable =
      absurd (omega (arith, enough))
  section_loop_lem (suc f) header zero i cur m count enough below room addressable =
      let last : ltb i (load m.mem (header + e_shnum_at) 2) ≡ false = ground (arith, count) in
      rw last (returns (Taken-refl m))
  section_loop_lem (suc f) header (suc n) i cur m count enough below room addressable =
      let more : ltb i (load m.mem (header + e_shnum_at) 2) ≡ true = ground (arith, count) in
      rw more (
        Returns-bind (parse_section_header_lem cur m (omega (arith, room)) addressable)
          λ (block, cur') m1 taken.
            Returns-mono
              (section_loop_lem f header n (i + 1) cur' m1
                (load-same m.mem m1.mem (header + e_shnum_at) 2
                    (λ a lo hi. taken.same a (omega (arith, hi, below)))
                  ∙ count
                  ∙ omega arith)
                (omega (arith, enough)) (omega (arith, taken.current, below))
                (omega (arith, taken.current, taken.same_end, room))
                (omega (arith, taken.same_end, addressable)))
              λ _ m2 later. Taken-add 64 (64 * n) taken later (omega arith))
