-- ===== src/Elf/Segments/Phdr.antt =====
-- The header of one segment, from the file to the block that `parse_program_segment_header` returns.
use lappis.Base.{All, List, [], ap, arith, le_bytes, ℕ, ◌++◌, ◌+◌, ◌<◌, ◌^◌, ◌≡◌, ◌≤◌}
use lappis.Elf.Copy.{Copying-start, Taken, Taken-block, field32-Copying, field64-Copying}
use lappis.Elf.Fields.{Holds-drop, Holds-front}
use lappis.Elf.Numbers.{load_lem}
use lappis.Elf.Segments.{parse_program_segment_header}
use lappis.Heap.Userland.{MemcpyCopies}
use lappis.Machine.{Machine, Mem, Platform, Returns, Returns-bind, returns}
use lappis.Machine.Memory.{
  Holds, Holds-store_list, fill-SameBelow, load, store_list, store_list-SameBelow,
}
use lappis.Zip.Blocks.{At-SameBelow, granted, malloc-granted}
use lappis.Zip.Bytes.{At}

-- The fields of `Elf64_Phdr`.
pub record Phdr : Type 0 where
  pub p_type : ℕ
  pub p_flags : ℕ
  pub p_offset : ℕ
  pub p_vaddr : ℕ
  pub p_paddr : ℕ
  pub p_filesz : ℕ
  pub p_memsz : ℕ
  pub p_align : ℕ

-- The bytes they are written as, from each field on: 56 in all.
abbrev from_align : Phdr → List ℕ
from_align h = le_bytes 8 h.p_align

abbrev from_memsz : Phdr → List ℕ
from_memsz h = le_bytes 8 h.p_memsz ++ from_align h

abbrev from_filesz : Phdr → List ℕ
from_filesz h = le_bytes 8 h.p_filesz ++ from_memsz h

abbrev from_paddr : Phdr → List ℕ
from_paddr h = le_bytes 8 h.p_paddr ++ from_filesz h

abbrev from_vaddr : Phdr → List ℕ
from_vaddr h = le_bytes 8 h.p_vaddr ++ from_paddr h

abbrev from_offset : Phdr → List ℕ
from_offset h = le_bytes 8 h.p_offset ++ from_vaddr h

abbrev from_p_flags : Phdr → List ℕ
from_p_flags h = le_bytes 4 h.p_flags ++ from_offset h

abbrev pub encode_phdr : Phdr → List ℕ
encode_phdr h = le_bytes 4 h.p_type ++ from_p_flags h

pub record PhdrFits (h : Phdr) : Type 0 where
  pub type_fits : h.p_type < 2 ^ 32
  pub flags_fits : h.p_flags < 2 ^ 32
  pub offset_fits : h.p_offset < 2 ^ 64
  pub vaddr_fits : h.p_vaddr < 2 ^ 64
  pub paddr_fits : h.p_paddr < 2 ^ 64
  pub filesz_fits : h.p_filesz < 2 ^ 64
  pub memsz_fits : h.p_memsz < 2 ^ 64
  pub align_fits : h.p_align < 2 ^ 64

-- What the loader reads of a segment's header.
pub record PhdrAt (mem : Mem) (segment : ℕ) (h : Phdr) : Type 0 where
  pub type_at : load mem segment 4 ≡ h.p_type
  pub offset_at : load mem (segment + 8) 8 ≡ h.p_offset
  pub paddr_at : load mem (segment + 24) 8 ≡ h.p_paddr
  pub filesz_at : load mem (segment + 32) 8 ≡ h.p_filesz

phdr_bytes : (h : Phdr) → All (λ b. b < 2 ^ 8) (encode_phdr h)
phdr_bytes h = omega arith

PhdrAt-Holds :
    (mem : Mem) (at : ℕ) (h : Phdr) → PhdrFits h → Holds mem at (encode_phdr h) → PhdrAt mem at h
PhdrAt-Holds mem at h fits h0 =
    let h4 = Holds-drop mem at (at + 4) (le_bytes 4 h.p_type) (from_p_flags h) h0 (omega arith) in
    let h8 =
      Holds-drop mem (at + 4) (at + 8) (le_bytes 4 h.p_flags) (from_offset h) h4 (omega arith) in
    let h16 =
      Holds-drop mem (at + 8) (at + 16) (le_bytes 8 h.p_offset) (from_vaddr h) h8 (omega arith) in
    let h24 =
      Holds-drop mem (at + 16) (at + 24) (le_bytes 8 h.p_vaddr) (from_paddr h) h16 (omega arith) in
    let h32 =
      Holds-drop mem (at + 24) (at + 32) (le_bytes 8 h.p_paddr) (from_filesz h) h24 (omega arith) in
    record {
      type_at =
          load_lem mem at 4 h.p_type (Holds-front mem at (le_bytes 4 h.p_type) (from_p_flags h) h0)
            (omega (arith, fits.type_fits));
      offset_at =
          load_lem mem (at + 8) 8 h.p_offset
            (Holds-front mem (at + 8) (le_bytes 8 h.p_offset) (from_vaddr h) h8)
            (omega (arith, fits.offset_fits));
      paddr_at =
          load_lem mem (at + 24) 8 h.p_paddr
            (Holds-front mem (at + 24) (le_bytes 8 h.p_paddr) (from_filesz h) h24)
            (omega (arith, fits.paddr_fits));
      filesz_at =
          load_lem mem (at + 32) 8 h.p_filesz
            (Holds-front mem (at + 32) (le_bytes 8 h.p_filesz) (from_memsz h) h32)
            (omega (arith, fits.filesz_fits));
    }

-- What the parser of one header leaves.
pub record Parsed (cur : ℕ) (h : Phdr) (m : Machine) (out : ℕ × ℕ) (m' : Machine) : Type 0 where
  pub result : out ≡ (m.heap_current, cur + 56)
  pub fields : PhdrAt m'.mem m.heap_current h
  pub taken : Taken 64 m m'

module _ (p : Platform) (laws : MemcpyCopies p) (buf : ℕ) where
  pub parse_program_segment_header_lem :
      (cur : ℕ) (h : Phdr) (m : Machine)
      → PhdrFits h
      → At m.mem buf cur (encode_phdr h)
      → buf + cur + 56 ≤ m.heap_current
      → cur + 56 < 2 ^ 64
      → m.heap_current + 64 < m.heap_end
      → m.heap_end < 2 ^ 64
      → Returns (Parsed cur h m) (parse_program_segment_header p buf cur m)
  unfolding parse_program_segment_header
  parse_program_segment_header_lem cur h m fits here below small room addressable =
      let dest = m.heap_current in
      let m0 = granted 64 m in
      let c0 =
        Copying-start p laws buf cur dest (encode_phdr h) m0
          (At-SameBelow m.mem m0.mem buf cur dest (encode_phdr h) (fill-SameBelow m.mem dest 64 0)
            below here)
          below (omega (arith, small)) in
      rw (malloc-granted 64 m addressable room) (
        Returns-bind (field32-Copying p laws buf cur dest m0 _ _ c0 fits.type_fits (omega arith))
          λ _ m1 c1.
            Returns-bind
              (field32-Copying p laws buf cur dest m0 _ _ c1 fits.flags_fits (omega arith))
              λ _ m2 c2.
                Returns-bind
                  (field64-Copying p laws buf cur dest m0 _ _ c2 fits.offset_fits (omega arith))
                  λ _ m3 c3.
                    Returns-bind
                      (field64-Copying p laws buf cur dest m0 _ _ c3 fits.vaddr_fits (omega arith))
                      λ _ m4 c4.
                        Returns-bind
                          (field64-Copying p laws buf cur dest m0 _ _ c4 fits.paddr_fits
                            (omega arith))
                          λ _ m5 c5.
                            Returns-bind
                              (field64-Copying p laws buf cur dest m0 _ _ c5 fits.filesz_fits
                                (omega arith))
                              λ _ m6 c6.
                                Returns-bind
                                  (field64-Copying p laws buf cur dest m0 _ _ c6 fits.memsz_fits
                                    (omega arith))
                                  λ _ m7 c7.
                                    Returns-bind
                                      (field64-Copying p laws buf cur dest m0 {rest = []} _ _ c7
                                        fits.align_fits (omega arith))
                                      λ _ m8 c8. returns (record {
                                        result = ap (λ c. (dest, c)) c8.cursor;
                                        fields = rw c8.copied (
                                            PhdrAt-Holds (store_list m0.mem dest (encode_phdr h))
                                              dest h fits
                                              (Holds-store_list m0.mem dest (encode_phdr h)
                                                (phdr_bytes h)));
                                        taken =
                                            Taken-block 64 m _
                                              (rw c8.copied
                                                (store_list-SameBelow m0.mem dest (encode_phdr h)))
                                              c8.same_heaps;
                                      }))
