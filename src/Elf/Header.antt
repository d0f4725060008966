-- ===== src/Elf/Header.antt =====
-- The fields of the header, from the file to the block that `parse_elf_header` returns.
use lappis.Base.{List, [], arith, le_bytes, ℕ, ◌++◌, ◌+◌, ◌<◌, ◌^◌, ◌≡◌, ◌≤◌}
use lappis.Elf.{header_fields}
use lappis.Elf.Copy.{Copying-start, field16-Copying, field32-Copying, field64-Copying, heaps}
use lappis.Heap.Userland.{MemcpyCopies}
use lappis.Machine.{Machine, Platform, Returns, Returns-bind, returns}
use lappis.Machine.Memory.{store_list}
use lappis.Zip.Bytes.{At}

-- The header's fields behind `e_ident`.
pub record Ehdr : Type 0 where
  pub e_type : ℕ
  pub e_machine : ℕ
  pub e_version : ℕ
  pub e_entry : ℕ
  pub e_phoff : ℕ
  pub e_shoff : ℕ
  pub e_flags : ℕ
  pub e_ehsize : ℕ
  pub e_phentsize : ℕ
  pub e_phnum : ℕ
  pub e_shentsize : ℕ
  pub e_shnum : ℕ
  pub e_shstrndx : ℕ

-- The bytes they are written as, from each field on: 48 in all, in this order.
abbrev pub from_shstrndx : Ehdr → List ℕ
from_shstrndx e = le_bytes 2 e.e_shstrndx

abbrev pub from_shnum : Ehdr → List ℕ
from_shnum e = le_bytes 2 e.e_shnum ++ from_shstrndx e

abbrev pub from_shentsize : Ehdr → List ℕ
from_shentsize e = le_bytes 2 e.e_shentsize ++ from_shnum e

abbrev pub from_phnum : Ehdr → List ℕ
from_phnum e = le_bytes 2 e.e_phnum ++ from_shentsize e

abbrev pub from_phentsize : Ehdr → List ℕ
from_phentsize e = le_bytes 2 e.e_phentsize ++ from_phnum e

abbrev pub from_ehsize : Ehdr → List ℕ
from_ehsize e = le_bytes 2 e.e_ehsize ++ from_phentsize e

abbrev pub from_flags : Ehdr → List ℕ
from_flags e = le_bytes 4 e.e_flags ++ from_ehsize e

abbrev pub from_shoff : Ehdr → List ℕ
from_shoff e = le_bytes 8 e.e_shoff ++ from_flags e

abbrev pub from_phoff : Ehdr → List ℕ
from_phoff e = le_bytes 8 e.e_phoff ++ from_shoff e

abbrev pub from_entry : Ehdr → List ℕ
from_entry e = le_bytes 8 e.e_entry ++ from_phoff e

abbrev pub from_version : Ehdr → List ℕ
from_version e = le_bytes 4 e.e_version ++ from_entry e

abbrev pub from_machine : Ehdr → List ℕ
from_machine e = le_bytes 2 e.e_machine ++ from_version e

abbrev pub encode_fields : Ehdr → List ℕ
encode_fields e = le_bytes 2 e.e_type ++ from_machine e

pub record FieldsFit (e : Ehdr) : Type 0 where
  pub e_type_fits : e.e_type < 2 ^ 16
  pub e_machine_fits : e.e_machine < 2 ^ 16
  pub e_version_fits : e.e_version < 2 ^ 32
  pub e_entry_fits : e.e_entry < 2 ^ 64
  pub e_phoff_fits : e.e_phoff < 2 ^ 64
  pub e_shoff_fits : e.e_shoff < 2 ^ 64
  pub e_flags_fits : e.e_flags < 2 ^ 32
  pub e_ehsize_fits : e.e_ehsize < 2 ^ 16
  pub e_phentsize_fits : e.e_phentsize < 2 ^ 16
  pub e_phnum_fits : e.e_phnum < 2 ^ 16
  pub e_shentsize_fits : e.e_shentsize < 2 ^ 16
  pub e_shnum_fits : e.e_shnum < 2 ^ 16
  pub e_shstrndx_fits : e.e_shstrndx < 2 ^ 16

-- For a file below the header's block, `header_fields` returns with the cursor behind the 48 bytes
-- of the fields, which now stand behind `e_ident` in the block as they stand in the file, and
-- memory is otherwise unchanged. Every field fits its width, and memcpy copies.
pub header_fields_lem :
    (p : Platform) (buf cur header : ℕ) (e : Ehdr) (m : Machine)
    → MemcpyCopies p
    → FieldsFit e
    → At m.mem buf cur (encode_fields e)
    → buf + cur + 48 ≤ header
    → cur + 48 < 2 ^ 64
    → Returns
        (λ cur' m'.
          (cur' ≡ cur + 48)
          × (m'.mem ≡ store_list m.mem (header + 16) (encode_fields e))
          × (heaps m' ≡ heaps m))
        (header_fields p buf cur header m)
unfolding header_fields
header_fields_lem p buf cur header e m laws fits h below small =
    let start =
      Copying-start p laws buf cur (header + 16) (encode_fields e) m h (omega arith)
        (omega arith) in
    Returns-bind
      (field16-Copying p laws buf cur (header + 16) m _ _ start fits.e_type_fits (omega arith))
      λ _ m1 c1.
        Returns-bind
          (field16-Copying p laws buf cur (header + 16) m _ _ c1 fits.e_machine_fits (omega arith))
          λ _ m2 c2.
            Returns-bind
              (field32-Copying p laws buf cur (header + 16) m _ _ c2 fits.e_version_fits
                (omega arith))
              λ _ m3 c3.
                Returns-bind
                  (field64-Copying p laws buf cur (header + 16) m _ _ c3 fits.e_entry_fits
                    (omega arith))
                  λ _ m4 c4.
                    Returns-bind
                      (field64-Copying p laws buf cur (header + 16) m _ _ c4 fits.e_phoff_fits
                        (omega arith))
                      λ _ m5 c5.
                        Returns-bind
                          (field64-Copying p laws buf cur (header + 16) m _ _ c5 fits.e_shoff_fits
                            (omega arith))
                          λ _ m6 c6.
                            Returns-bind
                              (field32-Copying p laws buf cur (header + 16) m _ _ c6
                                fits.e_flags_fits (omega arith))
                              λ _ m7 c7.
                                Returns-bind
                                  (field16-Copying p laws buf cur (header + 16) m _ _ c7
                                    fits.e_ehsize_fits (omega arith))
                                  λ _ m8 c8.
                                    Returns-bind
                                      (field16-Copying p laws buf cur (header + 16) m _ _ c8
                                        fits.e_phentsize_fits (omega arith))
                                      λ _ m9 c9.
                                        Returns-bind
                                          (field16-Copying p laws buf cur (header + 16) m _ _ c9
                                            fits.e_phnum_fits (omega arith))
                                          λ _ m10 c10.
                                            Returns-bind
                                              (field16-Copying p laws buf cur (header + 16) m _ _
                                                c10 fits.e_shentsize_fits (omega arith))
                                              λ _ m11 c11.
                                                Returns-bind
                                                  (field16-Copying p laws buf cur (header + 16) m _
                                                    _ c11 fits.e_shnum_fits (omega arith))
                                                  λ _ m12 c12.
                                                    Returns-bind
                                                      (field16-Copying p laws buf cur (header + 16)
                                                        m {rest = []} _ _ c12 fits.e_shstrndx_fits
                                                        (omega arith))
                                                      λ _ m13 c13.
                                                        returns
                                                          (c13.cursor, c13.copied, c13.same_heaps)
