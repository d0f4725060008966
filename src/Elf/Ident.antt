-- ===== src/Elf/Ident.antt =====
-- The 16 bytes of `e_ident`, and the whole of `parse_elf_header`.
use mathlib.Core.Path.{subst}
use lappis.Base.{List, [], ap, ap₂, arith, length, refl, ℕ, ◌++◌, ◌+◌, ◌<◌, ◌^◌, ◌∙◌, ◌∷◌, ◌≡◌, ◌≤◌}
use lappis.Elf.{elfclass64, elfmag, ident_byte, parse_elf_header, parse_ident, same_list}
use lappis.Elf.Copy.{Taken, heaps}
use lappis.Elf.Fields.{FieldsAt, FieldsAt-Holds, encoded_bytes}
use lappis.Elf.Header.{Ehdr, FieldsFit, encode_fields, header_fields_lem}
use lappis.Heap.Userland.{MemcpyCopies}
use lappis.Machine.{Machine, Mem, Platform, Returns, Returns-bind, returns}
use lappis.Machine.Memory.{
  Holds-store_list, SameBelow, SameBelow-le, SameBelow-trans, fill, fill-SameBelow, fill_lem, store,
  store_list, store_list-SameBelow,
}
use lappis.Zip.Blocks.{At-SameBelow, granted, malloc-granted}
use lappis.Zip.Bytes.{At, At-append, read_local-At}
use lappis.Zip.Cursor.{read_uint8}

-- What stands in `e_ident` behind the magic number and the class.
pub record Ident : Type 0 where
  pub endianess : ℕ
  pub elf_version : ℕ
  pub os_abi : ℕ
  pub abi_version : ℕ
  pub padding : List ℕ

abbrev pub from_class : Ident → List ℕ
from_class i = elfclass64 ∷ i.endianess ∷ i.elf_version ∷ i.os_abi ∷ i.abi_version ∷ i.padding

-- The file's first 64 bytes.
abbrev pub encode_ehdr : Ident → Ehdr → List ℕ
encode_ehdr i e = (elfmag ++ from_class i) ++ encode_fields e

-- What `parse_ident` leaves.
record Identified (at : ℕ) (m : Machine) (cur : ℕ) (m' : Machine) : Type 0 where
  cursor : cur ≡ 16
  class : m'.mem (at + 4) ≡ elfclass64
  below : SameBelow m.mem m'.mem at
  kept : heaps m' ≡ heaps m

-- What `parse_elf_header` leaves.
pub record HeaderParsed (e : Ehdr) (m : Machine) (out : ℕ × ℕ) (m' : Machine) : Type 0 where
  pub result : out ≡ (m.heap_current + 16, 64)
  pub fields : FieldsAt m'.mem (m.heap_current + 16) e
  pub taken : Taken 80 m m'

stored_head : (m : Mem) (p n v : ℕ) → SameBelow m (store (fill m p n 0) p v) p
unfolding store
stored_head m p n v a lt = ground (arith, fill_lem m p n 0 a)

-- The state behind the fields.
header_done :
    (e : Ehdr) (m m1 m3 m4 : Machine) (cur : ℕ)
    → FieldsFit e
    → heaps m1 ≡ heaps (granted 16 m)
    → heaps m3 ≡ heaps (granted 64 m1)
    → SameBelow m.mem m3.mem m.heap_current
    → cur ≡ 64
    → m4.mem ≡ store_list m3.mem (m1.heap_current + 16) (encode_fields e)
    → heaps m4 ≡ heaps m3
    → HeaderParsed e m (m1.heap_current, cur) m4
header_done e m m1 m3 m4 cur fits kept1 kept3 same at copied kept4 =
    let at1 : m1.heap_current ≡ m.heap_current + 16 = ap (λ h. h.1) kept1 in
    let kept34 = kept4 ∙ kept3 in
    let block = m1.heap_current + 16 in
    record {
      result = ap₂ (λ a b. (a, b)) at1 at;
      fields =
          subst (λ q. FieldsAt m4.mem q e) at1
            (rw copied (
              FieldsAt-Holds (store_list m3.mem block (encode_fields e)) m1.heap_current e fits
                (Holds-store_list m3.mem block (encode_fields e) (encoded_bytes e))));
      taken = record {
        same = rw copied (
            SameBelow-trans m.mem m3.mem (store_list m3.mem block (encode_fields e)) m.heap_current
              same
              (SameBelow-le m3.mem (store_list m3.mem block (encode_fields e)) block m.heap_current
                (omega (arith, at1)) (store_list-SameBelow m3.mem block (encode_fields e))));
        start = ap (λ h. h.0) kept34 ∙ ap (λ h. h.0) kept1;
        current = ap (λ h. h.1) kept34 ∙ omega (arith, at1);
        same_end = ap (λ h. h.2) kept34 ∙ ap (λ h. h.2) kept1;
        user_start = ap (λ h. h.3) kept34 ∙ ap (λ h. h.3) kept1;
        user_current = ap (λ h. h.4) kept34 ∙ ap (λ h. h.4) kept1;
        user_end = ap (λ h. h.5) kept34 ∙ ap (λ h. h.5) kept1;
      };
    }

module _ (p : Platform) (laws : MemcpyCopies p) (buf : ℕ) where
  parse_ident_lem :
      (at : ℕ) (i : Ident) (m : Machine)
      → At m.mem buf 0 (elfmag ++ from_class i)
      → buf + 16 ≤ at
      → Returns (Identified at m) (parse_ident p buf 0 at m)
  unfolding parse_ident ident_byte read_uint8 same_list store
  parse_ident_lem at i m h below =
      let (magic, behind) = At-append m.mem buf 0 elfmag (from_class i) h in
      let stored_magic = store_list m.mem at elfmag in
      let class : At stored_magic buf 4 (elfclass64 ∷ []) =
        (store_list-SameBelow m.mem at elfmag (buf + 4) (omega (arith, below)) ∙ behind.0, tt) in
      rw
        (
          read_local-At p laws m.mem buf 0 elfmag magic,
          read_local-At p laws stored_magic buf 4 (elfclass64 ∷ []) class,
        )
        (returns (record {
          cursor = refl;
          class = ground arith;
          below = λ a lt. ground (arith, store_list-SameBelow m.mem at elfmag a);
          kept = refl;
        }))

  -- `parse_elf_header` of a 64-bit file returns its header, in a block of the heap, and leaves the
  -- cursor behind it.
  pub parse_elf_header_lem :
      (i : Ident) (e : Ehdr) (m : Machine)
      → length i.padding ≡ 7
      → FieldsFit e
      → At m.mem buf 0 (encode_ehdr i e)
      → buf + 64 ≤ m.heap_current
      → m.heap_current + 80 < m.heap_end
      → m.heap_end < 2 ^ 64
      → Returns (HeaderParsed e m) (parse_elf_header p buf 0 m)
  unfolding parse_elf_header
  parse_elf_header_lem i e m padded fits h below room addressable =
      let lo = m.heap_current in
      let m0 = granted 16 m in
      let same0 : SameBelow m.mem m0.mem lo = fill-SameBelow m.mem lo 16 0 in
      let (ident, behind) = At-append m.mem buf 0 (elfmag ++ from_class i) (encode_fields e) h in
      let fields : At m.mem buf 16 (encode_fields e) =
        subst (λ n. At m.mem buf n (encode_fields e)) (omega (arith, padded)) behind in
      rw (malloc-granted 16 m addressable (omega (arith, room))) (
        Returns-bind
          (parse_ident_lem lo i m0
            (At-SameBelow m.mem m0.mem buf 0 lo (elfmag ++ from_class i) same0
              (omega (arith, padded, below)) ident)
            (omega (arith, below)))
          λ cur1 m1 known.
            let at1 : m1.heap_current ≡ lo + 16 = ap (λ h. h.1) known.kept in
            let end1 : m1.heap_end ≡ m.heap_end = ap (λ h. h.2) known.kept in
            let m2 = granted 64 m1 in
            let m3 = record m2 { mem = store m2.mem m1.heap_current (m2.mem lo) } in
            let same3 : SameBelow m1.mem m3.mem m1.heap_current =
              stored_head m1.mem m1.heap_current 64 (m2.mem lo) in
            let same : SameBelow m.mem m3.mem lo = SameBelow-trans m.mem m0.mem m3.mem lo same0 (
              SameBelow-trans m0.mem m1.mem m3.mem lo known.below
                (SameBelow-le m1.mem m3.mem m1.heap_current lo (omega (arith, at1)) same3)) in
            rw
              (
                known.class,
                malloc-granted 64 m1 (omega (arith, end1, addressable))
                    (omega (arith, end1, at1, room)),
                known.cursor,
              )
              (Returns-bind
                (header_fields_lem p buf 16 m1.heap_current e m3 laws fits
                  (At-SameBelow m.mem m3.mem buf 16 lo (encode_fields e) same (omega (arith, below))
                    fields)
                  (omega (arith, at1, below)) (omega arith))
                λ cur2 m4 (at4, copied, kept).
                  returns (header_done e m m1 m3 _ cur2 fits known.kept refl same at4 copied kept)))
