-- ===== src/Zip/LocalFile.antt =====
-- `read_local_file` reads a file into three fresh blocks and the caller's `file_t`.
pub mod Entry
use lappis.Base.{
  List, ap, arith, le_bytes, length, ne→==, refl, true, ℕ, ◌++◌, ◌+◌, ◌<◌, ◌^◌, ◌∙◌, ◌≡◌, ◌≤◌,
}
use lappis.Heap.Userland.{MemcpyCopies}
use lappis.Keyboard.Buffer.{contents}
use lappis.Machine.{Machine, Platform, ok}
use lappis.Machine.Memory.{
  SameBelow, SameBelow-le, SameBelow-trans, fill-SameBelow, store, store_list,
}
use lappis.Zip.{local_blocks, local_header, read_local_file}
use lappis.Zip.Archive.{LocalFile, LocalFits, local_body}
use lappis.Zip.Blocks.{
  At-SameBelow, block, block-SameBelow, fixed_bounds, granted, malloc-granted, read_lem,
}
use lappis.Zip.Bytes.{At, read_uint16_lem, read_uint32-cursor, read_uint32_lem}
use lappis.Zip.Cursor.{skip_bytes, skip_local_fixed}
use lappis.Zip.Parts.{length-local_body, local_parts}

-- The blocks of the name, with its terminator, of the extra fields and of the contents.
abbrev pub name_at : Machine → ℕ
name_at m = m.heap_current

abbrev pub extra_at : LocalFile → Machine → ℕ
extra_at e m = m.heap_current + (length e.name + 1)

abbrev pub contents_at : LocalFile → Machine → ℕ
contents_at e m = m.heap_current + (length e.name + 1) + length e.extra

abbrev pub end_at : LocalFile → Machine → ℕ
end_at e m = m.heap_current + (length e.name + 1) + length e.extra + length e.contents

with_name : LocalFile → Machine → Machine
with_name e m =
    let m1 = block (length e.name + 1) e.name m in
    record m1 { mem = store m1.mem (m.heap_current + length e.name) 0 }

with_extra : LocalFile → Machine → Machine
with_extra e m = block (length e.extra) e.extra (with_name e m)

with_contents : LocalFile → Machine → Machine
with_contents e m = block (length e.contents) e.contents (with_extra e m)

-- The bytes of a `file_t`.
abbrev pub file_bytes : ℕ → ℕ → ℕ → List ℕ
file_bytes name contents size = le_bytes 8 name ++ (le_bytes 8 contents ++ le_bytes 4 size)

pub after_local : ℕ → LocalFile → Machine → Machine
after_local file e m =
    let m1 = with_contents e m in
    record m1 {
      mem =
          store_list
            (store_list (store_list m1.mem file (le_bytes 8 (name_at m))) (file + 8)
              (le_bytes 8 (contents_at e m)))
            (file + 16) (le_bytes 4 (length e.contents));
    }

with_name-SameBelow :
    (e : LocalFile) (m : Machine) → SameBelow m.mem (with_name e m).mem m.heap_current
unfolding with_name store
with_name-SameBelow e m a below = ground (arith, block-SameBelow (length e.name + 1) e.name m a)

with_extra-SameBelow :
    (e : LocalFile) (m : Machine)
    → SameBelow (with_name e m).mem (with_extra e m).mem (extra_at e m)
unfolding with_extra with_name
with_extra-SameBelow e m = block-SameBelow (length e.extra) e.extra (with_name e m)

with_contents-SameBelow :
    (e : LocalFile) (m : Machine)
    → SameBelow (with_extra e m).mem (with_contents e m).mem (contents_at e m)
unfolding with_contents with_extra with_name
with_contents-SameBelow e m = block-SameBelow (length e.contents) e.contents (with_extra e m)

module _ (p : Platform) (laws : MemcpyCopies p) (buf : ℕ) where
  pub local_header_lem :
      (cur : ℕ) (e : LocalFile) (m : Machine)
      → LocalFits e
      → At m.mem buf cur (local_body e)
      → cur + length (local_body e) < 2 ^ 64
      → local_header p m.mem buf cur ≡ (length e.contents, length e.name, length e.extra, cur + 26)
  unfolding local_header
  local_header_lem cur e m fits h room =
      let size = length-local_body e fits in
      let parts = local_parts m.mem buf cur e fits h in
      let start : skip_local_fixed cur ≡ cur + 14 = omega arith in
      let at0 : skip_bytes (cur + 14) 4 ≡ cur + 18 = omega arith in
      let e1 =
        read_uint32_lem p laws m.mem buf (cur + 18) (length e.contents) parts.size fits.contents
          (omega arith) in
      let at1 : cur + 18 + 4 ≡ cur + 22 = omega arith in
      let e2 =
        read_uint16_lem p laws m.mem buf (cur + 22) (length e.name) parts.name_length fits.name
          (omega arith) in
      let at2 : cur + 22 + 2 ≡ cur + 24 = omega arith in
      let e3 =
        read_uint16_lem p laws m.mem buf (cur + 24) (length e.extra) parts.extra_length fits.extra
          (omega arith) in
      let at3 : cur + 24 + 2 ≡ cur + 26 = omega arith in
      rw (start, read_uint32-cursor p m.mem buf (cur + 14), at0, e1, at1, e2, at2, e3, at3)

  pub local_blocks_ok :
      (cur file : ℕ) (e : LocalFile) (m : Machine)
      → At m.mem buf cur e.name
      → At m.mem buf (cur + length e.name) e.extra
      → At m.mem buf (cur + length e.name + length e.extra) e.contents
      → cur + length e.name + length e.extra + length e.contents < 2 ^ 64
      → buf + (cur + length e.name + length e.extra + length e.contents) ≤ m.heap_current
      → 0 < m.heap_current
      → end_at e m < m.heap_end
      → m.heap_end < 2 ^ 64
      → local_blocks p buf file (length e.contents, length e.name, length e.extra, cur) m
        ≡ ok (true, cur + length e.name + length e.extra + length e.contents) (after_local file e m)
  unfolding local_blocks after_local with_contents with_extra with_name
  local_blocks_ok cur file e m name extra contents room apart pos space small =
      let a1 = malloc-granted (length e.name + 1) m small (omega arith) in
      let n1 = ne→== m.heap_current 0 (omega arith) in
      let r1 =
        read_lem p laws buf cur m.heap_current e.name (granted (length e.name + 1) m)
          (At-SameBelow m.mem _ buf cur m.heap_current e.name
            (fill-SameBelow m.mem m.heap_current (length e.name + 1) 0) (omega arith) name)
          (omega arith) in
      let m1 = with_name e m in
      let same1 = with_name-SameBelow e m in
      let a2 = malloc-granted (length e.extra) m1 small (omega arith) in
      let n2 = ne→== (extra_at e m) 0 (omega arith) in
      let r2 =
        read_lem p laws buf (cur + length e.name) (extra_at e m) e.extra
          (granted (length e.extra) m1)
          (At-SameBelow m.mem _ buf (cur + length e.name) m.heap_current e.extra
            (SameBelow-trans m.mem m1.mem _ m.heap_current same1 (
              SameBelow-le m1.mem _ (extra_at e m) m.heap_current (omega arith)
                (fill-SameBelow m1.mem (extra_at e m) (length e.extra) 0)))
            (omega arith) extra)
          (omega arith) in
      let m2 = with_extra e m in
      let same2 = SameBelow-trans m.mem m1.mem m2.mem m.heap_current same1 (
        SameBelow-le m1.mem m2.mem (extra_at e m) m.heap_current (omega arith)
          (with_extra-SameBelow e m)) in
      let a3 = malloc-granted (length e.contents) m2 small (omega arith) in
      let n3 = ne→== (contents_at e m) 0 (omega arith) in
      let r3 =
        read_lem p laws buf (cur + length e.name + length e.extra) (contents_at e m) e.contents
          (granted (length e.contents) m2)
          (At-SameBelow m.mem _ buf (cur + length e.name + length e.extra) m.heap_current e.contents
            (SameBelow-trans m.mem m2.mem _ m.heap_current same2 (
              SameBelow-le m2.mem _ (contents_at e m) m.heap_current (omega arith)
                (fill-SameBelow m2.mem (contents_at e m) (length e.contents) 0)))
            (omega arith) contents)
          (omega arith) in
      rw (a1, n1, r1, a2, n2, r2, a3, n3, r3)

  -- The whole of `read_local_file` on an encoded file.
  pub read_local_file_ok :
      (cur file : ℕ) (e : LocalFile) (m : Machine)
      → LocalFits e
      → At m.mem buf cur (local_body e)
      → cur + length (local_body e) < 2 ^ 64
      → buf + cur + length (local_body e) ≤ m.heap_current
      → 0 < m.heap_current
      → end_at e m < m.heap_end
      → m.heap_end < 2 ^ 64
      → read_local_file p buf cur file m
        ≡ ok (true, cur + length (local_body e)) (after_local file e m)
  unfolding read_local_file
  read_local_file_ok cur file e m fits h room apart pos space small =
      let size = length-local_body e fits in
      let parts = local_parts m.mem buf cur e fits h in
      rw (local_header_lem cur e m fits h room) (
        local_blocks_ok (cur + 26) file e m parts.name parts.extra parts.contents (omega arith)
          (omega arith) pos space small
        ∙ ap (λ c. ok (true, c) (after_local file e m)) (omega arith))

pub heap_current-after_local :
    (file : ℕ) (e : LocalFile) (m : Machine)
    → ((after_local file e m).heap_current ≡ end_at e m)
      × ((after_local file e m).heap_end ≡ m.heap_end)
      × ((after_local file e m).trace ≡ m.trace)
      × (fixed_bounds (after_local file e m) ≡ fixed_bounds m)
unfolding after_local with_contents with_extra with_name
heap_current-after_local file e m = (refl, refl, refl, refl)
