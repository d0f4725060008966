-- ===== src/Zip/Read/Step.antt =====
-- One round of the loop of `read_zip` at a local file.
use lappis.Base.{
  All, All-le_bytes, List, add32, arith, inl, le_bytes, length, lt→ltb, ne→==, suc, ℕ, ◌*◌, ◌++◌,
  ◌+◌, ◌<◌, ◌^◌, ◌∙◌, ◌≡◌, ◌≤◌, ◌⊎◌,
}
use lappis.Heap.Userland.{MemcpyCopies}
use lappis.Machine.{Machine, Platform}
use lappis.Machine.Memory.{
  Holds, Holds-store_list, fill-SameBelow, store_list, store_list-above, store_list_outside,
}
use lappis.Zip.{read_sections}
use lappis.Zip.Archive.{LocalFile, LocalFits, encode_section, local_body, local_file}
use lappis.Zip.Blocks.{At-SameBelow, fixed_bounds, granted, malloc-granted}
use lappis.Zip.Bytes.{At, At-append, read_tag}
use lappis.Zip.Cursor.{is_local_file_header, sizeof_file, sizeof_pointer}
use lappis.Zip.LocalFile.{after_local, end_at, heap_current-after_local, read_local_file_ok}
use lappis.Zip.LocalFile.Entry.{
  FileWithin, FileWithin-same, FileWithin-widen, IsByte, after_local-FileWithin, after_local-below,
}

-- The bytes that a file takes of the heap: `file_t`, name, extra fields and contents.
abbrev pub local_cost : LocalFile → ℕ
local_cost e = 24 + (length e.name + 1) + length e.extra + length e.contents

-- The machine after the round.
pub loaded : ℕ → ℕ → LocalFile → Machine → Machine
loaded files k e m =
    let m2 = after_local m.heap_current e (granted sizeof_file m) in
    record m2 { mem = store_list m2.mem (files + 8 * k) (le_bytes sizeof_pointer m.heap_current) }

-- What the round leaves: slot `k` of the array leads to the file, and no byte below the new blocks
-- has changed but for that slot.
pub record LoadedOne (files k lo : ℕ) (e : LocalFile) (m m' : Machine) : Type 0 where
  pub slot : Holds m'.mem (files + 8 * k) (le_bytes 8 m.heap_current)
  pub file : FileWithin lo m'.heap_current m'.mem m.heap_current e
  pub same :
      (a : ℕ)
      → a < m.heap_current
      → (a < files + 8 * k) ⊎ (files + 8 * k + 8 ≤ a)
      → m'.mem a ≡ m.mem a
  pub current : m'.heap_current ≡ m.heap_current + local_cost e
  pub same_end : m'.heap_end ≡ m.heap_end
  pub trace : m'.trace ≡ m.trace
  pub bounds : fixed_bounds m' ≡ fixed_bounds m

module _ (files k lo : ℕ) (e : LocalFile) (m : Machine) (slots : files + 8 * k + 8 ≤ lo)
    (below : lo ≤ m.heap_current) (name_bytes : All IsByte e.name)
    (contents_bytes : All IsByte e.contents) where
  pub loaded-LoadedOne : LoadedOne files k lo e m (loaded files k e m)
  unfolding loaded
  loaded-LoadedOne =
      let file = m.heap_current in
      let m1 = granted sizeof_file m in
      let m2 = after_local file e m1 in
      let (current, same_end, trace, bounds) = heap_current-after_local file e m1 in
      let pointer = le_bytes 8 file in
      record {
        slot = Holds-store_list m2.mem (files + 8 * k) pointer (All-le_bytes 8 file);
        file = FileWithin-widen lo (end_at e m1) m2.heap_current _ file e (omega arith) (
            FileWithin-same lo (end_at e m1) m2.mem _ file e
              (λ a lo' hi'. store_list-above m2.mem (files + 8 * k) pointer a (omega arith))
              (after_local-FileWithin file e m1 (omega arith) name_bytes contents_bytes lo below));
        same = λ a lt apart.
            store_list_outside m2.mem (files + 8 * k) pointer a (ground arith)
            ∙ after_local-below file e m1 (omega arith) name_bytes contents_bytes a (omega arith)
                (inl lt)
            ∙ fill-SameBelow m.mem file sizeof_file 0 a lt;
        current = omega arith;
        same_end = same_end;
        trace = trace;
        bounds = bounds;
      }

module _ (p : Platform) (laws : MemcpyCopies p) (buf : ℕ) where
  pub local_step :
      (f len files k cur : ℕ) (e : LocalFile) (rest : List ℕ) (m : Machine)
      → LocalFits e
      → At m.mem buf cur (encode_section (local_file e) ++ rest)
      → cur + (4 + length (local_body e)) < 2 ^ 64
      → cur < len
      → k < 2 ^ 31
      → buf + cur + 4 + length (local_body e) ≤ m.heap_current
      → 0 < m.heap_current
      → m.heap_current + local_cost e < m.heap_end
      → m.heap_end < 2 ^ 64
      → read_sections p (suc f) buf len files k cur m
        ≡ read_sections p f buf len files
            (k + 1)
            (cur + 4 + length (local_body e))
            (loaded files k e m)
  unfolding read_sections loaded is_local_file_header
  local_step f len files k cur e rest m fits h room more few apart pos space small =
      let m1 = granted sizeof_file m in
      let (tag, kind, at, body) =
        read_tag p laws m.mem buf cur 0x50 0x4b 0x03 0x04 (local_body e ++ rest) h (omega arith) in
      let here = (At-append m.mem buf (cur + 4) (local_body e) rest body).0 in
      let a1 = malloc-granted sizeof_file m small (omega arith) in
      let n1 = ne→== m.heap_current 0 (omega arith) in
      let r1 =
        read_local_file_ok p laws buf (cur + 4) m.heap_current e m1 fits
          (At-SameBelow m.mem m1.mem buf (cur + 4) m.heap_current (local_body e)
            (fill-SameBelow m.mem m.heap_current sizeof_file 0) (omega arith) here)
          (omega arith) (omega arith) (omega arith) (omega arith) small in
      let next : add32 k 1 ≡ k + 1 = omega arith in
      rw (lt→ltb cur len more, tag, kind, at, a1, n1, r1, next)
