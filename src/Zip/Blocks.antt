-- ===== src/Zip/Blocks.antt =====
-- Blocks that the reader allocates and fills: the states after `malloc` and after `read`.
use lappis.Base.{List, ap, arith, length, ℕ, ◌+◌, ◌<◌, ◌^◌, ◌∙◌, ◌≡◌, ◌≤◌}
use lappis.Heap.{malloc}
use lappis.Heap.Alloc.{malloc-ok}
use lappis.Heap.Userland.{MemcpyCopies, memcpy-ok}
use lappis.Machine.{Machine, Mem, Platform, ok}
use lappis.Machine.Memory.{
  Holds-same, SameBelow, SameBelow-trans, bytes_at-eq_of_Holds, fill, fill-SameBelow, store_list,
  store_list-SameBelow,
}
use lappis.Zip.Bytes.{At, skip_bytes_lem}
use lappis.Zip.Cursor.{read}

-- The state after a granted request, with the plain sum for the new `heap_current`.
abbrev pub granted : ℕ → Machine → Machine
granted size m = record m {
  mem = fill m.mem m.heap_current size 0;
  heap_current = m.heap_current + size;
}

-- The bounds of the heaps that no request of the kernel moves.
abbrev pub fixed_bounds : Machine → ℕ × ℕ × ℕ × ℕ
fixed_bounds m = (m.heap_start, m.userland_heap_start, m.userland_heap_current, m.userland_heap_end)

abbrev pub stored : ℕ → List ℕ → Machine → Machine
stored dest bytes m = record m { mem = store_list m.mem dest bytes }

-- The state after a block of `size` bytes was allocated and the bytes were read into it.
abbrev pub block : ℕ → List ℕ → Machine → Machine
block size bytes m = stored m.heap_current bytes (granted size m)

pub malloc-granted :
    (size : ℕ) (m : Machine)
    → m.heap_end < 2 ^ 64
    → m.heap_current + size < m.heap_end
    → malloc size m ≡ ok m.heap_current (granted size m)
malloc-granted size m small fits =
    malloc-ok size m small fits
    ∙ ap
        (λ c.
          ok m.heap_current (record m { mem = fill m.mem m.heap_current size 0; heap_current = c }))
        (omega arith)

pub block-SameBelow :
    (size : ℕ) (bytes : List ℕ) (m : Machine)
    → SameBelow m.mem (block size bytes m).mem m.heap_current
block-SameBelow size bytes m =
    SameBelow-trans m.mem (granted size m).mem (block size bytes m).mem m.heap_current
      (fill-SameBelow m.mem m.heap_current size 0)
      (store_list-SameBelow (granted size m).mem m.heap_current bytes)

-- What stands in memory below an address that the change starts at stays there.
pub At-SameBelow :
    (m m' : Mem) (buf cur h : ℕ) (bytes : List ℕ)
    → SameBelow m m' h
    → buf + cur + length bytes ≤ h
    → At m buf cur bytes
    → At m' buf cur bytes
At-SameBelow m m' buf cur h bytes same le =
    Holds-same m m' (buf + cur) bytes (λ a lo hi. same a (omega arith))

module _ (p : Platform) (laws : MemcpyCopies p) where
  pub read_lem :
      (buf cur dest : ℕ) (bytes : List ℕ) (m : Machine)
      → At m.mem buf cur bytes
      → cur + length bytes < 2 ^ 64
      → read p buf (length bytes) cur dest m ≡ ok (cur + length bytes) (stored dest bytes m)
  unfolding read
  read_lem buf cur dest bytes m h room = rw (
    memcpy-ok p laws dest (buf + cur) (length bytes) m,
    bytes_at-eq_of_Holds m.mem (buf + cur) bytes h,
    skip_bytes_lem cur (length bytes) room,
  )
