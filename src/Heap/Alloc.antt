-- ===== src/Heap/Alloc.antt =====
-- What one call of `malloc` does, on every branch.
use lappis.Base.{
  [], add64, arith, false, if◌then◌else◌, inl, inr, leb, ltb, ltb-cases, refl, true, ℕ, ◌&&◌, ◌+◌,
  ◌<◌, ◌^◌, ◌∷◌, ◌≡◌, ◌≢◌, ◌≤◌, ◌⊎◌,
}
use lappis.Heap.{after_malloc, init_heap, malloc, null}
use lappis.Machine.{Machine, Platform, Returns, error_msg, ok, returns}
use lappis.Machine.Memory.{fill_lem}

-- The kernel heap is an interval of 64-bit addresses that does not contain NULL.
pub record IsHeap (m : Machine) : Type 0 where
  pub not_null : 0 < m.heap_start
  pub started : m.heap_start ≤ m.heap_current
  pub below_end : m.heap_current ≤ m.heap_end
  pub addressable : m.heap_end < 2 ^ 64

-- `size` bytes are left.
abbrev pub Fits : ℕ → Machine → Type 0
Fits size m = m.heap_current + size < m.heap_end

pub malloc-ok :
    (size : ℕ) (m : Machine)
    → m.heap_end < 2 ^ 64
    → Fits size m
    → malloc size m ≡ ok m.heap_current (after_malloc size m)
unfolding malloc
malloc-ok size m small fits = ground arith

-- What a granted request leaves: `ptr` starts a block of zeros behind the blocks granted before.
pub record Allocated (size : ℕ) (m : Machine) (ptr : ℕ) (m' : Machine) : Type 0 where
  pub fits : Fits size m
  pub not_null : ptr ≢ null
  pub start : ptr ≡ m.heap_current
  pub valid : IsHeap m'
  pub current : m'.heap_current ≡ ptr + size
  pub same_end : m'.heap_end ≡ m.heap_end
  pub contents : (a : ℕ) → m'.mem a ≡ (if leb ptr a && ltb a (ptr + size) then 0 else m.mem a)
  pub trace : m'.trace ≡ m.trace

-- What a refused request leaves: NULL and a message.
pub record Refused (size : ℕ) (m : Machine) (ptr : ℕ) (m' : Machine) : Type 0 where
  pub full : m.heap_end ≤ m.heap_current + size
  pub null_result : ptr ≡ null
  pub unchanged : m' ≡ record m {
    trace =
        error_msg "Out of heap memory, cur: %p, size: %d, heap_end: %p"
          (m.heap_current ∷ size ∷ m.heap_end ∷ [])
        ∷ m.trace;
  }

-- For a request whose end is a 64-bit address, `malloc` returns either a block of `size` zeros
-- that lies between `heap_current` and `heap_end`, is not NULL, changes no byte outside itself and
-- emits nothing, or, where fewer than `size + 1` bytes are left, NULL with one error message and no
-- other change.
pub malloc_lem :
    (size : ℕ) {m : Machine}
    → IsHeap m
    → m.heap_current + size < 2 ^ 64
    → Returns (λ ptr m'. Allocated size m ptr m' ⊎ Refused size m ptr m') (malloc size m)
unfolding malloc
malloc_lem size {m} v no_wrap = elim (ltb-cases (m.heap_current + size) m.heap_end) [
  | inl (t, fits) ↦
      let room : leb m.heap_end (add64 m.heap_current size) ≡ false = ground arith in
      let inside : ltb m.heap_end (m.heap_current + size) ≡ false = ground arith in
      rw (room, inside)
        (returns (
          inl (record {
            fits = fits;
            not_null = ground arith;
            start = refl;
            valid = omega arith;
            current = omega arith;
            same_end = refl;
            contents = λ a. fill_lem m.mem m.heap_current size 0 a;
            trace = refl;
          })))
  | inr (t, full) ↦
      let none_left : leb m.heap_end (add64 m.heap_current size) ≡ true = ground arith in
      rw none_left (returns (inr (record { full = full; null_result = refl; unchanged = refl })))
]

-- `init_heap` establishes the invariant, with the whole region free, where the linker's data
-- region is longer than the 1 MiB that it skips.
pub init_heap-IsHeap :
    (p : Platform) (m : Machine)
    → p.kernel_data + 0x100000 ≤ p.kernel_data_end
    → p.kernel_data_end < 2 ^ 64
    → Returns (λ _ m'. IsHeap m' × (m'.heap_current ≡ m'.heap_start)) (init_heap p m)
unfolding init_heap
init_heap-IsHeap p m room small = returns (omega arith, refl)
