-- ===== src/Heap/Userland.antt =====
-- The userland allocator and copy of src/kernel/heap.c, and the SMAP window around their writes.
use lappis.Base.{
  All, List, [], add64, arith, false, if◌then◌else◌, inl, inr, leb, length, ltb, ltb-cases, refl,
  true, ℕ, ◌&&◌, ◌+◌, ◌<◌, ◌^◌, ◌∙◌, ◌∷◌, ◌≡◌, ◌≢◌, ◌≤◌, ◌⊎◌,
}
use lappis.Heap.{memcpy, null, userland_malloc, userland_memcpy}
use lappis.Machine.{
  Machine, Mem, Platform, Returns, clac, error_msg, ok, returns, stac, user_copy, user_fill,
}
use lappis.Machine.Memory.{
  Holds, Written, bytes_at, bytes_at-eq_of_Holds, fill_lem, store_list, store_list-Written,
}

-- The userland heap is an interval of 64-bit addresses that does not contain NULL.
pub record IsUserlandHeap (m : Machine) : Type 0 where
  pub not_null : 0 < m.userland_heap_start
  pub started : m.userland_heap_start ≤ m.userland_heap_current
  pub below_end : m.userland_heap_current ≤ m.userland_heap_end
  pub addressable : m.userland_heap_end < 2 ^ 64

-- What a granted request leaves. The zeroing of the block stands between the
-- setting of AC and its clearing.
pub record UserlandAllocated (size : ℕ) (m : Machine) (ptr : ℕ) (m' : Machine) : Type 0 where
  pub fits : m.userland_heap_current + size < m.userland_heap_end
  pub not_null : ptr ≢ null
  pub start : ptr ≡ m.userland_heap_current
  pub valid : IsUserlandHeap m'
  pub current : m'.userland_heap_current ≡ ptr + size
  pub kernel_current : m'.heap_current ≡ m.heap_current
  pub contents : (a : ℕ) → m'.mem a ≡ (if leb ptr a && ltb a (ptr + size) then 0 else m.mem a)
  pub window : m'.trace ≡ clac ∷ user_fill ptr size ∷ stac ∷ m.trace

pub record UserlandRefused (size : ℕ) (m : Machine) (ptr : ℕ) (m' : Machine) : Type 0 where
  pub full : m.userland_heap_end ≤ m.userland_heap_current + size
  pub null_result : ptr ≡ null
  pub unchanged : m' ≡ record m { trace = error_msg "Out of userland heap memory" [] ∷ m.trace }

-- For a request whose end is a 64-bit address, `userland_malloc` either zeroes and returns the next
-- block of the userland heap, setting AC before the zeroing and clearing it after, and leaves the
-- kernel's heap alone, or, where fewer than `size + 1` bytes are left, returns NULL and only logs.
pub userland_malloc_lem :
    (size : ℕ) {m : Machine}
    → IsUserlandHeap m
    → m.userland_heap_current + size < 2 ^ 64
    → Returns
        (λ ptr m'. UserlandAllocated size m ptr m' ⊎ UserlandRefused size m ptr m')
        (userland_malloc size m)
unfolding userland_malloc
userland_malloc_lem size {m} v no_wrap =
    elim (ltb-cases (m.userland_heap_current + size) m.userland_heap_end) [
      | inl (t, fits) ↦
          let room : leb m.userland_heap_end (add64 m.userland_heap_current size) ≡ false =
            ground arith in
          let inside : ltb m.userland_heap_end (m.userland_heap_current + size) ≡ false =
            ground arith in
          rw (room, inside)
            (returns (
              inl (record {
                fits = fits;
                not_null = ground arith;
                start = refl;
                valid = omega arith;
                current = omega arith;
                kernel_current = refl;
                contents = λ a. fill_lem m.mem m.userland_heap_current size 0 a;
                window = refl;
              })))
      | inr (t, full) ↦
          let none_left : leb m.userland_heap_end (add64 m.userland_heap_current size) ≡ true =
            ground arith in
          rw none_left
            (returns (inr (record { full = full; null_result = refl; unchanged = refl })))
    ]

-- memcpy delivers the bytes of its source.
pub record MemcpyCopies (p : Platform) : Type 0 where
  pub delivers : (m : Mem) (s n : ℕ) → p.copied m s n ≡ bytes_at m s n

module _ (p : Platform) (laws : MemcpyCopies p) where
  pub memcpy-ok :
      (d s n : ℕ) (m : Machine)
      → memcpy p d s n m ≡ ok d (record m { mem = store_list m.mem d (bytes_at m.mem s n) })
  unfolding memcpy
  memcpy-ok d s n m = rw (laws.delivers m.mem s n)

  -- `userland_memcpy` returns its destination, copies the source's bytes there inside a window in
  -- which user access is allowed, changes no byte outside the destination, and closes the window.
  pub userland_memcpy_lem :
      (d s : ℕ) (bs : List ℕ) (m : Machine)
      → Holds m.mem s bs
      → All (λ b. b < 2 ^ 8) bs
      → Returns
          (λ ret m'.
            (ret ≡ d)
            × Written m.mem d bs m'.mem
            × (m'.trace ≡ clac ∷ user_copy d s (length bs) ∷ stac ∷ m.trace))
          (userland_memcpy p d s (length bs) m)
  unfolding userland_memcpy
  userland_memcpy_lem d s bs m held bytes =
      let delivered = laws.delivers m.mem s (length bs) ∙ bytes_at-eq_of_Holds m.mem s bs held in
      rw delivered (returns (refl, store_list-Written m.mem d bs bytes, refl))
