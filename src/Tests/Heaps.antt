-- ===== src/Tests/Heaps.antt =====
-- The allocators on a small machine.
use lappis.Base.{[], arith, ◌∷◌, ◌⊎◌}
use lappis.Heap.{malloc, userland_malloc}
use lappis.Heap.Alloc.{Allocated, Refused, malloc_lem}
use lappis.Heap.Sequence.{Granted, request_all, request_all-Apart}
use lappis.Heap.Userland.{IsUserlandHeap, UserlandAllocated, UserlandRefused, userland_malloc_lem}
use lappis.Machine.{Returns}
use lappis.Tests.{IsHeap-machine_with, machine}

malloc_lem_example :
    Returns (λ ptr m'. Allocated 16 machine ptr m' ⊎ Refused 16 machine ptr m') (malloc 16 machine)
malloc_lem_example = malloc_lem 16 {m = machine} (IsHeap-machine_with (λ a. 0)) (omega arith)

request_all-Apart_example : Returns (Granted machine) (request_all (16 ∷ 5000 ∷ 32 ∷ []) machine)
request_all-Apart_example =
    request_all-Apart (16 ∷ 5000 ∷ 32 ∷ []) {m = machine} (IsHeap-machine_with (λ a. 0))
      (omega arith, (omega arith, (omega arith, tt)))

userland_heap : IsUserlandHeap machine
userland_heap = record {
  not_null = omega arith;
  started = omega arith;
  below_end = omega arith;
  addressable = omega arith;
}

userland_malloc_lem_example :
    Returns
      (λ ptr m'. UserlandAllocated 16 machine ptr m' ⊎ UserlandRefused 16 machine ptr m')
      (userland_malloc 16 machine)
userland_malloc_lem_example = userland_malloc_lem 16 {m = machine} userland_heap (omega arith)
