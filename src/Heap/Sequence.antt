-- ===== src/Heap/Sequence.antt =====
-- Any sequence of requests to `malloc`: the blocks that are granted lie in the heap and apart.
use lappis.Base.{
  All, List, [], ap, arith, inl, inr, refl, suc, zero, ℕ, ◌+◌, ◌<◌, ◌^◌, ◌∙◌, ◌∷◌, ◌≡◌, ◌≢◌, ◌≤◌,
}
use lappis.Heap.{malloc, null}
use lappis.Heap.Alloc.{IsHeap, malloc_lem}
use lappis.Machine.{Cmd, Machine, Returns, Returns-bind, pure, returns, ◌>>=◌}

-- A granted block: where it starts and how long it is.
abbrev pub Block : Type 0
Block = ℕ × ℕ

abbrev keep : ℕ → ℕ → List Block → List Block
keep zero size bs = bs
keep (suc ptr) size bs = (suc ptr, size) ∷ bs

-- The requests in order, with the blocks that they were granted, first to last.
pub request_all : List ℕ → Cmd (List Block)
request_all [] = pure []
request_all (size ∷ sizes) = do ptr ← malloc size; bs ← request_all sizes; pure (keep ptr size bs)

-- Each block lies from `lo` on and below `hi`, and in order behind the one before it.
abbrev pub Apart : ℕ → ℕ → List Block → Type 0
Apart lo hi [] = lo ≤ hi
Apart lo hi ((ptr, size) ∷ bs) = (lo ≤ ptr) × (ptr + size < hi) × Apart (ptr + size) hi bs

-- The requests are so small that no end wraps.
abbrev pub Small : ℕ → List ℕ → Type 0
Small limit = All (λ size. size + limit < 2 ^ 64)

Apart-keep :
    (lo hi ptr size : ℕ) (bs : List Block)
    → ptr ≢ null
    → lo ≤ ptr
    → ptr + size < hi
    → Apart (ptr + size) hi bs
    → Apart lo hi (keep ptr size bs)
Apart-keep lo hi zero size bs some_ptr le lt h = absurd (some_ptr refl)
Apart-keep lo hi (suc ptr) size bs some_ptr le lt h = (le, lt, h)

-- What a sequence of requests leaves.
abbrev pub Granted : Machine → List Block → Machine → Type 0
Granted m bs m' = IsHeap m' × (m'.heap_end ≡ m.heap_end) × Apart m.heap_current m.heap_end bs

-- Whatever the sizes, the blocks that a sequence of calls of `malloc` is granted follow one
-- another without overlap between `heap_current` and `heap_end`, and the heap stays well formed;
-- each size is so small that no end wraps.
pub request_all-Apart :
    (sizes : List ℕ) {m : Machine}
    → IsHeap m
    → Small m.heap_end sizes
    → Returns (Granted m) (request_all sizes m)
unfolding request_all
request_all-Apart [] v small = returns (v, refl, v.below_end)
request_all-Apart (size ∷ sizes) {m} v small =
    Returns-bind (malloc_lem size v (omega arith)) λ ptr m' out. elim out [
      | inl got ↦
          Returns-bind (request_all-Apart sizes got.valid (rw got.same_end small.1))
            λ bs m'' (valid, same_end, apart). returns (
              valid,
              same_end ∙ got.same_end,
              Apart-keep m.heap_current m.heap_end ptr size bs got.not_null (omega arith)
                  (omega arith) (rw (got.current, got.same_end) at apart),
            )
      | inr refused ↦
          let e = refused.unchanged in
          Returns-bind (request_all-Apart sizes {m = m'} (rw e (omega arith)) (rw e small.1))
            λ bs m'' (valid, same_end, apart).
              rw refused.null_result
                (returns (valid, same_end ∙ ap (λ r. r.heap_end) e, rw e at apart))
    ]
