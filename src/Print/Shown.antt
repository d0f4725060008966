-- ===== src/Print/Shown.antt =====
-- `kprintf` always returns, and what it may change.
use lappis.Base.{
  All, List, Option, String, [], arith, inl, inr, length, ne→==, refl, ℕ, ◌++◌, ◌<◌, ◌^◌, ◌∙◌, ◌∷◌,
  ◌≡◌, ◌≤◌,
}
use lappis.Heap.Alloc.{Allocated, IsHeap, malloc_lem}
use lappis.Machine.{Event, Machine, Mem, Platform, Returns, Returns-bind, Returns-mono, returns}
use lappis.Machine.Memory.{SameBelow, store_list, store_list-SameBelow}
use lappis.Print.{kprintf}
use lappis.Strings.Length.{IsCString-stored, IsChar}
use lappis.Video.{Color}
use lappis.Video.Below.{draw_string_lem}

-- vsnprintf stores a text of fewer than `n` characters, and its NUL.
pub record FormatTerminates (p : Platform) : Type 0 where
  pub text_of :
      (m : Mem) (n : ℕ) (text : String) (args : List ℕ)
      → 0 < n
      → (cs : List ℕ) × (p.format m n text args ≡ cs ++ 0 ∷ []) × All IsChar cs × (length cs < n)

-- The heap lies below the frame buffer, and a string of 7 characters can be followed.
pub record IsScreen (p : Platform) (m : Machine) : Type 0 where
  pub heap_below : m.heap_end ≤ p.frame_buffer
  pub addressable : p.frame_buffer < 2 ^ 63
  pub rounds : 8 < p.rounds

-- What printing may do to the machine: the heap stays well formed and in its place, and below what
-- was free of it nothing changes.
pub record Drew (m m' : Machine) : Type 0 where
  pub valid : IsHeap m'
  pub same_end : m'.heap_end ≡ m.heap_end
  pub grown : m.heap_current ≤ m'.heap_current
  pub below : SameBelow m.mem m'.mem m.heap_current

pub Drew-trans : (m m' m'' : Machine) → Drew m m' → Drew m' m'' → Drew m m''
Drew-trans m m' m'' d d' = record {
  valid = d'.valid;
  same_end = d'.same_end ∙ d.same_end;
  grown = omega (arith, d.grown, d'.grown);
  below = λ a lt. d'.below a (omega (arith, d.grown)) ∙ d.below a lt;
}

pub IsScreen-Drew : (p : Platform) (m m' : Machine) → IsScreen p m → Drew m m' → IsScreen p m'
IsScreen-Drew p m m' s d = record {
  heap_below = omega (arith, s.heap_below, d.same_end);
  addressable = s.addressable;
  rounds = s.rounds;
}

below_block :
    (size : ℕ) (m : Machine) (ptr : ℕ) (m' : Machine)
    → Allocated size m ptr m'
    → SameBelow m.mem m'.mem m.heap_current
below_block size m ptr m' got a lt = ground (arith, got.contents a, got.start)

module _ (p : Platform) (laws : FormatTerminates p) where
  -- `kprintf` returns, whatever it prints and whether or not the heap has room for its buffer: the
  -- text it draws is terminated. It keeps the heap well formed, and changes nothing below the free
  -- part of the heap. The heap lies below the frame buffer.
  pub kprintf_lem :
      (x y : ℕ) (color : Option Color) (text : String) (args : List ℕ) (m : Machine)
      → IsHeap m
      → IsScreen p m
      → Returns (λ _ m'. Drew m m') (kprintf p x y color text args m)
  unfolding kprintf
  kprintf_lem x y color text args m heap screen =
      Returns-bind
        (malloc_lem 256 heap (omega (arith, heap.below_end, screen.heap_below, screen.addressable)))
        λ ptr m' out. elim out [
          | inl got ↦
              let some_ptr = ne→== ptr 0 got.not_null in
              let (cs, e, chars, short) = laws.text_of m'.mem 8 text args (omega arith) in
              let mem = store_list m'.mem ptr (cs ++ 0 ∷ []) in
              let (mem', ran, same) =
                draw_string_lem p ptr x y color cs (record m' { mem = mem })
                  (IsCString-stored m'.mem ptr cs chars)
                  (omega (arith, got.fits, got.start, screen.heap_below))
                  (omega (arith, screen.rounds)) in
              rw (some_ptr, e, ran)
                (returns (record {
                  valid = record {
                    not_null = got.valid.not_null;
                    started = got.valid.started;
                    below_end = got.valid.below_end;
                    addressable = got.valid.addressable;
                  };
                  same_end = got.same_end;
                  grown = omega (arith, got.current, got.start);
                  below = λ a lt.
                      same a (omega (arith, got.fits, screen.heap_below))
                      ∙ store_list-SameBelow m'.mem ptr (cs ++ 0 ∷ []) a (omega (arith, got.start))
                      ∙ below_block 256 m ptr m' got a lt;
                }))
          | inr refused ↦
              rw (refused.null_result, refused.unchanged)
                (returns (record {
                  valid = record {
                    not_null = heap.not_null;
                    started = heap.started;
                    below_end = heap.below_end;
                    addressable = heap.addressable;
                  };
                  same_end = refl;
                  grown = omega arith;
                  below = λ a lt. refl;
                }))
        ]

  -- The same behind what was already drawn.
  pub kprintf-Drew :
      (x y : ℕ) (color : Option Color) (text : String) (args : List ℕ) (m m1 : Machine)
      → IsScreen p m
      → Drew m m1
      → Returns (λ _ m'. Drew m m') (kprintf p x y color text args m1)
  kprintf-Drew x y color text args m m1 screen d =
      Returns-mono (kprintf_lem x y color text args m1 d.valid (IsScreen-Drew p m m1 screen d))
        λ _ m2 d2. Drew-trans m m1 m2 d d2

-- Writing to the screen, and logging.
pub Drew-mem :
    (p : Platform) (m : Machine) (mem : Mem)
    → IsHeap m
    → IsScreen p m
    → SameBelow m.mem mem p.frame_buffer
    → Drew m (record m { mem = mem })
Drew-mem p m mem heap screen same = record {
  valid = record {
    not_null = heap.not_null;
    started = heap.started;
    below_end = heap.below_end;
    addressable = heap.addressable;
  };
  same_end = refl;
  grown = omega arith;
  below = λ a lt. same a (omega (arith, heap.below_end, screen.heap_below));
}

pub Drew-log : (m : Machine) (trace : List Event) → IsHeap m → Drew m (record m { trace = trace })
Drew-log m trace heap = record {
  valid = record {
    not_null = heap.not_null;
    started = heap.started;
    below_end = heap.below_end;
    addressable = heap.addressable;
  };
  same_end = refl;
  grown = omega arith;
  below = λ a lt. refl;
}
