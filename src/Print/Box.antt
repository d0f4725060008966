-- ===== src/Print/Box.antt =====
-- `print_box` always returns, and what it may change.
use lappis.Base.{List, Option, add32, arith, inl, inr, length, ne→==, suc, zero, ℕ, ◌+◌, ◌<◌, ◌^◌}
use lappis.Heap.Alloc.{Allocated, IsHeap, malloc_lem}
use lappis.Machine.{Machine, Platform, Returns, Returns-bind, returns}
use lappis.Print.{print_border, print_box, print_box_around, print_line}
use lappis.Print.Shown.{Drew, Drew-log, FormatTerminates, IsScreen, kprintf-Drew}
use lappis.Strings.Length.{IsCString, IsCString-same, strlen_lem}
use lappis.Video.{Color}

-- A granted block.
Drew-Allocated : (n : ℕ) (m : Machine) (ptr : ℕ) (m' : Machine) → Allocated n m ptr m' → Drew m m'
Drew-Allocated n m ptr m' got = record {
  valid = got.valid;
  same_end = got.same_end;
  grown = omega (arith, got.current, got.start);
  below = λ a lt. ground (arith, got.contents a, got.start);
}

module _ (p : Platform) (laws : FormatTerminates p) (m : Machine) (screen : IsScreen p m) where
  print_line-Drew :
      (len x y xoffset : ℕ) (color : Option Color) (m1 : Machine)
      → Drew m m1
      → Returns (λ _ m'. Drew m m') (print_line p len x y xoffset color m1)
  unfolding print_line
  print_line-Drew zero x y xoffset color m1 d = returns d
  print_line-Drew (suc len) x y xoffset color m1 d =
      Returns-bind (kprintf-Drew p laws (add32 x xoffset) y color "%c" _ m m1 screen d)
        λ _ m2 d2. print_line-Drew len x y _ color m2 d2

  print_border-Drew :
      (left right len x y : ℕ) (color : Option Color) (m1 : Machine)
      → Drew m m1
      → Returns (λ _ m'. Drew m m') (print_border p left right len x y color m1)
  unfolding print_border
  print_border-Drew left right len x y color m1 d =
      Returns-bind (kprintf-Drew p laws x y color "%c" _ m m1 screen d) λ _ m2 d2.
        Returns-bind (print_line-Drew len x y _ color m2 d2)
          λ xoffset m3 d3. kprintf-Drew p laws (add32 x xoffset) y color "%c" _ m m3 screen d3

  -- `print_box` of a string below the free part of the heap returns, whether or not the heap has
  -- room for its buffers. It keeps the heap well formed, and changes nothing below the free part of
  -- the heap. The heap lies below the frame buffer, vsnprintf terminates what it stores, and the
  -- string is followed to its end.
  pub print_box_lem :
      (s x y : ℕ) (color : Option Color) (cs : List ℕ)
      → IsHeap m
      → IsCString m.mem s cs
      → s + length cs < m.heap_current
      → length cs < p.rounds
      → length cs < 2 ^ 32
      → Returns (λ _ m'. Drew m m') (print_box p s x y color m)
  unfolding print_box print_box_around
  print_box_lem s x y color cs heap str below enough small =
      Returns-bind
        (malloc_lem 256 heap (omega (arith, heap.below_end, screen.heap_below, screen.addressable)))
        λ ptr m1 out. elim out [
          | inl got ↦
              let d1 = Drew-Allocated 256 m ptr m1 got in
              let str1 =
                IsCString-same m.mem m1.mem s cs (λ a lo hi. d1.below a (omega (arith, hi, below)))
                  str in
              let box : Returns (λ _ m'. Drew m m')
                  (print_border p 0xda 0xbf (add32 (length cs) 2) x y color m1) =
                print_border-Drew _ _ _ x y color m1 d1 in
              rw (ne→== ptr 0 got.not_null) (
                rw (strlen_lem p.rounds m1.mem s cs str1 enough small) (
                  Returns-bind box λ _ m2 d2.
                    Returns-bind (kprintf-Drew p laws x _ color "%c %s %c" _ m m2 screen d2)
                      λ _ m3 d3. print_border-Drew _ _ _ x _ color m3 d3))
          | inr refused ↦ rw (refused.null_result, refused.unchanged) (returns (Drew-log m _ heap))
        ]
