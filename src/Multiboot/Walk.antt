-- ===== src/Multiboot/Walk.antt =====
-- The walk over the tags: it visits each tag of a well-formed list once, and does not end at a tag
-- of size 0.
use lappis.Base.{
  List, [], add32, arith, false, length, le→ltb, ne→==, refl, suc, zero, ℕ, ◌*◌, ◌+◌, ◌/◌, ◌<◌,
  ◌==◌, ◌^◌, ◌∷◌, ◌≡◌, ◌≢◌, ◌≤◌,
}
use lappis.Machine.{Event, Machine, Mem, ok, stuck}
use lappis.Machine.Memory.{load}
use lappis.Multiboot.{
  next_tag, parse_multiboot_header, tag_event, tag_loop, tag_size_at, tag_type_at, type_event,
}

-- A tag's header.
pub record Tag : Type 0 where
  pub type : ℕ
  pub size : ℕ

-- The bytes that a tag takes: its size, rounded up to a multiple of 8.
abbrev pub rounded : ℕ → ℕ
rounded size = (size + 7) / 8 * 8

-- The tags stand in memory one behind the other, and the end tag behind them.
abbrev pub Laid : Mem → ℕ → List Tag → Type 0
Laid m tag [] = (tag_type_at m tag ≡ 0) × (tag_size_at m tag ≡ 8)
Laid m tag (t ∷ ts) =
    (tag_type_at m tag ≡ t.type)
    × (tag_size_at m tag ≡ t.size)
    × (t.type ≢ 0)
    × Laid m (tag + rounded t.size) ts

-- How many bytes the tags take together.
abbrev pub total : List Tag → ℕ
total [] = 0
total (t ∷ ts) = rounded t.size + total ts

-- The messages of the walk, newest first: for each tag its type and its contents, in order.
abbrev pub visited : Mem → ℕ → List Tag → List Event → List Event
visited m tag [] trace = type_event m tag ∷ trace
visited m tag (t ∷ ts) trace =
    visited m (tag + rounded t.size) ts (tag_event m tag ∷ type_event m tag ∷ trace)

next_tag_lem : (size : ℕ) → size < 2 ^ 31 → next_tag size * 8 ≡ rounded size
unfolding next_tag
next_tag_lem size small = ground arith

tag_loop_lem :
    (rounds boot_info tag travel : ℕ) (ts : List Tag) (m : Machine)
    → Laid m.mem tag ts
    → travel + total ts ≤ load m.mem boot_info 4
    → load m.mem boot_info 4 < 2 ^ 31
    → length ts < rounds
    → tag_loop rounds boot_info tag travel m
      ≡ ok tt (record m { trace = visited m.mem tag ts m.trace })
unfolding tag_loop
tag_loop_lem zero boot_info tag travel ts m laid fits small fuel = absurd (omega arith)
tag_loop_lem (suc f) boot_info tag travel [] m laid fits small fuel = rw (laid.0, laid.1)
tag_loop_lem (suc f) boot_info tag travel (t ∷ ts) m (type, size, some_type, behind) fits small
      fuel =
    let step : next_tag (tag_size_at m.mem tag) * 8 ≡ rounded t.size =
      rw size (next_tag_lem t.size (omega arith)) in
    let near : travel ≤ load m.mem boot_info 4 = omega arith in
    let sum : add32 travel (rounded t.size) ≡ travel + rounded t.size = omega arith in
    let goes_on =
      tag_loop_lem f boot_info (tag + rounded t.size) (travel + rounded t.size) ts
        (record m { trace = tag_event m.mem tag ∷ type_event m.mem tag ∷ m.trace }) behind
        (omega arith) small (omega arith) in
    let not_end : (tag_type_at m.mem tag == 0) ≡ false = ground (arith, type) in
    rw (not_end, le→ltb (load m.mem boot_info 4) travel near, step, sum) goes_on

-- On tags that stand one behind the other, each 8-byte aligned and the last of type 0 and size 8,
-- and that together are no longer than `total_size`, `parse_multiboot_header` ends after it has
-- visited every tag once, in order, and it changes nothing but the log. `total_size` is below
-- 2 ^ 31, no tag but the last has type 0, and the loop is followed for more rounds than there are
-- tags.
pub parse_multiboot_header_lem :
    (rounds boot_info : ℕ) (ts : List Tag) (m : Machine)
    → Laid m.mem (boot_info + 8) ts
    → total ts ≤ load m.mem boot_info 4
    → load m.mem boot_info 4 < 2 ^ 31
    → length ts < rounds
    → parse_multiboot_header rounds boot_info m
      ≡ ok tt (record m { trace = visited m.mem (boot_info + 8) ts m.trace })
unfolding parse_multiboot_header
parse_multiboot_header_lem rounds boot_info ts m laid fits small fuel =
    tag_loop_lem rounds boot_info (boot_info + 8) 0 ts m laid (omega arith) small fuel

stays :
    (rounds boot_info tag travel : ℕ) (m : Machine)
    → travel ≤ load m.mem boot_info 4
    → load m.mem boot_info 4 < 2 ^ 31
    → tag_type_at m.mem tag ≢ 0
    → tag_size_at m.mem tag ≡ 0
    → tag_loop rounds boot_info tag travel m ≡ stuck
unfolding tag_loop
stays zero boot_info tag travel m near small type size = refl
stays (suc f) boot_info tag travel m near small type size =
    let not_end = ne→== (tag_type_at m.mem tag) 0 type in
    let go_on = le→ltb (load m.mem boot_info 4) travel near in
    let step : next_tag (tag_size_at m.mem tag) * 8 ≡ 0 = rw size (next_tag_lem 0 (omega arith)) in
    let here : tag + 0 ≡ tag = omega arith in
    let same : add32 travel 0 ≡ travel = omega (arith, near, small) in
    rw (not_end, go_on, step, here, same)
      (stays f boot_info tag travel
        (record m { trace = tag_event m.mem tag ∷ type_event m.mem tag ∷ m.trace }) near small type
        size)

-- The tags stand one behind the other up to an address.
abbrev pub LaidTo : Mem → ℕ → List Tag → ℕ → Type 0
LaidTo m tag [] to = tag ≡ to
LaidTo m tag (t ∷ ts) to =
    (tag_type_at m tag ≡ t.type)
    × (tag_size_at m tag ≡ t.size)
    × (t.type ≢ 0)
    × LaidTo m (tag + rounded t.size) ts to

-- However many tags are passed before.
stays_behind :
    (rounds boot_info tag to travel : ℕ) (ts : List Tag) (m : Machine)
    → LaidTo m.mem tag ts to
    → travel + total ts ≤ load m.mem boot_info 4
    → load m.mem boot_info 4 < 2 ^ 31
    → tag_type_at m.mem to ≢ 0
    → tag_size_at m.mem to ≡ 0
    → tag_loop rounds boot_info tag travel m ≡ stuck
unfolding tag_loop
stays_behind zero boot_info tag to travel ts m laid near small type size = refl
stays_behind (suc f) boot_info tag to travel [] m laid near small type size =
    rw laid (stays (suc f) boot_info to travel m (omega (arith, near)) small type size)
stays_behind (suc f) boot_info tag to travel (t ∷ ts) m (kind, length_is, some_type, behind) near
      small type size =
    let step : next_tag (tag_size_at m.mem tag) * 8 ≡ rounded t.size =
      rw length_is (next_tag_lem t.size (omega arith)) in
    let go_on : travel ≤ load m.mem boot_info 4 = omega arith in
    let sum : add32 travel (rounded t.size) ≡ travel + rounded t.size = omega arith in
    let not_end : (tag_type_at m.mem tag == 0) ≡ false = ground (arith, kind) in
    rw (not_end, le→ltb (load m.mem boot_info 4) travel go_on, step, sum)
      (stays_behind f boot_info (tag + rounded t.size) to (travel + rounded t.size) ts
        (record m { trace = tag_event m.mem tag ∷ type_event m.mem tag ∷ m.trace }) behind
        (omega arith) small type size)

-- A tag of size 0 whose type is not 0, behind any tags that together are no longer than
-- `total_size`, is never passed: the walk does not end, however many rounds it is followed for.
-- `total_size` is below 2 ^ 31, and no tag before has type 0.
pub parse_multiboot_header-stuck :
    (rounds boot_info to : ℕ) (ts : List Tag) (m : Machine)
    → LaidTo m.mem (boot_info + 8) ts to
    → total ts ≤ load m.mem boot_info 4
    → load m.mem boot_info 4 < 2 ^ 31
    → tag_type_at m.mem to ≢ 0
    → tag_size_at m.mem to ≡ 0
    → parse_multiboot_header rounds boot_info m ≡ stuck
unfolding parse_multiboot_header
parse_multiboot_header-stuck rounds boot_info to ts m laid near small type size =
    stays_behind rounds boot_info (boot_info + 8) to 0 ts m laid (omega (arith, near)) small type
      size
