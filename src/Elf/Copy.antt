-- ===== src/Elf/Copy.antt =====
-- Structs that are copied from the file to a block, field by field.
use mathlib.Core.Path.{subst}
use lappis.Base.{
  List, [], ap, arith, le_bytes, length, length-append, refl, sym, ℕ, ◌++◌, ◌+◌, ◌<◌, ◌^◌, ◌∙◌, ◌≡◌,
  ◌≤◌,
}
use lappis.Elf.{field16, field32, field64}
use lappis.Elf.Numbers.{read_uint64_lem}
use lappis.Heap.Userland.{MemcpyCopies}
use lappis.Machine.{Machine, Mem, Platform, Returns, returns}
use lappis.Machine.Memory.{
  Holds-same, SameBelow, SameBelow-le, SameBelow-trans, fill-SameBelow, store_list,
  store_list-SameBelow, store_list-append,
}
use lappis.Zip.Blocks.{granted}
use lappis.Zip.Bytes.{At, At-append, read_uint16_lem, read_uint32_lem}

-- The bounds of both heaps, which a copy into a block keeps.
abbrev pub Heaps : Type 0
Heaps = ℕ × ℕ × ℕ × ℕ × ℕ × ℕ

abbrev pub heaps : Machine → Heaps
heaps m = (
  m.heap_start, m.heap_current, m.heap_end, m.userland_heap_start, m.userland_heap_current,
  m.userland_heap_end,
)

module _ (p : Platform) (laws : MemcpyCopies p) (buf base dest : ℕ) (m0 : Machine) where
  -- `done` was copied from the file at `base` to `dest`, and `rest` is to come.
  pub record Copying (done rest : List ℕ) (n cur : ℕ) (mem : Mem) (at_heaps : Heaps) : Type 0 where
    count : length done ≡ n
    pub cursor : cur ≡ base + n
    pub copied : mem ≡ store_list m0.mem dest done
    ahead : At m0.mem buf cur rest
    below : buf + cur + length rest ≤ dest
    small : cur + length rest < 2 ^ 64
    pub same_heaps : at_heaps ≡ heaps m0

  At-now :
      (done part rest : List ℕ) (n cur : ℕ) (mem : Mem) (hs : Heaps)
      → Copying done (part ++ rest) n cur mem hs
      → At mem buf cur part
  At-now done part rest n cur mem hs c = rw c.copied (
      Holds-same m0.mem (store_list m0.mem dest done) (buf + cur) part
        (λ a ge lt.
          store_list-SameBelow m0.mem dest done a (omega (arith, c.below, length-append part rest)))
        (At-append m0.mem buf cur part rest c.ahead).0)

  -- The state after one more field.
  advanced :
      (done part rest : List ℕ) (n k cur : ℕ) (mem : Mem) (hs : Heaps)
      → length part ≡ k
      → Copying done (part ++ rest) n cur mem hs
      → Copying (done ++ part) rest (n + k) (cur + k) (store_list mem (dest + n) part) hs
  advanced done part rest n k cur mem hs size c =
      let total = length-append part rest in
      record {
        count = omega (arith, length-append done part, c.count);
        cursor = omega (arith, c.cursor);
        copied = rw c.copied (
            ap (λ at. store_list (store_list m0.mem dest done) at part)
              (ap (λ i. dest + i) (sym c.count))
            ∙ sym (store_list-append m0.mem dest done part));
        ahead = ap_At size ((At-append m0.mem buf cur part rest c.ahead).1);
        below = omega (arith, c.below);
        small = omega (arith, c.small);
        same_heaps = c.same_heaps;
      }
    where
      ap_At :
          length part ≡ k → At m0.mem buf (cur + length part) rest → At m0.mem buf (cur + k) rest
      ap_At e h = rw⁻¹ e h

  pub field16-Copying :
      {done rest : List ℕ} {v n cur : ℕ} (d : ℕ) (m : Machine)
      → Copying done (le_bytes 2 v ++ rest) n cur m.mem (heaps m)
      → v < 2 ^ 16
      → d ≡ dest + n
      → Returns
          (λ (v', cur') m'. Copying (done ++ le_bytes 2 v) rest (n + 2) cur' m'.mem (heaps m'))
          (field16 p buf cur d m)
  unfolding field16
  field16-Copying {done} {rest} {v} {n} {cur} d m c lt at =
      let here = At-now done (le_bytes 2 v) rest n cur m.mem (heaps m) c in
      let room : cur + 2 < 2 ^ 64 = omega (arith, c.small) in
      rw (read_uint16_lem p laws m.mem buf cur v here lt room, at)
        (returns (advanced done (le_bytes 2 v) rest n 2 cur m.mem (heaps m) refl c))

  pub field32-Copying :
      {done rest : List ℕ} {v n cur : ℕ} (d : ℕ) (m : Machine)
      → Copying done (le_bytes 4 v ++ rest) n cur m.mem (heaps m)
      → v < 2 ^ 32
      → d ≡ dest + n
      → Returns
          (λ (v', cur') m'. Copying (done ++ le_bytes 4 v) rest (n + 4) cur' m'.mem (heaps m'))
          (field32 p buf cur d m)
  unfolding field32
  field32-Copying {done} {rest} {v} {n} {cur} d m c lt at =
      let here = At-now done (le_bytes 4 v) rest n cur m.mem (heaps m) c in
      let room : cur + 4 < 2 ^ 64 = omega (arith, c.small) in
      rw (read_uint32_lem p laws m.mem buf cur v here lt room, at)
        (returns (advanced done (le_bytes 4 v) rest n 4 cur m.mem (heaps m) refl c))

  pub field64-Copying :
      {done rest : List ℕ} {v n cur : ℕ} (d : ℕ) (m : Machine)
      → Copying done (le_bytes 8 v ++ rest) n cur m.mem (heaps m)
      → v < 2 ^ 64
      → d ≡ dest + n
      → Returns
          (λ (v', cur') m'. Copying (done ++ le_bytes 8 v) rest (n + 8) cur' m'.mem (heaps m'))
          (field64 p buf cur d m)
  unfolding field64
  field64-Copying {done} {rest} {v} {n} {cur} d m c lt at =
      let here = At-now done (le_bytes 8 v) rest n cur m.mem (heaps m) c in
      let room : cur + 8 < 2 ^ 64 = omega (arith, c.small) in
      rw (read_uint64_lem p laws m.mem buf cur v here lt room, at)
        (returns (advanced done (le_bytes 8 v) rest n 8 cur m.mem (heaps m) refl c))

nothing_stored : (m : Mem) (at : ℕ) → m ≡ store_list m at []
unfolding store_list
nothing_stored m at = refl

-- Before the first field.
pub Copying-start :
    (p : Platform) (laws : MemcpyCopies p) (buf base dest : ℕ) (bytes : List ℕ) (m : Machine)
    → At m.mem buf base bytes
    → buf + base + length bytes ≤ dest
    → base + length bytes < 2 ^ 64
    → Copying p laws buf base dest m [] bytes 0 base m.mem (heaps m)
Copying-start p laws buf base dest bytes m h below small = record {
  count = refl;
  cursor = omega arith;
  copied = nothing_stored m.mem dest;
  ahead = h;
  below = below;
  small = small;
  same_heaps = refl;
}

-- A run that takes `n` bytes of the kernel's heap, and changes no byte below them.
pub record Taken (n : ℕ) (m m' : Machine) : Type 0 where
  pub same : SameBelow m.mem m'.mem m.heap_current
  pub start : m'.heap_start ≡ m.heap_start
  pub current : m'.heap_current ≡ m.heap_current + n
  pub same_end : m'.heap_end ≡ m.heap_end
  pub user_start : m'.userland_heap_start ≡ m.userland_heap_start
  pub user_current : m'.userland_heap_current ≡ m.userland_heap_current
  pub user_end : m'.userland_heap_end ≡ m.userland_heap_end

pub Taken-refl : (m : Machine) → Taken 0 m m
Taken-refl m = record {
  same = λ a below. refl;
  start = refl;
  current = omega arith;
  same_end = refl;
  user_start = refl;
  user_current = refl;
  user_end = refl;
}

pub Taken-trans :
    (a b : ℕ) {m m' m'' : Machine} → Taken a m m' → Taken b m' m'' → Taken (a + b) m m''
Taken-trans a b {m} {m'} {m''} h k = record {
  same = SameBelow-trans m.mem m'.mem m''.mem m.heap_current h.same (
      SameBelow-le m'.mem m''.mem m'.heap_current m.heap_current (omega (arith, h.current)) k.same);
  start = k.start ∙ h.start;
  current = omega (arith, h.current, k.current);
  same_end = k.same_end ∙ h.same_end;
  user_start = k.user_start ∙ h.user_start;
  user_current = k.user_current ∙ h.user_current;
  user_end = k.user_end ∙ h.user_end;
}

pub Taken-add :
    (a b : ℕ) {c : ℕ} {m m' m'' : Machine}
    → Taken a m m'
    → Taken b m' m''
    → a + b ≡ c
    → Taken c m m''
Taken-add a b {c} {m} {m'} {m''} h k e = subst (λ n. Taken n m m'') e (Taken-trans a b h k)

-- A block that was granted and then filled.
pub Taken-block :
    (n : ℕ) (m m' : Machine)
    → SameBelow (granted n m).mem m'.mem m.heap_current
    → heaps m' ≡ heaps (granted n m)
    → Taken n m m'
Taken-block n m m' same kept = record {
  same =
      SameBelow-trans m.mem (granted n m).mem m'.mem m.heap_current
        (fill-SameBelow m.mem m.heap_current n 0) same;
  start = ap (λ h. h.0) kept;
  current = ap (λ h. h.1) kept;
  same_end = ap (λ h. h.2) kept;
  user_start = ap (λ h. h.3) kept;
  user_current = ap (λ h. h.4) kept;
  user_end = ap (λ h. h.5) kept;
}
