-- ===== src/Elf/Numbers.antt =====
-- Reading 64-bit numbers from the file, and numbers back from memory.
use lappis.Base.{
  ap, ap₂, arith, bit_or, bit_or-shift, get_or, le_bytes, refl, suc, sym, zero, ℕ, ◌%◌, ◌*◌, ◌+◌,
  ◌/◌, ◌<◌, ◌^◌, ◌∙◌, ◌≡◌, ◌≤◌,
}
use lappis.Elf.{join_bytes, read_uint64}
use lappis.Heap.Userland.{MemcpyCopies}
use lappis.Machine.{Mem, Platform}
use lappis.Machine.Memory.{Holds, load}
use lappis.Zip.Bytes.{At, read_local-At, skip_bytes_lem}

-- `v` without its `i` lowest bytes.
abbrev pub upper : ℕ → ℕ → ℕ
upper zero v = v
upper (suc i) v = upper i v / 2 ^ 8

upper-byte : (i v : ℕ) → upper i (v / 2 ^ 8) ≡ upper (suc i) v
upper-byte zero v = refl
upper-byte (suc i) v = ap (λ w. w / 2 ^ 8) (upper-byte i v)

get_or-le_bytes : (n i v : ℕ) → i < n → get_or (le_bytes n v) i 0 ≡ upper i v % 2 ^ 8
get_or-le_bytes zero i v lt = absurd (omega arith)
get_or-le_bytes (suc n) zero v lt = refl
get_or-le_bytes (suc n) (suc i) v lt =
    get_or-le_bytes n i (v / 2 ^ 8) (omega arith) ∙ ap (λ w. w % 2 ^ 8) (upper-byte i v)

upper_le : (i v : ℕ) → upper i v ≤ v
upper_le zero v = omega arith
upper_le (suc i) v = omega (arith, upper_le i v)

-- One round of the loop.
join_step : (w : ℕ) → w < 2 ^ 64 → bit_or (w % 2 ^ 8) (w / 2 ^ 8 * 2 ^ 8 % 2 ^ 64) ≡ w
join_step w lt =
    let fits : w / 2 ^ 8 * 2 ^ 8 % 2 ^ 64 ≡ w / 2 ^ 8 * 2 ^ 8 = omega arith in
    rw fits (bit_or-shift 8 (w % 2 ^ 8) (w / 2 ^ 8) (omega arith) ∙ omega arith)

join_bytes-le_bytes : (i v : ℕ) → i ≤ 8 → v < 2 ^ 64 → join_bytes (le_bytes 8 v) i (upper i v) ≡ v
unfolding join_bytes
join_bytes-le_bytes zero v le lt = refl
join_bytes-le_bytes (suc i) v le lt =
    ap (λ b. join_bytes (le_bytes 8 v) i (bit_or b (upper (suc i) v * 2 ^ 8 % 2 ^ 64)))
      (get_or-le_bytes 8 i v (omega arith))
    ∙ ap (join_bytes (le_bytes 8 v) i) (join_step (upper i v) (omega (arith, upper_le i v)))
    ∙ join_bytes-le_bytes i v (omega arith) lt

module _ (p : Platform) (laws : MemcpyCopies p) where
  -- `read_uint64` reads the number that stands behind the cursor, lowest byte first.
  pub read_uint64_lem :
      (m : Mem) (buf cur v : ℕ)
      → At m buf cur (le_bytes 8 v)
      → v < 2 ^ 64
      → cur + 8 < 2 ^ 64
      → read_uint64 p m buf cur ≡ (v, cur + 8)
  unfolding read_uint64
  read_uint64_lem m buf cur v h small room =
      let none_above : upper 8 v ≡ 0 = omega arith in
      rw (read_local-At p laws m buf cur (le_bytes 8 v) h) (
        ap₂ (λ a b. (a, b))
          (ap (join_bytes (le_bytes 8 v) 8) (sym none_above)
            ∙ join_bytes-le_bytes 8 v (omega arith) small)
          (skip_bytes_lem cur 8 room))

-- A number of `n` bytes that stands in memory is loaded.
pub load_lem : (m : Mem) (p n v : ℕ) → Holds m p (le_bytes n v) → upper n v ≡ 0 → load m p n ≡ v
unfolding load
load_lem m p zero v h e = sym e
load_lem m p (suc n) v h e =
    omega (arith, h.0, load_lem m (p + 1) n (v / 2 ^ 8) h.1 (upper-byte n v ∙ e))
