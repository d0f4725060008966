-- ===== src/Base/Bits.antt =====
-- Laws of `bit_or` and `bit_and` at variables, and word-sized addition.
use Prim.Native.Nat.{
  ℕ, zero, suc, ◌+◌, ◌-◌, ◌*◌, ◌/◌, ◌%◌, ◌^◌, ◌≤◌, ◌<◌, max, min, bit_or, bit_and, digits,
  bit_or-bitwise, bit_and-bitwise, bitwise,
}
use mathlib.Core.Path.{◌≡◌, refl, sym, ap, ◌∙◌}
use mathlib.Core.Bool.{Bool, true, ◌&&◌}
use lappis.Base.Tests.{◌==◌, if◌then◌else◌}
use native.Mathlib.Omega.{arith}
use native.Mathlib.Nat.{
  pow-suc, one-le-pow, mod-lt, mod-eq_of_lt, div-add-mod, mul-add-mod_self_left,
}

-- Unsigned addition of 32 and 64 bits, and `a - b` and `a << k` at these widths.
abbrev pub add32 : ℕ → ℕ → ℕ
add32 a b = (a + b) % 2 ^ 32

abbrev pub add64 : ℕ → ℕ → ℕ
add64 a b = (a + b) % 2 ^ 64

abbrev pub sub32 : ℕ → ℕ → ℕ
sub32 a b = (a + 2 ^ 32 - b) % 2 ^ 32

abbrev pub sub64 : ℕ → ℕ → ℕ
sub64 a b = (a + 2 ^ 64 - b) % 2 ^ 64

-- `a >> k`
abbrev pub shr : ℕ → ℕ → ℕ
shr a k = a / 2 ^ k

-- A test that holds of the first `n` numbers, by evaluation.
abbrev pub holds_below : (ℕ → Bool) → ℕ → Bool
holds_below test zero = true
holds_below test (suc n) = holds_below test n && test n

pub holds_below_sound :
    (test : ℕ → Bool) (n : ℕ) → holds_below test n ≡ true → (x : ℕ) → x < n → test x ≡ true
holds_below_sound test zero all x lt = absurd (omega arith)
holds_below_sound test (suc n) all x lt =
    ground (arith, λ (h : holds_below test n ≡ true) (l : x < n). holds_below_sound test n h x l)

-- The native operations on digits: the count of digits to go does not matter where it is enough, so
-- a number may be halved.
module _ (z : ℕ → ℕ) (f : ℕ → ℕ → ℕ) where
  run_out : (n b : ℕ) → digits z f n 0 b ≡ z b
  run_out zero b = refl
  run_out (suc n) b = refl

  enough : (n m a b : ℕ) → a ≤ n → a ≤ m → digits z f n a b ≡ digits z f m a b
  enough n m zero b in_n in_m = run_out n b ∙ sym (run_out m b)
  enough zero m (suc a) b in_n in_m = absurd (omega arith)
  enough (suc n) zero (suc a) b in_n in_m = absurd (omega arith)
  enough (suc n) (suc m) (suc a) b in_n in_m =
      ap (λ high. high * 2 + f (suc a % 2) (b % 2))
        (enough n m (suc a / 2) (b / 2) (omega arith) (omega arith))

  halve :
      (a b : ℕ)
      → bitwise z f (suc a) b ≡ bitwise z f (suc a / 2) (b / 2) * 2 + f (suc a % 2) (b % 2)
  halve a b =
      ap (λ high. high * 2 + f (suc a % 2) (b % 2))
        (enough a (suc a / 2) (suc a / 2) (b / 2) (omega arith) (omega arith))

pub zero-bit_or : (b : ℕ) → bit_or 0 b ≡ b
zero-bit_or = bit_or-bitwise 0

bit_or_step : (a b : ℕ) → bit_or a b ≡ bit_or (a / 2) (b / 2) * 2 + max (a % 2) (b % 2)
bit_or_step zero b = rw (zero-bit_or b, zero-bit_or (b / 2)) (omega arith)
bit_or_step (suc a) b =
    rw (bit_or-bitwise (suc a) b, bit_or-bitwise (suc a / 2) (b / 2)) (halve (λ c. c) max a b)

-- `x | (y << k)` is a sum where `x` has `k` bits.
pub bit_or-shift : (k x y : ℕ) → x < 2 ^ k → bit_or x (y * 2 ^ k) ≡ x + y * 2 ^ k
bit_or-shift zero zero y h = omega (arith, zero-bit_or (y * 2 ^ 0))
bit_or-shift zero (suc x) y h = absurd (omega arith)
bit_or-shift (suc k) x y h =
    let double : y * 2 ^ suc k ≡ y * 2 ^ k * 2 = rw (pow-suc 2 k) (omega arith) in
    let halved : y * 2 ^ suc k / 2 ≡ y * 2 ^ k = rw double (omega arith) in
    omega (
      arith,
      double,
      bit_or_step x (y * 2 ^ suc k),
      ap (bit_or (x / 2)) halved,
      bit_or-shift k (x / 2) y (omega (arith, pow-suc 2 k)),
    )

zero-bit_and : (b : ℕ) → bit_and 0 b ≡ 0
zero-bit_and = bit_and-bitwise 0

pub bit_and_step : (a b : ℕ) → bit_and a b ≡ bit_and (a / 2) (b / 2) * 2 + min (a % 2) (b % 2)
bit_and_step zero b = rw (zero-bit_and b, zero-bit_and (b / 2)) (omega arith)
bit_and_step (suc a) b =
    rw (bit_and-bitwise (suc a) b, bit_and-bitwise (suc a / 2) (b / 2)) (halve (λ c. 0) min a b)

-- Nothing is left under an empty mask.
masked_by_zero : (bound a : ℕ) → a ≤ bound → bit_and a 0 ≡ 0
masked_by_zero bound zero le = zero-bit_and 0
masked_by_zero zero (suc a) le = absurd (omega arith)
masked_by_zero (suc bound) (suc a) le =
    bit_and_step (suc a) 0 ∙ rw (masked_by_zero bound (suc a / 2) (omega arith)) (omega arith)

-- `x & (2 ^ k - 1)` keeps the low `k` bits.
abbrev ones : ℕ → ℕ
ones zero = 0
ones (suc k) = ones k * 2 + 1

pub bit_and-ones : (k x : ℕ) → bit_and x (ones k) ≡ x % 2 ^ k
bit_and-ones zero x = omega (arith, masked_by_zero x x (omega arith))
bit_and-ones (suc k) x =
    let halved : (ones k * 2 + 1) / 2 ≡ ones k = omega arith in
    let q = x / 2 / 2 ^ k in
    let r = x / 2 % 2 ^ k in
    let small : r * 2 + x % 2 < 2 ^ k * 2 =
      omega (arith, mod-lt (x / 2) (one-le-pow k 2 (omega arith))) in
    let split : x ≡ 2 ^ k * 2 * q + (r * 2 + x % 2) = omega (arith, div-add-mod (x / 2) (2 ^ k)) in
    let low : x % (2 ^ k * 2) ≡ r * 2 + x % 2 =
      ap (λ t. t % (2 ^ k * 2)) split
      ∙ mul-add-mod_self_left (2 ^ k * 2) q (r * 2 + x % 2)
      ∙ mod-eq_of_lt small in
    omega (
      arith,
      ap (λ t. x % t) (pow-suc 2 k),
      low,
      bit_and_step x (ones k * 2 + 1),
      ap (bit_and (x / 2)) halved,
      bit_and-ones k (x / 2),
    )

-- The binary digit `k`.
abbrev pub bit : ℕ → ℕ → ℕ
bit zero a = a % 2
bit (suc k) a = bit k (a / 2)

bit_le : (k a : ℕ) → bit k a ≤ 1
bit_le zero a = omega arith
bit_le (suc k) a = bit_le k (a / 2)

pub bit-bit_or : (k a b : ℕ) → bit k (bit_or a b) ≡ max (bit k a) (bit k b)
bit-bit_or zero a b = omega (arith, bit_or_step a b)
bit-bit_or (suc k) a b = ap (bit k) (omega (arith, bit_or_step a b)) ∙ bit-bit_or k (a / 2) (b / 2)

bit-none : (k : ℕ) → bit k 0 ≡ 0
bit-none zero = refl
bit-none (suc k) = bit-none k

bit-power : (k j : ℕ) → bit k (2 ^ j) ≡ (if k == j then 1 else 0)
bit-power zero zero = refl
bit-power zero (suc j) = ground (arith, pow-suc 2 j)
bit-power (suc k) zero = ground (arith, bit-none k)
bit-power (suc k) (suc j) =
    let halved : 2 ^ suc j / 2 ≡ 2 ^ j = omega (arith, pow-suc 2 j) in
    ap (bit k) halved ∙ bit-power k j ∙ ground arith

-- One digit is set, and the others stay.
pub bit-set : (k j a : ℕ) → bit k (bit_or a (2 ^ j)) ≡ (if k == j then 1 else bit k a)
bit-set k j a = ground (arith, bit-bit_or k a (2 ^ j), bit-power k j, bit_le k a)
