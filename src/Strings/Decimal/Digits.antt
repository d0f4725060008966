-- ===== src/Strings/Decimal/Digits.antt =====
-- The loop that collects digits and the loop that writes them back, for any base.
use native.Mathlib.Nat.{pow-suc, pow-zero, div-lt_iff_lt-mul, div-add-mod', mod-lt}
use lappis.Base.{
  All, List, Option, [], ap, arith, get_or, get_or-set_ne, get_or-set_self, length,
  length-replicate, length-set, lt→ltb, ne→==, refl, replicate, set, some, suc, zero, ℕ, ◌%◌, ◌*◌,
  ◌+◌, ◌/◌, ◌<◌, ◌^◌, ◌∙◌, ◌∷◌, ◌≡◌, ◌≤◌,
}
use lappis.Machine.{Mem}
use lappis.Machine.Memory.{store, store_list}
use lappis.Strings.{byte, digits_loop, write_back}

-- The number that the bytes stand for, most significant digit first.
abbrev pub read_digits : ℕ → (ℕ → ℕ) → ℕ → List ℕ → ℕ
read_digits base value acc [] = acc
read_digits base value acc (c ∷ cs) = read_digits base value (acc * base + value c) cs

-- The first `n` elements of `tmp`, last to first.
abbrev pub backwards : ℕ → List ℕ → List ℕ
backwards zero tmp = []
backwards (suc n) tmp = get_or tmp n 0 ∷ backwards n tmp

-- The number that the first `n` elements of `tmp` stand for, least significant digit first.
abbrev weigh : ℕ → (ℕ → ℕ) → ℕ → List ℕ → ℕ
weigh base value zero tmp = 0
weigh base value (suc n) tmp = weigh base value n tmp + value (get_or tmp n 0) * base ^ n

read_digits-backwards :
    (base : ℕ) (value : ℕ → ℕ) (acc n : ℕ) (tmp : List ℕ)
    → read_digits base value acc (backwards n tmp) ≡ acc * base ^ n + weigh base value n tmp
read_digits-backwards base value acc zero tmp = omega (arith, ap (λ t. acc * t) (pow-zero base))
read_digits-backwards base value acc (suc n) tmp = omega (
  arith,
  read_digits-backwards base value (acc * base + value (get_or tmp n 0)) n tmp,
  ap (λ t. acc * t) (pow-suc base n),
)

weigh-set :
    (base : ℕ) (value : ℕ → ℕ) (n o d : ℕ) (tmp : List ℕ)
    → n ≤ o
    → weigh base value n (set tmp o d) ≡ weigh base value n tmp
weigh-set base value zero o d tmp le = refl
weigh-set base value (suc n) o d tmp le = omega (
  arith,
  weigh-set base value n o d tmp (omega arith),
  ap (λ t. value t * base ^ n) (get_or-set_ne tmp o n d 0 (omega arith)),
)

-- Every one of the first `n` elements has the property.
abbrev pub AllBelow : (ℕ → Type 0) → ℕ → List ℕ → Type 0
AllBelow P zero tmp = Unit
AllBelow P (suc n) tmp = P (get_or tmp n 0) × AllBelow P n tmp

AllBelow-set :
    (P : ℕ → Type 0) (n o d : ℕ) (tmp : List ℕ)
    → n ≤ o
    → AllBelow P n tmp
    → AllBelow P n (set tmp o d)
AllBelow-set P zero o d tmp le h = tt
AllBelow-set P (suc n) o d tmp le h =
    (rw (get_or-set_ne tmp o n d 0 (omega arith)) h.0, AllBelow-set P n o d tmp (omega arith) h.1)

pub All-backwards :
    (P : ℕ → Type 0) (n : ℕ) (tmp : List ℕ) → AllBelow P n tmp → All P (backwards n tmp)
All-backwards P zero tmp h = tt
All-backwards P (suc n) tmp h = (h.0, All-backwards P n tmp h.1)

pub length-backwards : (n : ℕ) (tmp : List ℕ) → length (backwards n tmp) ≡ n
length-backwards zero tmp = refl
length-backwards (suc n) tmp = ap suc (length-backwards n tmp)

pub write_back-backwards :
    (n : ℕ) (tmp : List ℕ) (m : Mem) (str : ℕ)
    → write_back n tmp m str ≡ store_list m str (backwards n tmp)
unfolding write_back store_list
write_back-backwards zero tmp m str = refl
write_back-backwards (suc n) tmp m str =
    write_back-backwards n tmp (store m str (get_or tmp n 0)) (str + 1)

-- What the loop has collected when it ends: `k` digits that stand for the number, each with the
-- property `P`.
pub record Collected (base : ℕ) (value : ℕ → ℕ) (P : ℕ → Type 0) (size num : ℕ)
    (out : Option (ℕ × List ℕ)) : Type 0 where
  pub count : ℕ
  pub tmp : List ℕ
  pub result : out ≡ some (count, tmp)
  pub within : count ≤ size
  pub number : read_digits base value 0 (backwards count tmp) ≡ num
  pub digits : AllBelow P count tmp

module _ (size base : ℕ) (digit value : ℕ → ℕ) (P : ℕ → Type 0) (two : 2 ≤ base)
    (small : size < 2 ^ 8) (inverse : (d : ℕ) → d < base → value (digit d) ≡ d)
    (good : (d : ℕ) → d < base → P (digit d)) where
  -- What the loop leaves from `o` digits on.
  Weighed : ℕ → ℕ → List ℕ → ℕ → List ℕ → Type 0
  Weighed num o tmp k tmp' =
      (k ≤ size)
      × (weigh base value k tmp' ≡ weigh base value o tmp + num * base ^ o)
      × AllBelow P k tmp'

  -- One more digit.
  Weighed-step :
      (num o : ℕ) (tmp : List ℕ) (k : ℕ) (tmp' : List ℕ)
      → o < length tmp
      → Weighed (num / base) (suc o) (set tmp o (digit (num % base))) k tmp'
      → Weighed num o tmp k tmp'
  unfolding Weighed
  Weighed-step num o tmp k tmp' room (le, w, all) =
      let d = num % base in
      let q = num / base in
      let here : value (get_or (set tmp o (digit d)) o 0) ≡ d =
        ap value (get_or-set_self tmp o (digit d) 0 room) ∙ inverse d (mod-lt num (omega arith)) in
      (
        le,
        omega (
          arith,
          w,
          weigh-set base value o o (digit d) tmp (omega arith),
          ap (λ t. t * base ^ o) here,
          ap (λ t. q * t) (pow-suc base o),
          ap (λ t. t * base ^ o) (div-add-mod' num base),
        ),
        all,
      )

  -- From `o` digits on, with room for `r` more, the loop ends.
  digits_loop-weigh :
      (f r num o : ℕ) (tmp : List ℕ)
      → num < base ^ r
      → o + r ≤ size
      → r < f
      → length tmp ≡ size
      → AllBelow P o tmp
      → (k : ℕ) × (tmp' : List ℕ) × (digits_loop size base digit f num o tmp ≡ some (k, tmp'))
        × Weighed num o tmp k tmp'
  unfolding digits_loop Weighed
  digits_loop-weigh zero r num o tmp lt room fuel len all = absurd (omega arith)
  digits_loop-weigh (suc f) r zero o tmp lt room fuel len all =
      (o, tmp, refl, (omega arith, omega arith, all))
  digits_loop-weigh (suc f) zero (suc n) o tmp lt room fuel len all =
      absurd (omega (arith, pow-zero base))
  digits_loop-weigh (suc f) (suc r) (suc n) o tmp lt room fuel len all =
      let d = suc n % base in
      let tmp1 = set tmp o (digit d) in
      let fewer : suc n / base < base ^ r =
        (div-lt_iff_lt-mul (omega arith)).1 (rw (← pow-suc base r) lt) in
      let good_digit : P (get_or tmp1 o 0) =
        rw (get_or-set_self tmp o (digit d) 0 (omega arith))
          (good d (mod-lt (suc n) (omega arith))) in
      let (k, tmp', e, w) =
        digits_loop-weigh f r (suc n / base) (suc o) tmp1 fewer (omega arith) (omega arith)
          (length-set tmp o (digit d) ∙ len)
          (good_digit, AllBelow-set P o o (digit d) tmp (omega arith) all) in
      let next : byte (o + 1) ≡ suc o = omega arith in
      (
        k,
        tmp',
        rw (ne→== (suc n) 0 (omega arith), lt→ltb o size (omega arith), next) e,
        Weighed-step (suc n) o tmp k tmp' (omega arith) w,
      )

  -- Started on an empty `tmp`, the loop collects digits that stand for the number, where the number
  -- has at most `size` digits.
  pub digits_loop-Collected :
      (num : ℕ)
      → num < base ^ size
      → size < 64
      → Collected base value P size num (digits_loop size base digit 64 num 0 (replicate size 0))
  unfolding Weighed
  digits_loop-Collected num lt few =
      let (k, tmp', e, w) =
        digits_loop-weigh 64 size num 0 (replicate size 0) lt (omega arith) few
          (length-replicate size 0) tt in
      record {
        count = k;
        tmp = tmp';
        result = e;
        within = w.0;
        number =
            read_digits-backwards base value 0 k tmp'
            ∙ omega (arith, w.1, ap (λ t. num * t) (pow-zero base));
        digits = w.2;
      }
