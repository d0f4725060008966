-- ===== src/Strings/Decimal/Itoa.antt =====
-- `itoa` writes the decimal digits of its argument.
use mathlib.Core.Option
use lappis.Base.{
  All, List, [], arith, false, length, some, true, ℕ, ◌+◌, ◌-◌, ◌<◌, ◌==◌, ◌^◌, ◌∷◌, ◌≡◌, ◌≤◌,
}
use lappis.Machine.{Mem}
use lappis.Machine.Memory.{SameBelow, store, store_list_outside}
use lappis.Strings.{decimal_digit, is_negative, itoa, itoa_digits, min_int, negate, write_back}
use lappis.Strings.Decimal.Digits.{
  All-backwards, backwards, digits_loop-Collected, length-backwards, read_digits,
  write_back-backwards,
}
use lappis.Strings.Length.{IsCString, IsCString-store, IsChar}

-- The bytes `'0'` to `'9'`, and the digit that one stands for.
abbrev pub IsDecimal : ℕ → Type 0
IsDecimal c = (b'0' ≤ c) × (c ≤ b'9')

abbrev pub decimal_value : ℕ → ℕ
decimal_value c = c - b'0'

-- At `str` stands a terminated text of decimal digits, at most ten, that reads as `num`.
pub record ReadsAs (m : Mem) (str num : ℕ) : Type 0 where
  pub text : List ℕ
  pub stands : IsCString m str text
  pub decimal : All IsDecimal text
  pub short : length text ≤ 10
  pub number : read_digits 10 decimal_value 0 text ≡ num

pub IsChar-of_IsDecimal : (cs : List ℕ) → All IsDecimal cs → All IsChar cs
IsChar-of_IsDecimal [] h = tt
IsChar-of_IsDecimal (c ∷ cs) h = (omega arith, IsChar-of_IsDecimal cs h.1)

itoa_digits_lem :
    (m : Mem) (num str : ℕ)
    → num < 10 ^ 10
    → (m' : Mem) × (itoa_digits m num str ≡ some m') × ReadsAs m' str num × SameBelow m m' str
unfolding itoa_digits Option.map store
itoa_digits_lem m num str lt =
    let got =
      digits_loop-Collected 10 10 decimal_digit decimal_value IsDecimal (omega arith) (omega arith)
        (λ d h. omega arith) (λ d h. omega arith) num lt (omega arith) in
    let text = backwards got.count got.tmp in
    let digits = All-backwards IsDecimal got.count got.tmp got.digits in
    (
      store (write_back got.count got.tmp m str) (str + got.count) 0,
      rw got.result,
      record {
        text = text;
        stands = rw (write_back-backwards got.count got.tmp m str) (
            IsCString-store m str (str + got.count) text (IsChar-of_IsDecimal text digits)
              (omega (arith, length-backwards got.count got.tmp)));
        decimal = digits;
        short = omega (arith, length-backwards got.count got.tmp, got.within);
        number = got.number;
      },
      λ a below. below_same got.count got.tmp a below,
    )
  where
    below_same :
        (k : ℕ) (tmp : List ℕ) (a : ℕ)
        → a < str
        → store (write_back k tmp m str) (str + k) 0 a ≡ m a
    below_same k tmp a below =
        rw (write_back-backwards k tmp m str)
          (ground (arith, store_list_outside m str (backwards k tmp) a))

-- `itoa` of a positive number writes its digits, and nothing below them.
pub itoa_positive :
    (rounds : ℕ) (m : Mem) (n str : ℕ)
    → 0 < n
    → n < 10 ^ 10
    → (m' : Mem) × (itoa rounds m n str ≡ some m') × ReadsAs m' str n × SameBelow m m' str
unfolding itoa
itoa_positive rounds m n str pos lt =
    let positive : is_negative n ≡ false = ground arith in
    let not_min : (n == min_int) ≡ false = ground arith in
    let some_digit : (n == 0) ≡ false = ground arith in
    let (m1, e1, reads1, same1) = itoa_digits_lem m n str lt in
    (m1, rw (positive, not_min, some_digit) e1, reads1, same1)

-- For a magnitude `n` of one to ten digits, `itoa` of `n` writes a terminated text of digits that
-- reads as `n`, and `itoa` of `-n` writes `-` before such a text; neither runs over `tmp`.
pub itoa_lem :
    (rounds : ℕ) (m : Mem) (n str : ℕ)
    → 0 < n
    → n < 10 ^ 10
    → ((m' : Mem) × (itoa rounds m n str ≡ some m') × ReadsAs m' str n)
      × ((m' : Mem) × (itoa rounds m (negate n) str ≡ some m')
          × (m' str ≡ b'-')
          × ReadsAs m' (str + 1) n)
unfolding itoa store
itoa_lem rounds m n str pos lt =
    let (m1, e1, reads1, same1) = itoa_positive rounds m n str pos lt in
    let (m2, e2, reads2, same2) = itoa_digits_lem (store m str b'-') n (str + 1) lt in
    let minus : is_negative (negate n) ≡ true = ground arith in
    let back : negate (negate n) ≡ n = omega arith in
    let not_min : (n == min_int) ≡ false = ground arith in
    let some_digit : (n == 0) ≡ false = ground arith in
    (
      (m1, e1, reads1),
      (m2, rw (minus, back, not_min, some_digit) e2, ground (arith, same2 str), reads2),
    )
