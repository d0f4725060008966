-- ===== src/Tests/Texts.antt =====
-- The string functions on short strings.
use lappis.Base.{
  Bool, List, [], arith, if◌then◌else◌, inr, refl, some, true, ℕ, ◌-◌, ◌==◌, ◌^◌, ◌↔◌, ◌∷◌, ◌≡◌,
}
use lappis.Machine.{Mem}
use lappis.Machine.Memory.{SameBelow}
use lappis.Strings.{itoa, negate, strcat, streq, strrchr, strrchr_loop}
use lappis.Strings.Append.{strcat_lem}
use lappis.Strings.Decimal.Itoa.{ReadsAs, itoa_lem}
use lappis.Strings.Equal.{streq_lem}
use lappis.Strings.Length.{IsCString}
use lappis.Strings.Search.{strrchr-Absent}

-- `ab` at 16 and at 32, `abc` at 48.
abbrev texts : Mem
texts a =
    if a == 16
    then b'a'
    else if a == 17
    then b'b'
    else if a == 32
    then b'a'
    else if a == 33
    then b'b'
    else if a == 48
    then b'a'
    else if a == 49
    then b'b'
    else if a == 50
    then b'c'
    else 0

abbrev ab : List ℕ
ab = b'a' ∷ b'b' ∷ []

ab_at_16 : IsCString texts 16 ab
ab_at_16 = (refl, omega arith, (refl, omega arith, refl))

abc_at_48 : IsCString texts 48 (b'a' ∷ b'b' ∷ b'c' ∷ [])
abc_at_48 = (refl, omega arith, (refl, omega arith, (refl, omega arith, refl)))

streq_lem_example :
    (r : Bool) × (streq 100 texts 16 48 ≡ some r) × ((r ≡ true) ↔ (ab ≡ b'a' ∷ b'b' ∷ b'c' ∷ []))
streq_lem_example =
    streq_lem 100 texts 16 48 ab (b'a' ∷ b'b' ∷ b'c' ∷ []) ab_at_16 abc_at_48
      (omega arith, omega arith) (omega arith, omega arith) (omega arith, omega arith)

strrchr-Absent_example : strrchr 103 texts 16 b'z' ≡ strrchr_loop 100 texts 16 b'z' (2 ^ 64 - 1)
strrchr-Absent_example =
    strrchr-Absent 100 texts 16 b'z' ab ab_at_16 (omega arith, (omega arith, tt)) (omega arith)
      (omega arith) (omega arith)

itoa_lem_example :
    ((m' : Mem) × (itoa 100 texts 1234567890 64 ≡ some m') × ReadsAs m' 64 1234567890)
    × ((m' : Mem) × (itoa 100 texts (negate 1234567890) 64 ≡ some m')
        × (m' 64 ≡ b'-')
        × ReadsAs m' 65 1234567890)
itoa_lem_example = itoa_lem 100 texts 1234567890 64 (omega arith) (omega arith)

strcat_lem_example :
    (m' : Mem) × (strcat 100 texts 48 16 ≡ some m')
    × IsCString m' 48 (b'a' ∷ b'b' ∷ b'c' ∷ b'a' ∷ b'b' ∷ [])
    × SameBelow texts m' 51
strcat_lem_example =
    strcat_lem 100 texts 48 16 (b'a' ∷ b'b' ∷ b'c' ∷ []) ab abc_at_48 ab_at_16
      ((omega arith, omega arith), ((omega arith, omega arith), tt)) (inr (omega arith))
      (omega arith, omega arith)
