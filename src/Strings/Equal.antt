-- ===== src/Strings/Equal.antt =====
-- `streq` decides whether two strings are the same.
use mathlib.Core.Option
use lappis.Base.{
  ==_iff, Bool, Bool-cases, List, [], ap, ap₂, arith, false, if◌then◌else◌, inl, inr, length, ne→==,
  refl, some, sym, true, ℕ, ◌!=◌, ◌+◌, ◌<◌, ◌==◌, ◌^◌, ◌↔◌, ◌∙◌, ◌∷◌, ◌≡◌, ◌≢◌,
}
use lappis.Machine.{Mem}
use lappis.Strings.{same_bytes, streq}
use lappis.Strings.Length.{IsCString, strlen_lem}

same_bytes_iff :
    (m : Mem) (a b : ℕ) (xs ys : List ℕ)
    → IsCString m a xs
    → IsCString m b ys
    → length xs ≡ length ys
    → (same_bytes (length xs) m a b ≡ true) ↔ (xs ≡ ys)
unfolding same_bytes
same_bytes_iff m a b [] [] hx hy e = (λ _. refl, λ _. refl)
same_bytes_iff m a b [] (y ∷ ys) hx hy e = absurd (omega arith)
same_bytes_iff m a b (x ∷ xs) [] hx hy e = absurd (omega arith)
same_bytes_iff m a b (x ∷ xs) (y ∷ ys) hx hy e =
    let (to, from) = same_bytes_iff m (a + 1) (b + 1) xs ys hx.2 hy.2 (omega arith) in
    (λ h. ground (arith, to), λ h. ground (arith, from))

IsCString-unique :
    (m : Mem) (a : ℕ) (xs ys : List ℕ) → IsCString m a xs → IsCString m a ys → xs ≡ ys
IsCString-unique m a [] [] hx hy = refl
IsCString-unique m a [] (y ∷ ys) hx hy = absurd (hy.1 (sym hy.0 ∙ hx))
IsCString-unique m a (x ∷ xs) [] hx hy = absurd (hx.1 (sym hx.0 ∙ hy))
IsCString-unique m a (x ∷ xs) (y ∷ ys) hx hy =
    ap₂ ◌∷◌ (sym hx.0 ∙ hy.0) (IsCString-unique m (a + 1) xs ys hx.2 hy.2)

pub compared_iff :
    (m : Mem) (a b : ℕ) (xs ys : List ℕ)
    → IsCString m a xs
    → IsCString m b ys
    → ((if length xs != length ys then false else same_bytes (length xs) m a b) ≡ true) ↔ (xs ≡ ys)
compared_iff m a b xs ys hx hy = elim (Bool-cases (length xs != length ys)) [
  | inl unequal ↦ rw unequal ((λ h. cc), λ e. absurd (ground (arith, ap length e)))
  | inr equal ↦ rw equal (same_bytes_iff m a b xs ys hx hy (ground arith))
]

-- `streq` of two strings returns, and returns true exactly if they have the same bytes. Neither
-- pointer is NULL, and both strings are shorter than 2 ^ 31 bytes.
pub streq_lem :
    (rounds : ℕ) (m : Mem) (a b : ℕ) (xs ys : List ℕ)
    → IsCString m a xs
    → IsCString m b ys
    → (a ≢ 0) × (b ≢ 0)
    → (length xs < rounds) × (length ys < rounds)
    → (length xs < 2 ^ 31) × (length ys < 2 ^ 31)
    → (r : Bool) × (streq rounds m a b ≡ some r) × ((r ≡ true) ↔ (xs ≡ ys))
unfolding streq Option.bind
streq_lem rounds m a b xs ys hx hy ne fuel small =
    let a_some = ne→== a 0 ne.0 in
    let b_some = ne→== b 0 ne.1 in
    elim (Bool-cases (a == b)) [
      | inl same ↦
          let one : a ≡ b = (==_iff a b).0 same in
          (
            true,
            rw (a_some, b_some, same),
            ((λ _. IsCString-unique m a xs ys hx (rw one hy)), (λ _. refl)),
          )
      | inr apart ↦ (
        if length xs != length ys then false else same_bytes (length xs) m a b,
        rw (
          a_some,
          b_some,
          apart,
          strlen_lem rounds m a xs hx fuel.0 (omega arith),
          strlen_lem rounds m b ys hy fuel.1 (omega arith),
        ),
        compared_iff m a b xs ys hx hy,
      )
    ]
