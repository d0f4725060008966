-- ===== src/Strings/Append.antt =====
-- `strcat` appends.
use mathlib.Core.Option
use lappis.Base.{
  All, List, [], ap, arith, eq→==, inl, inr, length, ne→==, refl, some, suc, sym, zero, ℕ, ◌++◌,
  ◌+◌, ◌<◌, ◌∙◌, ◌∷◌, ◌≡◌, ◌≢◌, ◌⊎◌,
}
use lappis.Machine.{Mem}
use lappis.Machine.Memory.{Holds, SameBelow, store, store_list, store_list-SameBelow}
use lappis.Strings.{copy_string, find_end, strcat}
use lappis.Strings.Length.{IsCString, IsCString-store, IsChar}

find_end_lem :
    (rounds : ℕ) (m : Mem) (dest : ℕ) (xs : List ℕ)
    → IsCString m dest xs
    → length xs < rounds
    → find_end rounds m dest ≡ some (dest + length xs)
unfolding find_end
find_end_lem zero m dest xs h fuel = absurd (omega arith)
find_end_lem (suc f) m dest [] h fuel = ground arith
find_end_lem (suc f) m dest (x ∷ xs) h fuel =
    rw (ne→== (m dest) 0 (λ z. h.1 (sym h.0 ∙ z)))
      (find_end_lem f m (dest + 1) xs h.2 (omega arith) ∙ ap some (omega arith))

-- A write outside a string, its terminator included, leaves it.
IsCString-store_outside :
    (m : Mem) (p v s : ℕ) (cs : List ℕ)
    → (p < s) ⊎ (s + length cs < p)
    → IsCString m s cs
    → IsCString (store m p v) s cs
unfolding store
IsCString-store_outside m p v s [] out h = ground arith
IsCString-store_outside m p v s (c ∷ cs) out h = (
  ground (arith, h.0),
  h.1,
  IsCString-store_outside m p v (s + 1) cs
      (elim out [ inl before ↦ inl (omega arith) | inr behind ↦ inr (omega arith) ]) h.2,
)

copy_string_lem :
    (rounds : ℕ) (m : Mem) (dest src : ℕ) (ys : List ℕ)
    → IsCString m src ys
    → (dest + length ys < src) ⊎ (src + length ys < dest)
    → length ys < rounds
    → copy_string rounds m dest src ≡ some (store (store_list m dest ys) (dest + length ys) 0)
unfolding copy_string store_list
copy_string_lem zero m dest src ys h apart fuel = absurd (omega arith)
copy_string_lem (suc f) m dest src [] h apart fuel =
    let end : dest ≡ dest + 0 = omega arith in
    rw (eq→== (m src) 0 h) (ap (λ at. some (store m at 0)) end)
copy_string_lem (suc f) m dest src (y ∷ ys) h apart fuel =
    let m1 = store m dest y in
    let shift : dest + 1 + length ys ≡ dest + suc (length ys) = omega arith in
    let clear : (dest < src + 1) ⊎ (src + 1 + length ys < dest) = elim apart [
      | inl before ↦ inl (omega arith)
      | inr behind ↦ inr (omega arith)
    ] in
    let next : (dest + 1 + length ys < src + 1) ⊎ (src + 1 + length ys < dest + 1) = elim apart [
      | inl before ↦ inl (omega arith)
      | inr behind ↦ inr (omega arith)
    ] in
    rw (ne→== (m src) 0 (λ z. h.1 (sym h.0 ∙ z)), h.0)
      (copy_string_lem f m1 (dest + 1) (src + 1) ys
          (IsCString-store_outside m dest y (src + 1) ys clear h.2) next (omega arith)
        ∙ ap (λ at. some (store (store_list m1 (dest + 1) ys) at 0)) shift)

-- A string up to where another one follows.
IsCString-append :
    (m : Mem) (s : ℕ) (xs ys : List ℕ)
    → All (λ x. x ≢ 0) xs
    → Holds m s xs
    → IsCString m (s + length xs) ys
    → IsCString m s (xs ++ ys)
IsCString-append m s [] ys some_chars held h = let start : s + 0 ≡ s = omega arith in rw⁻¹ start h
IsCString-append m s (x ∷ xs) ys some_chars held h =
    let shift : s + suc (length xs) ≡ s + 1 + length xs = omega arith in
    (held.0, some_chars.0, IsCString-append m (s + 1) xs ys some_chars.1 held.1 (rw shift at h))

-- The bytes of a string.
IsCString-Holds :
    (m m' : Mem) (s : ℕ) (xs : List ℕ)
    → IsCString m s xs
    → SameBelow m m' (s + length xs)
    → All (λ x. x ≢ 0) xs × Holds m' s xs
IsCString-Holds m m' s [] h same = (tt, tt)
IsCString-Holds m m' s (x ∷ xs) h same =
    let (some_chars, held) = IsCString-Holds m m' (s + 1) xs h.2 (λ a lt. same a (omega arith)) in
    ((h.1, some_chars), (same s (omega arith) ∙ h.0, held))

below_end :
    (m : Mem) (e : ℕ) (ys : List ℕ) → SameBelow m (store (store_list m e ys) (e + length ys) 0) e
unfolding store
below_end m e ys a lt = ground (arith, store_list-SameBelow m e ys a lt)

-- `strcat` of two strings returns, leaves at `dest` the first string followed by the second, and
-- changes nothing before the end of the first. The strings and the place behind the first do not
-- overlap the source.
pub strcat_lem :
    (rounds : ℕ) (m : Mem) (dest src : ℕ) (xs ys : List ℕ)
    → IsCString m dest xs
    → IsCString m src ys
    → All IsChar ys
    → (dest + length xs + length ys < src) ⊎ (src + length ys < dest)
    → (length xs < rounds) × (length ys < rounds)
    → (m' : Mem) × (strcat rounds m dest src ≡ some m')
      × IsCString m' dest (xs ++ ys)
      × SameBelow m m' (dest + length xs)
unfolding strcat Option.bind
strcat_lem rounds m dest src xs ys hx hy chars apart fuel =
    let e = dest + length xs in
    let next : (e + length ys < src) ⊎ (src + length ys < e) = elim apart [
      | inl before ↦ inl before
      | inr behind ↦ inr (omega arith)
    ] in
    let m' = store (store_list m e ys) (e + length ys) 0 in
    let same : SameBelow m m' e = below_end m e ys in
    let (some_chars, held) = IsCString-Holds m m' dest xs hx same in
    (
      m',
      rw (find_end_lem rounds m dest xs hx fuel.0)
          (copy_string_lem rounds m e src ys hy next fuel.1),
      IsCString-append m' dest xs ys some_chars held
          (IsCString-store m e (e + length ys) ys chars refl),
      same,
    )
