-- ===== src/Userland/Line.antt =====
-- Lines that are typed in the shell, in memory, and the answer.
use lappis.Base.{
  All, List, [], ap, arith, inl, inr, length, some, sym, ℕ, ◌++◌, ◌+◌, ◌<◌, ◌^◌, ◌∙◌, ◌∷◌, ◌≡◌, ◌≢◌,
  ◌≤◌, ◌⊎◌,
}
use lappis.Machine.{Mem}
use lappis.Machine.Memory.{
  Holds-append, Holds-store_list, bytes_at, bytes_at-eq_of_Holds, fill, fill_lem, store, store_list,
  store_list_outside,
}
use lappis.Strings.Length.{IsCString, IsCString-stored, IsChar}
use lappis.Userland.{Sprintf, strlen}
use lappis.Userland.Strip.{IsBlank, IsInk, length_found}

-- A line: its first character, those up to its last that is not blank, and the blanks behind it.
pub record Line : Type 0 where
  pub first : ℕ
  pub middle : List ℕ
  pub last : ℕ
  pub blanks : List ℕ

abbrev pub text_of : Line → List ℕ
text_of l = l.first ∷ (l.middle ++ l.last ∷ [])

abbrev pub characters : Line → List ℕ
characters l = text_of l ++ l.blanks

-- The line fits its array, and has no NUL and no line feed.
pub record IsLine (l : Line) : Type 0 where
  pub plain : All (λ c. IsChar c × (c ≢ 10)) (characters l)
  pub ink : IsInk l.last
  pub blanks : All IsBlank l.blanks
  pub short : length (characters l) < 128

-- A line in the array, up to the NUL that was there.
pub IsCString-zeroed :
    (m : Mem) (p end : ℕ) (cs : List ℕ)
    → All IsChar cs
    → end ≡ p + length cs
    → m end ≡ 0
    → IsCString (store_list m p cs) p cs
unfolding store_list store
IsCString-zeroed m p end [] chars e zeroed =
    let at : end ≡ p = omega (arith, e) in ap m (sym at) ∙ zeroed
IsCString-zeroed m p end (c ∷ cs) chars e zeroed = (
  ground (arith, chars.0, store_list_outside (store m p c) (p + 1) cs p),
  chars.0.0,
  IsCString-zeroed (store m p c) (p + 1) end cs chars.1 (omega (arith, e))
      (ground (arith, e, zeroed)),
)

pub All-chars : (cs : List ℕ) → All (λ c. IsChar c × (c ≢ 10)) cs → All IsChar cs
All-chars [] h = tt
All-chars (c ∷ cs) h = (h.0.0, All-chars cs h.1)

bytes_of_chars : (cs : List ℕ) → All IsChar cs → All (λ b. b < 2 ^ 8) (cs ++ 0 ∷ [])
bytes_of_chars [] h = (omega arith, tt)
bytes_of_chars (c ∷ cs) h = (h.0.1, bytes_of_chars cs h.1)

-- A text that sprintf stored is measured, and read back.
pub printed_text :
    (rounds : ℕ) (m : Mem) (p : ℕ) (text : List ℕ)
    → All IsChar text
    → length text < 128
    → 128 < rounds
    → rounds < 2 ^ 31
    → (strlen rounds (store_list m p (text ++ 0 ∷ [])) p ≡ some (length text))
      × (bytes_at (store_list m p (text ++ 0 ∷ [])) p (length text) ≡ text)
printed_text rounds m p text chars short enough int =
    let m' = store_list m p (text ++ 0 ∷ []) in
    let stored = Holds-store_list m p (text ++ 0 ∷ []) (bytes_of_chars text chars) in
    (
      length_found rounds m' p text (IsCString-stored m p text chars) (omega (arith, short, enough))
          int,
      bytes_at-eq_of_Holds m' p text (Holds-append m' p text (0 ∷ []) stored).0,
    )

pub All-plain : (cs : List ℕ) → All (λ c. IsChar c × (c ≢ 10)) cs → All (λ c. (c ≢ 0) × (c ≢ 10)) cs
All-plain [] h = tt
All-plain (c ∷ cs) h = ((h.0.0.0, h.0.1), All-plain cs h.1)

-- The answer to `pwd`, as sprintf makes it.
pub record Answers (sprintf : Sprintf) (text : List ℕ) : Type 0 where
  pub is : sprintf "> %s\n" "/" ≡ text ++ 0 ∷ []
  pub chars : All IsChar text
  pub short : length text < 128

-- The literal and an array of 128 bytes do not overlap.
abbrev pub Disjoint : ℕ → ℕ → Type 0
Disjoint pwd array = (pwd + 4 ≤ array) ⊎ (array + 128 ≤ pwd)

-- A byte of the literal, which a write into the array does not reach.
abbrev pub IsOff : ℕ → ℕ → Type 0
IsOff array a = (a < array) ⊎ (array + 128 ≤ a)

pub Disjoint-IsOff : (pwd array a : ℕ) → Disjoint pwd array → pwd ≤ a → a < pwd + 4 → IsOff array a
Disjoint-IsOff pwd array a apart lo hi = elim apart [
  | inl below ↦ inl (omega (arith, below, hi))
  | inr above ↦ inr (omega (arith, above, lo))
]

pub fill_off : (m : Mem) (array v a : ℕ) → IsOff array a → fill m array 128 v a ≡ m a
fill_off m array v a off = elim off [
  | inl below ↦ ground (arith, fill_lem m array 128 v a, below)
  | inr above ↦ ground (arith, fill_lem m array 128 v a, above)
]

pub store_list_off :
    (m : Mem) (array : ℕ) (cs : List ℕ) (a : ℕ)
    → length cs ≤ 128
    → IsOff array a
    → store_list m array cs a ≡ m a
store_list_off m array cs a fits off = elim off [
  | inl below ↦ ground (arith, store_list_outside m array cs a, below)
  | inr above ↦ ground (arith, store_list_outside m array cs a, above, fits)
]

pub store_off :
    (m : Mem) (array k v a : ℕ) → k < 128 → IsOff array a → store m (array + k) v a ≡ m a
unfolding store
store_off m array k v a lt off = elim off [
  | inl below ↦ ground (arith, below)
  | inr above ↦ ground (arith, above, lt)
]
