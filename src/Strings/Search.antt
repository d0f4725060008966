-- ===== src/Strings/Search.antt =====
-- `strrchr`: the last occurrence, and what happens when there is none.
use mathlib.Core.Option
use lappis.Base.{
  All, List, [], add64, ap, ap₂, arith, eq→==, length, length-append, ne→==, some, sub64, suc, sym,
  zero, ℕ, ◌++◌, ◌+◌, ◌-◌, ◌<◌, ◌^◌, ◌∙◌, ◌∷◌, ◌≡◌, ◌≢◌, ◌≤◌,
}
use lappis.Machine.{Mem}
use lappis.Strings.{strrchr, strrchr_loop}
use lappis.Strings.Length.{IsCString, strlen_lem}

-- The byte does not occur.
abbrev pub Absent : ℕ → List ℕ → Type 0
Absent c = All (λ x. x ≢ c)

-- No byte of the string, nor its terminator, is `c`.
Absent-at :
    (m : Mem) (p c : ℕ) (cs : List ℕ) (j : ℕ)
    → IsCString m p cs
    → Absent c cs
    → c ≢ 0
    → j ≤ length cs
    → m (p + j) ≢ c
Absent-at m p c [] j h gone ne le e =
    let start : p + j ≡ p = omega arith in ne (sym e ∙ ap m start ∙ h)
Absent-at m p c (x ∷ cs) zero h gone ne le e =
    let start : p + 0 ≡ p = omega arith in gone.0 (sym h.0 ∙ sym (ap m start) ∙ e)
Absent-at m p c (x ∷ cs) (suc j) h gone ne le e =
    let shift : p + suc j ≡ p + 1 + j = omega arith in
    Absent-at m (p + 1) c cs j h.2 gone.1 ne (omega arith) (sym (ap m shift) ∙ e)

strrchr_loop-miss :
    (f : ℕ) (m : Mem) (str c i : ℕ)
    → str + suc i < 2 ^ 64
    → m (str + suc i) ≢ c
    → strrchr_loop (suc f) m str c (suc i) ≡ strrchr_loop f m str c i
unfolding strrchr_loop
strrchr_loop-miss f m str c i small gone =
    let here : add64 str (suc i) ≡ str + suc i = omega arith in
    let down : sub64 (suc i) 1 ≡ i = omega arith in rw (here, ne→== (m (str + suc i)) c gone, down)

strrchr_loop-hit :
    (f : ℕ) (m : Mem) (str c i : ℕ)
    → str + i < 2 ^ 64
    → m (str + i) ≡ c
    → strrchr_loop (suc f) m str c i ≡ some i
unfolding strrchr_loop
strrchr_loop-hit f m str c i small e =
    let here : add64 str i ≡ str + i = omega arith in rw (here, eq→== (m (str + i)) c e)

strrchr_loop-first :
    (f : ℕ) (m : Mem) (str c : ℕ)
    → str < 2 ^ 64
    → m str ≢ c
    → strrchr_loop (suc f) m str c 0 ≡ strrchr_loop f m str c (2 ^ 64 - 1)
unfolding strrchr_loop
strrchr_loop-first f m str c small gone =
    let here : add64 str 0 ≡ str = omega arith in rw (here, ne→== (m str) c gone)

-- The search passes over the `n` bytes above index `i`.
strrchr_loop-skip :
    (m : Mem) (str c i n f : ℕ)
    → ((j : ℕ) → i < j → j ≤ i + n → m (str + j) ≢ c)
    → str + i + n < 2 ^ 64
    → strrchr_loop (n + f) m str c (i + n) ≡ strrchr_loop f m str c i
strrchr_loop-skip m str c i zero f gone small =
    ap₂ (λ k j. strrchr_loop k m str c j) (omega arith) (omega arith)
strrchr_loop-skip m str c i (suc n) f gone small =
    let more : suc n + f ≡ suc (n + f) = omega arith in
    let next : i + suc n ≡ suc (i + n) = omega arith in
    rw (more, next)
      (strrchr_loop-miss (n + f) m str c (i + n) (omega arith)
          (gone (suc (i + n)) (omega arith) (omega arith))
        ∙ strrchr_loop-skip m str c i n f (λ j lo hi. gone j lo (omega arith)) (omega arith))

pub IsCString-drop :
    (m : Mem) (p : ℕ) (xs ys : List ℕ) → IsCString m p (xs ++ ys) → IsCString m (p + length xs) ys
IsCString-drop m p [] ys h = let start : p + 0 ≡ p = omega arith in rw start h
IsCString-drop m p (x ∷ xs) ys h =
    let shift : p + suc (length xs) ≡ p + 1 + length xs = omega arith in
    rw shift (IsCString-drop m (p + 1) xs ys h.2)

-- `strrchr` returns the index of the last `c`: `xs` stands before it and `ys`, in which `c` does
-- not occur, behind it.
pub strrchr_last :
    (rounds : ℕ) (m : Mem) (str c : ℕ) (xs ys : List ℕ)
    → IsCString m str (xs ++ c ∷ ys)
    → Absent c ys
    → length (xs ++ c ∷ ys) < rounds
    → length (xs ++ c ∷ ys) < 2 ^ 32
    → str + length (xs ++ c ∷ ys) < 2 ^ 64
    → strrchr rounds m str c ≡ some (length xs)
unfolding strrchr Option.bind
strrchr_last rounds m str c xs ys h gone fuel small room =
    let back = IsCString-drop m str xs (c ∷ ys) h in
    let size = length-append xs (c ∷ ys) in
    let spare : rounds ≡ suc (length ys) + suc (rounds - suc (suc (length ys))) = omega arith in
    rw (strlen_lem rounds m str (xs ++ c ∷ ys) h fuel small) (
      ap₂ (λ k j. strrchr_loop k m str c j) spare size
      ∙ strrchr_loop-skip m str c (length xs) (suc (length ys))
          (suc (rounds - suc (suc (length ys))))
          (λ j lo hi e.
            let addr : str + length xs + 1 + (j - suc (length xs)) ≡ str + j = omega arith in
            Absent-at m (str + length xs + 1) c ys (j - suc (length xs)) back.2 gone back.1
              (omega arith) (ap m addr ∙ e))
          (omega arith)
      ∙ strrchr_loop-hit (rounds - suc (suc (length ys))) m str c (length xs) (omega arith) back.0)

-- Where `c` does not occur, `strrchr` does not return at the start of the string: its unsigned
-- index wraps, and the search goes on with the byte before the string, at index 2 ^ 64 - 1.
pub strrchr-Absent :
    (rounds : ℕ) (m : Mem) (str c : ℕ) (cs : List ℕ)
    → IsCString m str cs
    → Absent c cs
    → c ≢ 0
    → length cs < 2 ^ 32
    → str + length cs < 2 ^ 64
    → strrchr (length cs + 1 + rounds) m str c ≡ strrchr_loop rounds m str c (2 ^ 64 - 1)
unfolding strrchr Option.bind
strrchr-Absent rounds m str c cs h gone ne small room =
    rw (strlen_lem (length cs + 1 + rounds) m str cs h (omega arith) small) (
      ap (λ k. strrchr_loop k m str c (length cs)) (omega arith)
      ∙ ap (λ j. strrchr_loop (length cs + suc rounds) m str c j) (omega arith)
      ∙ strrchr_loop-skip m str c 0 (length cs) (suc rounds)
          (λ j lo hi. Absent-at m str c cs j h gone ne (omega arith)) (omega arith)
      ∙ strrchr_loop-first rounds m str c (omega arith) (λ e.
        let addr : str + 0 ≡ str = omega arith in
        Absent-at m str c cs 0 h gone ne (omega arith) (ap m addr ∙ e)))
