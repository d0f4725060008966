-- ===== src/Strings/Length.antt =====
-- `strlen`, and what it is for a pointer to point at a string.
use lappis.Base.{
  All, List, [], ap, arith, length, refl, some, suc, zero, ℕ, ◌++◌, ◌+◌, ◌<◌, ◌^◌, ◌∙◌, ◌∷◌, ◌≡◌,
  ◌≢◌, ◌≤◌,
}
use lappis.Machine.{Mem}
use lappis.Machine.Memory.{store, store_list, store_list-append, store_list_one, store_list_outside}
use lappis.Strings.{strlen, strlen_loop}

-- At `s` stand the bytes of `cs`, none of them NUL, and a terminator.
abbrev pub IsCString : Mem → ℕ → List ℕ → Type 0
IsCString m s [] = m s ≡ 0
IsCString m s (c ∷ cs) = (m s ≡ c) × (c ≢ 0) × IsCString m (s + 1) cs

strlen_loop_lem :
    (rounds : ℕ) (m : Mem) (s len : ℕ) (cs : List ℕ)
    → IsCString m s cs
    → length cs < rounds
    → len + length cs < 2 ^ 32
    → strlen_loop rounds m s len ≡ some (len + length cs)
unfolding strlen_loop
strlen_loop_lem zero m s len cs str fuel small = absurd (omega arith)
strlen_loop_lem (suc f) m s len [] str fuel small = ground arith
strlen_loop_lem (suc f) m s len (c ∷ cs) str fuel small =
    ground (arith, str.0, strlen_loop_lem f m (s + 1) (len + 1) cs str.2)

-- `strlen` of a string is the number of its bytes, for every string of fewer than 2 ^ 32 bytes.
pub strlen_lem :
    (rounds : ℕ) (m : Mem) (s : ℕ) (cs : List ℕ)
    → IsCString m s cs
    → length cs < rounds
    → length cs < 2 ^ 32
    → strlen rounds m s ≡ some (length cs)
unfolding strlen
strlen_lem rounds m s cs str fuel small =
    strlen_loop_lem rounds m s 0 cs str fuel (omega arith) ∙ ap some (omega arith)

-- A byte that can stand in a string.
abbrev pub IsChar : ℕ → Type 0
IsChar c = (c ≢ 0) × (c < 2 ^ 8)

-- Bytes that are stored with a terminator behind them are a string.
pub IsCString-store :
    (m : Mem) (p end : ℕ) (cs : List ℕ)
    → All IsChar cs
    → end ≡ p + length cs
    → IsCString (store (store_list m p cs) end 0) p cs
unfolding store_list store
IsCString-store m p end [] chars e = ground arith
IsCString-store m p end (c ∷ cs) chars e = (
  ground (arith, chars.0, store_list_outside (store m p c) (p + 1) cs p),
  chars.0.0,
  IsCString-store (store m p c) (p + 1) end cs chars.1 (omega arith),
)

-- A stored text with its terminator is a string.
pub IsCString-stored :
    (m : Mem) (ptr : ℕ) (cs : List ℕ)
    → All IsChar cs
    → IsCString (store_list m ptr (cs ++ 0 ∷ [])) ptr cs
IsCString-stored m ptr cs chars =
    rw
      (
        store_list-append m ptr cs (0 ∷ []),
        store_list_one (store_list m ptr cs) (ptr + length cs) 0,
      )
      (IsCString-store m ptr (ptr + length cs) cs chars refl)

-- A string stays where its bytes stay.
pub IsCString-same :
    (m m' : Mem) (s : ℕ) (cs : List ℕ)
    → ((a : ℕ) → s ≤ a → a ≤ s + length cs → m' a ≡ m a)
    → IsCString m s cs
    → IsCString m' s cs
IsCString-same m m' s [] same str = same s (omega arith) (omega arith) ∙ str
IsCString-same m m' s (c ∷ cs) same str = (
  same s (omega arith) (omega arith) ∙ str.0,
  str.1,
  IsCString-same m m' (s + 1) cs (λ a lo hi. same a (omega arith) (omega arith)) str.2,
)
