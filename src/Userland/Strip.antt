-- ===== src/Userland/Strip.antt =====
-- `strip` removes the blanks at the end of a line, and `get_line` reads one.
use mathlib.Core.Option
use lappis.Base.{
  All, Bool, List, [], add64, ap, append_assoc, arith, false, if◌then◌else◌, inl, inr, length,
  length-append, ltb-cases, ne→==, refl, some, suc, sym, true, zero, ℕ, ◌!=◌, ◌++◌, ◌+◌, ◌-◌, ◌<◌,
  ◌^◌, ◌↔◌, ◌∙◌, ◌∷◌, ◌≡◌, ◌≢◌, ◌≤◌, ◌⊎◌,
}
use lappis.Machine.{Mem}
use lappis.Machine.Memory.{store, store_list}
use lappis.Strings.{same_bytes}
use lappis.Strings.Equal.{compared_iff}
use lappis.Strings.Length.{IsCString}
use lappis.Strings.Search.{IsCString-drop}
use lappis.Userland.{
  get_line, get_line_loop, is_blank, strcmp, strip, strip_loop, strlen, strlen_loop,
}

abbrev pub IsBlank : ℕ → Type 0
IsBlank c = is_blank c ≡ true

-- A character that `strip` stops at.
abbrev pub IsInk : ℕ → Type 0
IsInk c = is_blank c ≡ false

strlen_loop_lem :
    (rounds : ℕ) (m : Mem) (s len : ℕ) (cs : List ℕ)
    → IsCString m s cs
    → length cs < rounds
    → len + length cs < 2 ^ 64
    → strlen_loop rounds m s len ≡ some (len + length cs)
unfolding strlen_loop
strlen_loop_lem zero m s len cs str fuel small = absurd (omega arith)
strlen_loop_lem (suc f) m s len [] str fuel small = ground arith
strlen_loop_lem (suc f) m s len (c ∷ cs) str fuel small =
    ground (arith, str.0, strlen_loop_lem f m (s + 1) (len + 1) cs str.2)

pub length_found :
    (rounds : ℕ) (m : Mem) (s : ℕ) (cs : List ℕ)
    → IsCString m s cs
    → length cs < rounds
    → rounds < 2 ^ 31
    → strlen rounds m s ≡ some (length cs)
unfolding strlen
length_found rounds m s cs h fuel small =
    strlen_loop_lem rounds m s 0 cs h fuel (omega arith) ∙ ap some (omega arith)

-- Blanks at the indices above `top`, and none at `top`: the loop ends the string behind `top`.
strip_loop_lem :
    (m : Mem) (s kill i top : ℕ)
    → 0 < top
    → top ≤ i
    → kill ≡ suc i
    → IsInk (m (s + top))
    → ((j : ℕ) → top < j → j ≤ i → IsBlank (m (s + j)))
    → strip_loop m s kill i ≡ store m (s + suc top) 0
unfolding strip_loop
strip_loop_lem m s kill zero top pos le e ink blanks = absurd (omega arith)
strip_loop_lem m s kill (suc i) top pos le e ink blanks = elim (ltb-cases top (suc i)) [
  | inl (t, above) ↦ rw (blanks (suc i) above (omega arith)) (
      strip_loop_lem m s (suc i) i top pos (omega arith) refl ink
        (λ j gt small. blanks j gt (omega arith)))
  | inr (t, le') ↦
      let here : top ≡ suc i = omega arith in
      rw (ap (λ j. is_blank (m (s + j))) (sym here) ∙ ink, e, here)
]

IsBlank-at :
    (m : Mem) (s : ℕ) (ws : List ℕ) (j : ℕ)
    → IsCString m s ws
    → All IsBlank ws
    → j < length ws
    → IsBlank (m (s + j))
IsBlank-at m s [] j h blanks lt = absurd (omega arith)
IsBlank-at m s (w ∷ ws) zero h blanks lt =
    let start : s + 0 ≡ s = omega arith in rw (start, h.0) blanks.0
IsBlank-at m s (w ∷ ws) (suc j) h blanks lt =
    let shift : s + suc j ≡ s + 1 + j = omega arith in
    rw shift (IsBlank-at m (s + 1) ws j h.2 blanks.1 (omega arith))

-- A NUL behind a part of a string ends it there.
cut :
    (m : Mem) (s end : ℕ) (xs ws : List ℕ)
    → IsCString m s (xs ++ ws)
    → end ≡ s + length xs
    → IsCString (store m end 0) s xs
unfolding store
cut m s end [] ws h e = ground arith
cut m s end (x ∷ xs) ws h e = (ground (arith, h.0), h.1, cut m (s + 1) end xs ws h.2 (omega arith))

-- `strip` of a line of at least two characters before the blanks at its end removes exactly these
-- blanks: what is left is the line up to its last character that is not blank, and it does so by
-- one write. The line is followed for more rounds than it has characters.
pub strip_lem :
    (rounds : ℕ) (m : Mem) (s x z : ℕ) (xs ws : List ℕ)
    → IsCString m s ((x ∷ (xs ++ z ∷ [])) ++ ws)
    → IsInk z
    → All IsBlank ws
    → length ((x ∷ (xs ++ z ∷ [])) ++ ws) < rounds
    → rounds < 2 ^ 31
    → (strip rounds m s ≡ some (store m (s + suc (suc (length xs))) 0))
      × IsCString (store m (s + suc (suc (length xs))) 0) s (x ∷ (xs ++ z ∷ []))
unfolding strip strlen Option.map
strip_lem rounds m s x z xs ws h ink blanks fuel small =
    let line = (x ∷ (xs ++ z ∷ [])) ++ ws in
    let size = length-append (xs ++ z ∷ []) ws in
    let size' = length-append xs (z ∷ []) in
    let back : IsCString m (s + suc (length xs)) (z ∷ ws) =
      IsCString-drop m s (x ∷ xs) (z ∷ ws) (rw (append_assoc xs (z ∷ []) ws) at h) in
    (
      rw (strlen_loop_lem rounds m s 0 line h fuel (omega arith)) (
          ap some (
            strip_loop_lem m s (0 + length line) (0 + length line - 1) (suc (length xs))
              (omega arith) (omega arith) (omega arith) (rw back.0 ink)
              (λ j gt le.
                let at : s + j ≡ s + suc (length xs) + 1 + (j - suc (suc (length xs))) =
                  omega arith in
                rw at (
                  IsBlank-at m (s + suc (length xs) + 1) ws (j - suc (suc (length xs))) back.2
                    blanks (omega arith))))),
      cut m s (s + suc (suc (length xs))) (x ∷ (xs ++ z ∷ [])) ws h (omega arith),
    )

-- `strcmp` of two strings returns, and returns true exactly if they have the same bytes.
pub strcmp_lem :
    (rounds : ℕ) (m : Mem) (a b : ℕ) (xs ys : List ℕ)
    → IsCString m a xs
    → IsCString m b ys
    → (length xs < rounds) × (length ys < rounds)
    → rounds < 2 ^ 31
    → (r : Bool) × (strcmp rounds m a b ≡ some r) × ((r ≡ true) ↔ (xs ≡ ys))
unfolding strcmp Option.bind
strcmp_lem rounds m a b xs ys hx hy fuel small = (
  if length xs != length ys then false else same_bytes (length xs) m a b,
  rw (length_found rounds m a xs hx fuel.0 small, length_found rounds m b ys hy fuel.1 small),
  compared_iff m a b xs ys hx hy,
)

get_line_loop_lem :
    (m : Mem) (line i : ℕ) (cs : List ℕ) (end : ℕ) (rest : List ℕ)
    → All (λ c. (c ≢ 0) × (c ≢ 10)) cs
    → (end ≡ 0) ⊎ (end ≡ 10)
    → i + length cs < 2 ^ 64
    → get_line_loop (cs ++ end ∷ rest) m line i ≡ some (store_list m (line + i) cs, rest)
unfolding get_line_loop store_list
get_line_loop_lem m line i [] end rest plain ends small = ground arith
get_line_loop_lem m line i (c ∷ cs) end rest plain ends small =
    let more =
      get_line_loop_lem (store m (line + i) c) line (add64 i 1) cs end rest plain.1 ends
        (omega arith) in
    let next : line + add64 i 1 ≡ line + i + 1 = omega arith in
    rw (ne→== c 0 plain.0.0, ne→== c 10 plain.0.1)
      (more ∙ ap (λ at. some (store_list (store m (line + i) c) at cs, rest)) next)

-- `get_line` stores the characters up to the first NUL or end of line, however many they are, and
-- leaves exactly the ones behind it unread.
pub get_line_lem :
    (m : Mem) (line : ℕ) (cs : List ℕ) (end : ℕ) (rest : List ℕ)
    → All (λ c. (c ≢ 0) × (c ≢ 10)) cs
    → (end ≡ 0) ⊎ (end ≡ 10)
    → length cs < 2 ^ 64
    → get_line (cs ++ end ∷ rest) m line ≡ some (store_list m line cs, rest)
unfolding get_line
get_line_lem m line cs end rest plain ends small =
    get_line_loop_lem m line 0 cs end rest plain ends (omega arith)
    ∙ ap (λ at. some (store_list m at cs, rest)) (omega arith)
