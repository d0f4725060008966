-- ===== src/Keyboard/Ascii.antt =====
-- The translation of scan codes.
use lappis.Base.{
  Bool, List, [], ap, arith, false, holds_below, holds_below_sound, if◌then◌else◌, leb, refl, sym,
  true, ℕ, ◌+◌, ◌-◌, ◌<◌, ◌==◌, ◌||◌, ◌∙◌, ◌∷◌, ◌≡◌, ◌≢◌,
}
use lappis.Keyboard.{keyboard_to_ascii, lookup_key, scan_codes}

-- A released key gives the character of the pressed one: the high bit is dropped.
pub keyboard_to_ascii-released :
    (key : ℕ) → key < 0x80 → keyboard_to_ascii (key + 0x80) ≡ keyboard_to_ascii key
unfolding keyboard_to_ascii
keyboard_to_ascii-released key lt =
    let high : leb 0x80 (key + 0x80) ≡ true = ground arith in
    let low : leb 0x80 key ≡ false = ground arith in
    let same : key + 0x80 - 0x80 ≡ key = omega arith in rw (high, low, same)

-- The scan code of a character.
code_of : ℕ → List (ℕ × ℕ) → ℕ
code_of char [] = 0
code_of char ((code, c) ∷ cases) = if char == c then code else code_of char cases

unambiguous : ℕ → Bool
unambiguous key = let char = keyboard_to_ascii key in char == 0 || code_of char scan_codes == key

all_unambiguous : holds_below unambiguous 128 ≡ true
unfolding unambiguous code_of keyboard_to_ascii lookup_key
all_unambiguous = refl

found_back :
    (key : ℕ)
    → key < 0x80
    → keyboard_to_ascii key ≢ 0
    → code_of (keyboard_to_ascii key) scan_codes ≡ key
unfolding unambiguous
found_back key lt some_char =
    ground (arith, holds_below_sound unambiguous 128 all_unambiguous key lt)

-- No two keys give the same character: two scan codes of pressed keys with the same character, which
-- is not the 0 of an unknown key, are equal.
pub keyboard_to_ascii-injective :
    (a b : ℕ)
    → a < 0x80
    → b < 0x80
    → keyboard_to_ascii a ≢ 0
    → keyboard_to_ascii a ≡ keyboard_to_ascii b
    → a ≡ b
keyboard_to_ascii-injective a b lt_a lt_b some_char same =
    sym (found_back a lt_a some_char)
    ∙ ap (λ char. code_of char scan_codes) same
    ∙ found_back b lt_b (λ e. some_char (same ∙ e))
