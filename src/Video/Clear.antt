-- ===== src/Video/Clear.antt =====
-- Clearing the screen.
use lappis.Base.{
  ap, arith, inl, inr, ltb-cases, refl, suc, zero, ℕ, ◌+◌, ◌<◌, ◌∙◌, ◌≡◌, ◌≢◌, ◌≤◌, ◌⊎◌,
}
use lappis.Machine.{Mem}
use lappis.Video.{black, clear_row, clear_rows, clear_screen, height, set_pixel, width}
use lappis.Video.Pixels.{IsColor, pixel_at, set_pixel_lem}

black-IsColor : IsColor black
black-IsColor = record {
  red_byte = omega arith;
  green_byte = omega arith;
  blue_byte = omega arith;
  alpha_byte = omega arith;
}

module _ (fb : ℕ) where
  -- A pixel that the loop over a row does not reach keeps its color.
  clear_row-outside :
      (m : Mem) (y left x x' y' : ℕ)
      → x + left ≤ width
      → y < height
      → (x' < width) × (y' < height)
      → (x' < x) ⊎ (y ≢ y')
      → pixel_at fb (clear_row fb m y left x) x' y' ≡ pixel_at fb m x' y'
  unfolding clear_row
  clear_row-outside m y zero x x' y' fits y_in on out = refl
  clear_row-outside m y (suc left) x x' y' fits y_in on out =
      let apart : (x ≢ x') ⊎ (y ≢ y') = elim out [ inl lt ↦ inl (omega arith) | inr ne ↦ inr ne ] in
      let next : (x' < x + 1) ⊎ (y ≢ y') = elim out [
        | inl lt ↦ inl (omega arith)
        | inr ne ↦ inr ne
      ] in
      clear_row-outside (set_pixel fb m x y black) y left (x + 1) x' y' (omega arith) y_in on next
      ∙ (set_pixel_lem fb m x y black black-IsColor (omega arith) y_in).1 x' y' on.0 on.1 apart

  clear_row-inside :
      (m : Mem) (y left x x' : ℕ)
      → x + left ≤ width
      → y < height
      → x ≤ x'
      → x' < x + left
      → pixel_at fb (clear_row fb m y left x) x' y ≡ black
  unfolding clear_row
  clear_row-inside m y zero x x' fits y_in ge lt = absurd (omega arith)
  clear_row-inside m y (suc left) x x' fits y_in ge lt =
      let next = set_pixel fb m x y black in
      elim (ltb-cases x x') [
        | inl (t, above) ↦
            clear_row-inside next y left (x + 1) x' (omega arith) y_in (omega arith) (omega arith)
        | inr (t, le) ↦
            let here : x' ≡ x = omega arith in
            clear_row-outside next y left (x + 1) x' y (omega arith) y_in (omega arith, y_in)
              (inl (omega arith))
            ∙ ap (λ at. pixel_at fb next at y) here
            ∙ (set_pixel_lem fb m x y black black-IsColor (omega arith) y_in).0
      ]

  clear_rows-outside :
      (m : Mem) (left y x' y' : ℕ)
      → y + left ≤ height
      → (x' < width) × (y' < height)
      → y' < y
      → pixel_at fb (clear_rows fb m left y) x' y' ≡ pixel_at fb m x' y'
  unfolding clear_rows
  clear_rows-outside m zero y x' y' fits on lt = refl
  clear_rows-outside m (suc left) y x' y' fits on lt =
      clear_rows-outside (clear_row fb m y width 0) left (y + 1) x' y' (omega arith) on
        (omega arith)
      ∙ clear_row-outside m y width 0 x' y' (omega arith) (omega arith) on (inr (omega arith))

  clear_rows-inside :
      (m : Mem) (left y x' y' : ℕ)
      → y + left ≤ height
      → x' < width
      → y ≤ y'
      → y' < y + left
      → pixel_at fb (clear_rows fb m left y) x' y' ≡ black
  unfolding clear_rows
  clear_rows-inside m zero y x' y' fits x_in ge lt = absurd (omega arith)
  clear_rows-inside m (suc left) y x' y' fits x_in ge lt =
      let row = clear_row fb m y width 0 in
      elim (ltb-cases y y') [
        | inl (t, above) ↦
            clear_rows-inside row left (y + 1) x' y' (omega arith) x_in (omega arith) (omega arith)
        | inr (t, le) ↦
            let here : y' ≡ y = omega arith in
            clear_rows-outside row left (y + 1) x' y' (omega arith) (x_in, omega arith)
              (omega arith)
            ∙ ap (λ at. pixel_at fb row x' at) here
            ∙ clear_row-inside m y width 0 x' (omega arith) (omega arith) (omega arith)
                (omega arith)
      ]

-- After `clear_screen`, every pixel of the screen is black.
pub clear_screen_lem :
    (fb : ℕ) (m : Mem) (x y : ℕ)
    → x < width
    → y < height
    → pixel_at fb (clear_screen fb m) x y ≡ black
unfolding clear_screen
clear_screen_lem fb m x y x_in y_in =
    clear_rows-inside fb m height 0 x y (omega arith) x_in (omega arith) (omega arith)
