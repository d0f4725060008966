-- ===== src/Mandel/Picture.antt =====
-- `draw_mandel` gives every pixel its color.
use lappis.Base.{
  Bool-cases, ap, arith, false, inl, inr, ltb-cases, refl, suc, sym, zero, ℕ, ◌%◌, ◌*◌, ◌+◌, ◌<◌,
  ◌==◌, ◌^◌, ◌∙◌, ◌≡◌, ◌≢◌, ◌≤◌, ◌⊎◌,
}
use lappis.Machine.{Mem}
use lappis.Mandel.{
  Doubles, draw_column, draw_columns, draw_mandel, mandel, no_escape, pixel_color, to_mandel_space,
}
use lappis.Mandel.Escape.{FirstEscape, escapes, mandel_lem}
use lappis.Video.{Color, height, set_pixel, width}
use lappis.Video.Pixels.{IsColor, pixel_at, set_pixel_lem}

module _ {ℓ} {W : Type ℓ} (d : Doubles W) where
  pixel_color-IsColor : (x y : ℕ) → IsColor (pixel_color d x y)
  unfolding pixel_color
  pixel_color-IsColor x y =
      let (cr, ci) = to_mandel_space d (d.of_nat x) (d.of_nat y) in
      elim (Bool-cases (mandel d cr ci == no_escape)) [
        | inl inside ↦ rw inside (record {
          red_byte = omega arith;
          green_byte = omega arith;
          blue_byte = omega arith;
          alpha_byte = omega arith;
        })
        | inr grey ↦ rw grey (record {
          red_byte = omega arith;
          green_byte = omega arith;
          blue_byte = omega arith;
          alpha_byte = omega arith;
        })
      ]

  column-outside :
      (fb : ℕ) (m : Mem) (x left y x' y' : ℕ)
      → y + left ≤ height
      → x < width
      → (x' < width) × (y' < height)
      → (x ≢ x') ⊎ (y' < y)
      → pixel_at fb (draw_column d fb m x left y) x' y' ≡ pixel_at fb m x' y'
  unfolding draw_column
  column-outside fb m x zero y x' y' fits x_in on out = refl
  column-outside fb m x (suc left) y x' y' fits x_in on out =
      let apart : (x ≢ x') ⊎ (y ≢ y') = elim out [
        | inl ne ↦ inl ne
        | inr lt ↦ inr (omega (arith, lt))
      ] in
      let later : (x ≢ x') ⊎ (y' < y + 1) = elim out [
        | inl ne ↦ inl ne
        | inr lt ↦ inr (omega (arith, lt))
      ] in
      let color = pixel_color d x y in
      column-outside fb (set_pixel fb m x y color) x left (y + 1) x' y' (omega (arith, fits)) x_in
        on later
      ∙ (set_pixel_lem fb m x y color (pixel_color-IsColor x y) x_in (omega (arith, fits))).1 x' y'
          on.0 on.1 apart

  column-inside :
      (fb : ℕ) (m : Mem) (x left y y' : ℕ)
      → y + left ≤ height
      → x < width
      → y ≤ y'
      → y' < y + left
      → pixel_at fb (draw_column d fb m x left y) x y' ≡ pixel_color d x y'
  unfolding draw_column
  column-inside fb m x zero y y' fits x_in ge lt = absurd (omega (arith, ge, lt))
  column-inside fb m x (suc left) y y' fits x_in ge lt =
      let color = pixel_color d x y in
      let drawn = set_pixel fb m x y color in
      elim (ltb-cases y y') [
        | inl (t, above) ↦
            column-inside fb drawn x left (y + 1) y' (omega (arith, fits)) x_in (omega arith)
              (omega (arith, lt))
        | inr (t, le) ↦
            let at : y ≡ y' = omega (arith, le, ge) in
            column-outside fb drawn x left (y + 1) x y' (omega (arith, fits)) x_in
              (x_in, omega (arith, fits, lt)) (inr (omega (arith, le)))
            ∙ ap (pixel_at fb drawn x) (sym at)
            ∙ (set_pixel_lem fb m x y color (pixel_color-IsColor x y) x_in (omega (arith, fits))).0
            ∙ ap (pixel_color d x) at
      ]

  columns-outside :
      (fb : ℕ) (m : Mem) (left x x' y' : ℕ)
      → x + left ≤ width
      → (x' < width) × (y' < height)
      → x' < x
      → pixel_at fb (draw_columns d fb m left x) x' y' ≡ pixel_at fb m x' y'
  unfolding draw_columns
  columns-outside fb m zero x x' y' fits on lt = refl
  columns-outside fb m (suc left) x x' y' fits on lt =
      columns-outside fb (draw_column d fb m x height 0) left (x + 1) x' y' (omega (arith, fits)) on
        (omega (arith, lt))
      ∙ column-outside fb m x height 0 x' y' (omega arith) (omega (arith, fits)) on
          (inl (omega (arith, lt)))

  columns-inside :
      (fb : ℕ) (m : Mem) (left x x' y' : ℕ)
      → x + left ≤ width
      → x ≤ x'
      → x' < x + left
      → y' < height
      → pixel_at fb (draw_columns d fb m left x) x' y' ≡ pixel_color d x' y'
  unfolding draw_columns
  columns-inside fb m zero x x' y' fits ge lt y_in = absurd (omega (arith, ge, lt))
  columns-inside fb m (suc left) x x' y' fits ge lt y_in =
      let drawn = draw_column d fb m x height 0 in
      elim (ltb-cases x x') [
        | inl (t, above) ↦
            columns-inside fb drawn left (x + 1) x' y' (omega (arith, fits)) (omega arith)
              (omega (arith, lt)) y_in
        | inr (t, le) ↦
            let at : x ≡ x' = omega (arith, le, ge) in
            columns-outside fb drawn left (x + 1) x' y' (omega (arith, fits))
              (omega (arith, lt, fits), y_in) (omega (arith, le))
            ∙ ap (λ k. pixel_at fb drawn k y') (sym at)
            ∙ column-inside fb m x height 0 y' (omega arith) (omega (arith, fits)) (omega arith)
                (omega (arith, y_in))
            ∙ ap (λ k. pixel_color d k y') at
      ]

  -- The point of a pixel: the screen is the rectangle from -2 to 2, and from -2 to 2 times the
  -- screen's aspect.
  abbrev pub point : ℕ → ℕ → W × W
  point x y =
      let two = d.of_nat 2 in
      let one = d.of_nat 1 in
      let across = d.minus (d.times two (d.over (d.of_nat x) (d.of_nat 1280))) one in
      let down = d.minus (d.times two (d.over (d.of_nat y) (d.of_nat 1024))) one in
      (d.times (d.over two one) across, d.times (d.over (d.times d.aspect two) one) down)

  -- The color of the point `c`: a grey that is 12 times the round of its first escape, or black.
  abbrev pub Shown : W × W → Color → Type 0
  Shown (cr, ci) color =
      ((n : ℕ) × (n < 20)
        × FirstEscape d cr ci n
        × (color ≡ record { red = 12 * n; green = 12 * n; blue = 12 * n; alpha = 255 }))
      ⊎ (((j : ℕ) → j < 20 → escapes d cr ci j ≡ false)
          × (color ≡ record { red = 0; green = 0; blue = 0; alpha = 255 }))

  pixel_color-Shown : (x y : ℕ) → Shown (point x y) (pixel_color d x y)
  unfolding pixel_color to_mandel_space
  pixel_color-Shown x y = elim (mandel_lem d (point x y).0 (point x y).1) [
    | inl (n, e, lt, first) ↦
        let some_escape : (n == no_escape) ≡ false = ground (arith, lt) in
        let byte : 12 * n % 2 ^ 8 ≡ 12 * n = omega (arith, lt) in
        inl (n, lt, first, rw (e, some_escape, byte) refl)
    | inr (e, none_escapes) ↦ inr (none_escapes, rw e refl)
  ]

  -- After `draw_mandel`, every pixel of the screen shows its point `c`: where the orbit of 0 under
  -- z² + c escapes within twenty rounds, it is the grey of 12 times the first round that it escapes
  -- behind, and black where it does not.
  pub draw_mandel_lem :
      (fb : ℕ) (m : Mem) (x y : ℕ)
      → x < width
      → y < height
      → Shown (point x y) (pixel_at fb (draw_mandel d fb m) x y)
  unfolding draw_mandel
  draw_mandel_lem fb m x y x_in y_in =
      let drawn =
        columns-inside fb m width 0 x y (omega arith) (omega arith) (omega (arith, x_in)) y_in in
      rw drawn (pixel_color-Shown x y)
