-- ===== src/Mandel.antt =====
-- src/kernel/mandel.c: a picture of the Mandelbrot set. Of a `double` the code uses the operations of
-- `Doubles`, and nothing else of the type is known.
pub mod Escape
pub mod Picture
use lappis.Base.{Bool, if◌then◌else◌, suc, zero, ℕ, ◌%◌, ◌*◌, ◌+◌, ◌-◌, ◌/◌, ◌==◌, ◌^◌}
use lappis.Machine.{Mem}
use lappis.Video.{Color, black, height, set_pixel, width}

-- `of_nat` converts an unsigned number, and `aspect` is `(float)WIDTH / (float)HEIGHT`.
pub record Doubles {ℓ} (W : Type ℓ) : Type ℓ where
  pub of_nat : ℕ → W
  pub aspect : W
  pub plus : W → W → W
  pub minus : W → W → W
  pub times : W → W → W
  pub over : W → W → W
  pub greater : W → W → Bool

abbrev pub iterations : ℕ
iterations = 20

-- The `-1` of an `int32_t`.
abbrev pub no_escape : ℕ
no_escape = 2 ^ 32 - 1

module _ {ℓ} {W : Type ℓ} (d : Doubles W) where
  -- The two assignments of a round, and the square that is compared.
  abbrev pub next_real : W → W → W → W
  next_real zr zi cr = d.plus (d.minus (d.times zr zr) (d.times zi zi)) cr

  abbrev pub next_imaginary : W → W → W → W
  next_imaginary zr zi ci = d.plus (d.times (d.times zr zi) (d.of_nat 2)) ci

  abbrev pub is_out : W → W → Bool
  is_out zr zi = d.greater (d.plus (d.times zr zr) (d.times zi zi)) (d.of_nat 4)

  -- The loop, from round `i` on, with the rounds left.
  pub mandel_loop : ℕ → ℕ → W → W → W → W → ℕ
  mandel_loop zero i cr ci zr zi = no_escape
  mandel_loop (suc left) i cr ci zr zi =
      let zr1 = next_real zr zi cr in
      let zi1 = next_imaginary zr zi ci in
      let rest = mandel_loop left (i + 1) cr ci zr1 zi1 in if is_out zr1 zi1 then i else rest

  pub mandel : W → W → ℕ
  mandel cr ci = mandel_loop iterations 0 cr ci (d.of_nat 0) (d.of_nat 0)

  -- ZOOM is 1.
  pub to_mandel_space : W → W → W × W
  to_mandel_space x y =
      let one = d.of_nat 1 in
      let two = d.of_nat 2 in
      (
        d.times (d.over two one) (d.minus (d.times two (d.over x (d.of_nat width))) one),
        d.times (d.over (d.times d.aspect two) one)
            (d.minus (d.times two (d.over y (d.of_nat height))) one),
      )

  -- The color of a pixel: black, or a grey that is stored in bytes.
  pub pixel_color : ℕ → ℕ → Color
  pixel_color x y =
      let (cr, ci) = to_mandel_space (d.of_nat x) (d.of_nat y) in
      let escapes_in = mandel cr ci in
      let grey = 256 / iterations * escapes_in % 2 ^ 8 in
      if escapes_in == no_escape
      then black
      else record { red = grey; green = grey; blue = grey; alpha = 0xFF }

  -- The inner loop, from row `y` on, and the outer one, from column `x` on.
  pub draw_column : ℕ → Mem → ℕ → ℕ → ℕ → Mem
  draw_column fb m x zero y = m
  draw_column fb m x (suc left) y =
      draw_column fb (set_pixel fb m x y (pixel_color x y)) x left (y + 1)

  pub draw_columns : ℕ → Mem → ℕ → ℕ → Mem
  draw_columns fb m zero x = m
  draw_columns fb m (suc left) x = draw_columns fb (draw_column fb m x height 0) left (x + 1)

  pub draw_mandel : ℕ → Mem → Mem
  draw_mandel fb m = draw_columns fb m width 0
