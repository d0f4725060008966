-- ===== src/Tests/Picture.antt =====
-- The picture in whole numbers: every `greater` is a comparison of numbers.
use lappis.Base.{arith, false, ltb, ℕ, ◌*◌, ◌+◌, ◌-◌, ◌/◌, ◌<◌, ◌^◌, ◌≡◌, ◌⊎◌}
use lappis.Mandel.{Doubles, draw_mandel, mandel}
use lappis.Mandel.Escape.{FirstEscape, escapes, mandel_lem}
use lappis.Mandel.Picture.{Shown, draw_mandel_lem, point}
use lappis.Video.Pixels.{pixel_at}

abbrev whole : Doubles ℕ
whole = record {
  of_nat = λ n. n;
  aspect = 1;
  plus = ◌+◌;
  minus = ◌-◌;
  times = ◌*◌;
  over = ◌/◌;
  greater = λ a b. ltb b a;
}

mandel_lem_example :
    ((n : ℕ) × (mandel whole 1 1 ≡ n) × (n < 20) × FirstEscape whole 1 1 n)
    ⊎ ((mandel whole 1 1 ≡ 2 ^ 32 - 1) × ((j : ℕ) → j < 20 → escapes whole 1 1 j ≡ false))
mandel_lem_example = mandel_lem whole 1 1

draw_mandel_lem_example :
    Shown whole (point whole 5 6) (pixel_at 0 (draw_mandel whole 0 (λ a. 1)) 5 6)
draw_mandel_lem_example = draw_mandel_lem whole 0 (λ a. 1) 5 6 (omega arith) (omega arith)
