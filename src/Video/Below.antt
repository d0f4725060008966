-- ===== src/Video/Below.antt =====
-- Drawing changes nothing below the frame buffer, and ends where the text does.
use lappis.Base.{
  List, Option, [], add32, arith, bit_and, eq→==, if◌then◌else◌, length, ne→==, none, refl, some,
  suc, sym, zero, ℕ, ◌!=◌, ◌%◌, ◌+◌, ◌-◌, ◌<◌, ◌^◌, ◌∙◌, ◌∷◌, ◌≡◌,
}
use lappis.Machine.{Machine, Mem, Platform, ok}
use lappis.Machine.Memory.{SameBelow, SameBelow-trans, store}
use lappis.Strings.Length.{IsCString}
use lappis.Video.{
  Color, black, draw_char, draw_row, draw_rows, draw_string, draw_string_loop,
  large_font_cell_height, large_font_cell_width, set_pixel, white,
}

set_pixel-SameBelow :
    (fb : ℕ) (m : Mem) (x y : ℕ) (c : Color) → SameBelow m (set_pixel fb m x y c) fb
unfolding set_pixel store
set_pixel-SameBelow fb m x y c a below = ground arith

draw_row-SameBelow :
    (fb : ℕ) (m : Mem) (bitmap x y : ℕ) (c : Color) (left j : ℕ)
    → SameBelow m (draw_row fb m bitmap x y c left j) fb
unfolding draw_row
draw_row-SameBelow fb m bitmap x y c zero j a below = refl
draw_row-SameBelow fb m bitmap x y c (suc left) j a below =
    let shown = if bit_and bitmap (2 ^ j) != 0 then c else black in
    let at = add32 x (large_font_cell_width - j) in
    draw_row-SameBelow fb (set_pixel fb m at y shown) bitmap x y c left (j + 1) a below
    ∙ set_pixel-SameBelow fb m at y shown a below

module _ (p : Platform) where
  draw_rows-SameBelow :
      (m : Mem) (c x y : ℕ) (color : Color) (left i : ℕ)
      → SameBelow m (draw_rows p m c x y color left i) p.frame_buffer
  unfolding draw_rows
  draw_rows-SameBelow m c x y color zero i a below = refl
  draw_rows-SameBelow m c x y color (suc left) i a below =
      let bitmap = p.large_font c i % 2 ^ 8 in
      let row = draw_row p.frame_buffer m bitmap x (add32 y i) color large_font_cell_width 0 in
      draw_rows-SameBelow row c x y color left (i + 1) a below
      ∙ draw_row-SameBelow p.frame_buffer m bitmap x (add32 y i) color large_font_cell_width 0 a
          below

  pub draw_char-SameBelow :
      (m : Mem) (c x y : ℕ) (color : Option Color)
      → SameBelow m (draw_char p m c x y color) p.frame_buffer
  unfolding draw_char
  draw_char-SameBelow m c x y color =
      draw_rows-SameBelow m c x y (elim color [ none ↦ white | some shown ↦ shown ])
        (large_font_cell_height - 1) 1

  IsCString-same :
      (m m' : Mem) (s limit : ℕ) (cs : List ℕ)
      → SameBelow m m' limit
      → s + length cs < limit
      → IsCString m s cs
      → IsCString m' s cs
  IsCString-same m m' s limit [] same lt str = same s (omega arith) ∙ str
  IsCString-same m m' s limit (c ∷ cs) same lt str = (
    same s (omega arith) ∙ str.0,
    str.1,
    IsCString-same m m' (s + 1) limit cs same (omega arith) str.2,
  )

  draw_string_loop_lem :
      (f str x y : ℕ) (color : Option Color) (cs : List ℕ) (m : Machine)
      → IsCString m.mem str cs
      → str + length cs < p.frame_buffer
      → length cs < f
      → (mem : Mem) × (draw_string_loop p f str x y color m ≡ ok tt (record m { mem = mem }))
        × SameBelow m.mem mem p.frame_buffer
  unfolding draw_string_loop
  draw_string_loop_lem zero str x y color cs m h lt fuel = absurd (omega arith)
  draw_string_loop_lem (suc f) str x y color [] m h lt fuel =
      (m.mem, rw (eq→== (m.mem str) 0 h) refl, λ a below. refl)
  draw_string_loop_lem (suc f) str x y color (c ∷ cs) m h lt fuel =
      let drawn = draw_char p m.mem (m.mem str) x y color in
      let same = draw_char-SameBelow m.mem (m.mem str) x y color in
      let (mem, e, below) =
        draw_string_loop_lem f (str + 1) (add32 x large_font_cell_width) y color cs
          (record m { mem = drawn })
          (IsCString-same m.mem drawn (str + 1) p.frame_buffer cs same (omega arith) h.2)
          (omega arith) (omega arith) in
      (
        mem,
        rw (ne→== (m.mem str) 0 (λ z. h.1 (sym h.0 ∙ z))) e,
        SameBelow-trans m.mem drawn mem p.frame_buffer same below,
      )

  -- `draw_string` of a string that lies below the frame buffer ends, and changes nothing below the
  -- frame buffer and nothing but memory. It is followed for more rounds than the string has bytes.
  pub draw_string_lem :
      (str x y : ℕ) (color : Option Color) (cs : List ℕ) (m : Machine)
      → IsCString m.mem str cs
      → str + length cs < p.frame_buffer
      → length cs < p.rounds
      → (mem : Mem) × (draw_string p str x y color m ≡ ok tt (record m { mem = mem }))
        × SameBelow m.mem mem p.frame_buffer
  unfolding draw_string
  draw_string_lem str x y color cs m h lt fuel =
      draw_string_loop_lem p.rounds str x y color cs m h lt fuel
