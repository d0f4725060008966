-- ===== src/Video.antt =====
-- src/kernel/video.c: pixels in the frame buffer, characters and strings.
pub mod Pixels
pub mod Below
pub mod Clear
pub mod Frame
use lappis.Base.{
  Option, add32, bit_and, if◌then◌else◌, none, some, suc, zero, ℕ, ◌!=◌, ◌%◌, ◌*◌, ◌+◌, ◌-◌, ◌==◌,
  ◌^◌,
}
use lappis.Heap.{memcpy}
use lappis.Machine.{Cmd, Mem, Platform, and_then, get_mem, put_mem, skip, stuck, ◌>>=◌, ◌>>◌}
use lappis.Machine.Memory.{store}

abbrev pub width : ℕ
width = 1280

abbrev pub height : ℕ
height = 1024

abbrev pub large_font_cell_width : ℕ
large_font_cell_width = 8

abbrev pub large_font_cell_height : ℕ
large_font_cell_height = 17

-- Four bytes: red, green, blue and alpha.
pub record Color : Type 0 where
  pub red : ℕ
  pub green : ℕ
  pub blue : ℕ
  pub alpha : ℕ

abbrev pub black : Color
black = record { red = 0; green = 0; blue = 0; alpha = 0xff }

abbrev pub white : Color
white = record { red = 255; green = 255; blue = 255; alpha = 0xff }

-- `(y * WIDTH + x) * 4 + k`, in 32 bits.
abbrev pub pixel_index : ℕ → ℕ → ℕ → ℕ
pixel_index x y k = ((y * width + x) * 4 + k) % 2 ^ 32

unfoldable pub set_pixel : ℕ → Mem → ℕ → ℕ → Color → Mem
set_pixel fb m x y color =
    let m1 = store m (fb + pixel_index x y 2) color.red in
    let m2 = store m1 (fb + pixel_index x y 1) color.green in
    let m3 = store m2 (fb + pixel_index x y 0) color.blue in
    store m3 (fb + pixel_index x y 3) color.alpha

-- The loop over the columns `j` of row `i`, from column `j` on, with the columns left.
pub draw_row : ℕ → Mem → ℕ → ℕ → ℕ → Color → ℕ → ℕ → Mem
draw_row fb m row_bitmap x y color zero j = m
draw_row fb m row_bitmap x y color (suc left) j =
    let shown = if bit_and row_bitmap (2 ^ j) != 0 then color else black in
    draw_row fb (set_pixel fb m (add32 x (large_font_cell_width - j)) y shown) row_bitmap x y color
      left (j + 1)

module _ (p : Platform) where
  -- The loop over the rows `i` of a character, from row `i` on, with the rows left.
  pub draw_rows : Mem → ℕ → ℕ → ℕ → Color → ℕ → ℕ → Mem
  draw_rows m c x y color zero i = m
  draw_rows m c x y color (suc left) i =
      draw_rows
        (draw_row p.frame_buffer m (p.large_font c i % 2 ^ 8) x (add32 y i) color
          large_font_cell_width 0)
        c x y color left (i + 1)

  -- A color that is NULL stands for white. The first row is not drawn.
  pub draw_char : Mem → ℕ → ℕ → ℕ → Option Color → Mem
  draw_char m c x y color =
      draw_rows m c x y (elim color [ none ↦ white | some shown ↦ shown ])
        (large_font_cell_height - 1) 1

  -- `letter_spacing` is 0.
  draw_string_loop : ℕ → ℕ → ℕ → ℕ → Option Color → Cmd (Unit {0})
  draw_string_loop zero str x y color = λ m. stuck
  draw_string_loop (suc f) str x y color = do
    mem ← get_mem
    if mem str == 0 then skip else do
      put_mem (draw_char mem (mem str) x y color)
      draw_string_loop f (str + 1) (add32 x large_font_cell_width) y color

  pub draw_string : ℕ → ℕ → ℕ → Option Color → Cmd (Unit {0})
  draw_string str x y color = draw_string_loop p.rounds str x y color

  pub set_frame : ℕ → Cmd (Unit {0})
  set_frame frame = do memcpy p p.frame_buffer frame (width * height * 4); skip

-- The loop over the columns of a screen row, from `x` on, with the columns left.
pub clear_row : ℕ → Mem → ℕ → ℕ → ℕ → Mem
clear_row fb m y zero x = m
clear_row fb m y (suc left) x = clear_row fb (set_pixel fb m x y black) y left (x + 1)

pub clear_rows : ℕ → Mem → ℕ → ℕ → Mem
clear_rows fb m zero y = m
clear_rows fb m (suc left) y = clear_rows fb (clear_row fb m y width 0) left (y + 1)

pub clear_screen : ℕ → Mem → Mem
clear_screen fb m = clear_rows fb m height 0
