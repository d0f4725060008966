-- ===== src/Print.antt =====
-- src/kernel/print.c: formatted text on the screen.
pub mod Shown
pub mod Box
use lappis.Base.{
  List, Option, String, [], add32, if◌then◌else◌, none, some, suc, zero, ℕ, ◌*◌, ◌-◌, ◌==◌, ◌∷◌,
}
use lappis.Heap.{malloc, null}
use lappis.Machine.{Cmd, Platform, and_then, error, get_mem, pure, put_mem, stuck, ◌>>=◌, ◌>>◌}
use lappis.Machine.Memory.{store_list}
use lappis.Strings.{strlen}
use lappis.Video.{Color, draw_string, large_font_cell_height, large_font_cell_width}

module _ (p : Platform) where
  -- `sizeof(buffer)` is the size of the pointer, 8.
  pub kprintf : ℕ → ℕ → Option Color → String → List ℕ → Cmd (Unit {0})
  kprintf x y color text args = do
    buffer ← malloc 256
    if buffer == null then error "kprintf: malloc failed" [] else do
      mem ← get_mem
      put_mem (store_list mem buffer (p.format mem 8 text args))
      draw_string p buffer x y color

  -- `len` times the horizontal line, with the columns that the loop has advanced by.
  print_line : ℕ → ℕ → ℕ → ℕ → Option Color → Cmd ℕ
  print_line zero x y xoffset color = pure xoffset
  print_line (suc len) x y xoffset color = do
    kprintf (add32 x xoffset) y color "%c" (0xc4 ∷ [])
    print_line len x y (add32 xoffset large_font_cell_width) color

  -- One border of the box: a corner, a line, a corner.
  print_border : ℕ → ℕ → ℕ → ℕ → ℕ → Option Color → Cmd (Unit {0})
  print_border left right len x y color = do
    kprintf x y color "%c" (left ∷ [])
    xoffset ← print_line len x y large_font_cell_width color
    kprintf (add32 x xoffset) y color "%c" (right ∷ [])

  -- The box, behind `strlen`.
  print_box_around : ℕ → ℕ → ℕ → Option Color → Option ℕ → Cmd (Unit {0})
  print_box_around s x y color none = λ m. stuck
  print_box_around s x y color (some n) = do
    let len = add32 n 2
    print_border 0xda 0xbf len x y color
    kprintf x (add32 y (large_font_cell_height - 2)) color "%c %s %c" (0xb3 ∷ s ∷ 0xb3 ∷ [])
    print_border 0xc0 0xd9 len x (add32 y (2 * (large_font_cell_height - 2))) color

  pub print_box : ℕ → ℕ → ℕ → Option Color → Cmd (Unit {0})
  print_box s x y color = do
    tmp ← malloc 256
    if tmp == null
        then error "malloc failed" []
        else do mem ← get_mem; print_box_around s x y color (strlen p.rounds mem s)
