-- ===== src/Mouse/Cursor.antt =====
-- Packets, and the cursor that stays on the screen.
use lappis.Base.{add32, arith, if◌then◌else◌, ltb, min, sub32, ℕ, ◌+◌, ◌-◌, ◌<◌, ◌^◌, ◌≡◌, ◌≤◌}
use lappis.Mouse.{Mouse, clamp, move_cursor, sign_extend}
use lappis.Video.{height, width}

-- Where the cursor is and how far the packet has come.
pub record IsMouse (s : Mouse) : Type 0 where
  pub count : s.mouse_count < 3
  pub x_in : s.mouse_cursor_x < width
  pub y_in : s.mouse_cursor_y < height
  pub x_byte : s.xrel_raw < 2 ^ 8
  pub y_byte : s.yrel_raw < 2 ^ 8

-- A coordinate that moves by a signed byte, up or down, and stops at 0 and below `limit`.
abbrev pub forward : ℕ → ℕ → ℕ → ℕ
forward limit v raw = if ltb raw 0x80 then min (v + raw) (limit - 1) else v - (0x100 - raw)

abbrev pub backward : ℕ → ℕ → ℕ → ℕ
backward limit v raw = if ltb raw 0x80 then v - raw else min (v + (0x100 - raw)) (limit - 1)

clamp-add :
    (limit v raw : ℕ)
    → limit ≤ 2 ^ 16
    → v < limit
    → raw < 2 ^ 8
    → clamp limit (add32 v (sign_extend raw)) ≡ forward limit v raw
unfolding clamp sign_extend
clamp-add limit v raw small lt byte_raw = ground arith

clamp-sub :
    (limit v raw : ℕ)
    → limit ≤ 2 ^ 16
    → v < limit
    → raw < 2 ^ 8
    → clamp limit (sub32 v (sign_extend raw)) ≡ backward limit v raw
unfolding clamp sign_extend
clamp-sub limit v raw small lt byte_raw = ground arith

-- The 32-bit arithmetic of a packet is exact: the cursor moves right by the signed byte of `x`, up
-- by that of `y`, and stops at the edges of the screen.
pub move_cursor_lem :
    (s : Mouse)
    → IsMouse s
    → ((move_cursor s).mouse_cursor_x ≡ forward width s.mouse_cursor_x s.xrel_raw)
      × ((move_cursor s).mouse_cursor_y ≡ backward height s.mouse_cursor_y s.yrel_raw)
unfolding move_cursor
move_cursor_lem s valid = (
  clamp-add width s.mouse_cursor_x s.xrel_raw (omega arith) valid.x_in valid.x_byte,
  clamp-sub height s.mouse_cursor_y s.yrel_raw (omega arith) valid.y_in valid.y_byte,
)
