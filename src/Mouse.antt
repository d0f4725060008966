-- ===== src/Mouse.antt =====
-- src/kernel/drivers/mouse.c: packets of three bytes, and the cursor that they move.
pub mod Cursor
pub mod Packet
use lappis.Base.{
  [], add32, bit_and, bit_or, if◌then◌else◌, leb, ltb, none, sub32, suc, zero, ℕ, ◌!=◌, ◌%◌, ◌+◌,
  ◌-◌, ◌==◌, ◌^◌, ◌||◌, ◌∷◌,
}
use lappis.Machine.{
  Cmd, Platform, and_then, debug, error, get_mem, pure, put_mem, stuck, ◌>>=◌, ◌>>◌,
}
use lappis.Machine.Ports.{inb}
use lappis.Pic.{pic_send_eoi}
use lappis.Print.{kprintf}
use lappis.Ps2.{cmd_port, data_port, ps2_read, ps2_write}
use lappis.Video.{draw_char, height, width}

-- The driver's static variables. An `int32_t` is its bit pattern.
pub record Mouse : Type 0 where
  pub mouse_count : ℕ
  pub stat_raw : ℕ
  pub xrel_raw : ℕ
  pub yrel_raw : ℕ
  pub mouse_cursor_x : ℕ
  pub mouse_cursor_y : ℕ

abbrev pub mouse : Mouse
mouse = record {
  mouse_count = 0;
  stat_raw = 0;
  xrel_raw = 0;
  yrel_raw = 0;
  mouse_cursor_x = 0;
  mouse_cursor_y = 0;
}

-- `(int8_t)raw`, as 32 bits.
pub sign_extend : ℕ → ℕ
sign_extend raw = if ltb raw 0x80 then raw else raw + 2 ^ 32 - 0x100

-- `if (v <= 0) v = 0; if (v >= limit) v = limit - 1;`, of signed numbers.
pub clamp : ℕ → ℕ → ℕ
clamp limit v = if v == 0 || leb (2 ^ 31) v then 0 else if leb limit v then limit - 1 else v

-- The flags of a status byte, from the highest bit on.
abbrev flag : ℕ → ℕ → ℕ
flag stat bit = if bit_and stat bit != 0 then 1 else 0

-- Where a complete packet moves the cursor.
pub move_cursor : Mouse → Mouse
move_cursor s = record s {
  mouse_cursor_x = clamp width (add32 s.mouse_cursor_x (sign_extend s.xrel_raw));
  mouse_cursor_y = clamp height (sub32 s.mouse_cursor_y (sign_extend s.yrel_raw));
}

-- `mouse_count = (mouse_count + 1) % 3`
abbrev pub advance : Mouse → Mouse
advance s = record s { mouse_count = (s.mouse_count + 1) % 3 }

module _ (p : Platform) where
  pub draw_cursor : Mouse → Cmd (Unit {0})
  draw_cursor s = do
    mem ← get_mem
    put_mem (draw_char p mem 3 s.mouse_cursor_x s.mouse_cursor_y none)

  -- What a complete packet shows before the cursor moves.
  print_packet : Mouse → Cmd (Unit {0})
  print_packet s = do
    kprintf p 0 280 none "flag: yo xo ys xs ao bm br bl                             " []
    kprintf p 0 300 none "bool: %d  %d  %d  %d  %d  %d  %d  %d                            " (
        flag s.stat_raw 0x80
        ∷ flag s.stat_raw 0x40
        ∷ flag s.stat_raw 0x20
        ∷ flag s.stat_raw 0x10
        ∷ flag s.stat_raw 0x08
        ∷ flag s.stat_raw 0x04
        ∷ flag s.stat_raw 0x02
        ∷ flag s.stat_raw 0x01
        ∷ [])
    kprintf p 0 320 none "poss: %d  %d  %d  %d                              "
        (s.mouse_cursor_x ∷ s.mouse_cursor_y ∷ s.xrel_raw ∷ s.yrel_raw ∷ [])

  pub handle : ℕ → Mouse → Cmd Mouse
  handle x s =
      if s.mouse_count == 0
      then pure (advance (record s { stat_raw = x }))
      else if s.mouse_count == 1
      then pure (advance (record s { xrel_raw = x }))
      else if s.mouse_count == 2
      then (do
        let packet : Mouse = record s { yrel_raw = x }
        print_packet packet
        draw_cursor (move_cursor packet)
        pure (advance (move_cursor packet)))
      else pure (advance s)

  -- `for (;;)` until the controller has no byte left.
  pub handler_loop : ℕ → Mouse → Cmd Mouse
  handler_loop zero s = λ m. stuck
  handler_loop (suc f) s = do
    st ← inb p cmd_port
    if bit_and st 0x01 == 0
        then pure s
        else do x ← inb p data_port; s' ← handle x s; handler_loop f s'

  pub mouse_handler : Mouse → Cmd Mouse
  mouse_handler s = do pic_send_eoi 44; handler_loop p.rounds s

  -- `status |= 0x2; status &= 0xdf;`
  pub enable_mouse : Cmd (Unit {0})
  enable_mouse = do
    debug "Enabling PS/2 mouse." []
    a ← ps2_write p cmd_port 0xa8
    b ← ps2_write p cmd_port 0x20
    status ← ps2_read p data_port
    c ← ps2_write p cmd_port 0x60
    d ← ps2_write p data_port (bit_and (bit_or status 0x2) 0xdf)
    e ← ps2_write p cmd_port 0xD4
    f ← ps2_write p data_port 0xf6
    ret ← ps2_read p data_port
    if ret != 0xfa then error "Failed to set mouse defaults." [] else do
      g ← ps2_write p cmd_port 0xD4
      h ← ps2_write p data_port 0xf4
      ret' ← ps2_read p data_port
      if ret' != 0xfa
          then error "Failed to enable mouse data reporting." []
          else debug "PS/2 mouse enabled." []
