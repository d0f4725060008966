-- ===== src/Mouse/Packet.antt =====
-- A byte from the mouse: the handler returns, and the cursor stays on the screen.
use lappis.Base.{
  Bool-cases, add32, ap, arith, inl, inr, none, refl, sub32, true, ℕ, ◌%◌, ◌+◌, ◌<◌, ◌==◌, ◌^◌, ◌≡◌,
}
use lappis.Heap.Alloc.{IsHeap}
use lappis.Machine.{Machine, Platform, Returns, Returns-bind, returns}
use lappis.Mouse.{
  Mouse, advance, clamp, draw_cursor, handle, move_cursor, print_packet, sign_extend,
}
use lappis.Mouse.Cursor.{IsMouse}
use lappis.Print.Shown.{
  Drew, Drew-log, Drew-mem, Drew-trans, FormatTerminates, IsScreen, IsScreen-Drew, kprintf-Drew,
  kprintf_lem,
}
use lappis.Video.{draw_char, height, width}
use lappis.Video.Below.{draw_char-SameBelow}

clamp_in : (limit v : ℕ) → 0 < limit → clamp limit v < limit
unfolding clamp
clamp_in limit v pos = ground arith

-- A packet's bytes are kept, and the position is clamped.
IsMouse-move_cursor : (s : Mouse) → IsMouse s → IsMouse (advance (move_cursor s))
unfolding move_cursor
IsMouse-move_cursor s valid = record {
  count = omega arith;
  x_in = clamp_in width (add32 s.mouse_cursor_x (sign_extend s.xrel_raw)) (omega arith);
  y_in = clamp_in height (sub32 s.mouse_cursor_y (sign_extend s.yrel_raw)) (omega arith);
  x_byte = valid.x_byte;
  y_byte = valid.y_byte;
}

mouse_count-move_cursor : (s : Mouse) → (move_cursor s).mouse_count ≡ s.mouse_count
unfolding move_cursor
mouse_count-move_cursor s = refl

-- The state with the second or the third byte of a packet.
with_x : (s : Mouse) (x : ℕ) → IsMouse s → x < 2 ^ 8 → IsMouse (record s { xrel_raw = x })
with_x s x valid lt = record {
  count = valid.count;
  x_in = valid.x_in;
  y_in = valid.y_in;
  x_byte = lt;
  y_byte = valid.y_byte;
}

with_y : (s : Mouse) (x : ℕ) → IsMouse s → x < 2 ^ 8 → IsMouse (record s { yrel_raw = x })
with_y s x valid lt = record {
  count = valid.count;
  x_in = valid.x_in;
  y_in = valid.y_in;
  x_byte = valid.x_byte;
  y_byte = lt;
}

with_stat : (s : Mouse) (x : ℕ) → IsMouse s → IsMouse (record s { stat_raw = x })
with_stat s x valid = record {
  count = valid.count;
  x_in = valid.x_in;
  y_in = valid.y_in;
  x_byte = valid.x_byte;
  y_byte = valid.y_byte;
}

IsMouse-advance : (s : Mouse) → IsMouse s → IsMouse (advance s)
IsMouse-advance s valid = record {
  count = omega arith;
  x_in = valid.x_in;
  y_in = valid.y_in;
  x_byte = valid.x_byte;
  y_byte = valid.y_byte;
}

module _ (p : Platform) (laws : FormatTerminates p) where
  print_packet_lem :
      (s : Mouse) (m : Machine)
      → IsHeap m
      → IsScreen p m
      → Returns (λ _ m'. Drew m m') (print_packet p s m)
  unfolding print_packet
  print_packet_lem s m heap screen =
      Returns-bind (kprintf_lem p laws 0 280 none _ _ m heap screen) λ _ m1 d1.
        Returns-bind (kprintf-Drew p laws 0 300 none _ _ m m1 screen d1)
          λ _ m2 d2. kprintf-Drew p laws 0 320 none _ _ m m2 screen d2

  -- `handle` returns on every byte. It counts through the three bytes of a packet, keeps the cursor
  -- on the screen, and changes nothing below the free part of the heap. The heap lies below the
  -- frame buffer, and vsnprintf terminates what it stores.
  pub handle_lem :
      (x : ℕ) (s : Mouse) (m : Machine)
      → x < 2 ^ 8
      → IsMouse s
      → IsHeap m
      → IsScreen p m
      → Returns
          (λ s' m'. IsMouse s' × (s'.mouse_count ≡ (s.mouse_count + 1) % 3) × Drew m m')
          (handle p x s m)
  unfolding handle draw_cursor
  handle_lem x s m lt valid heap screen =
      let count = valid.count in
      elim (Bool-cases (s.mouse_count == 0)) [
        | inl first ↦ rw first (
            returns (
              IsMouse-advance (record s { stat_raw = x }) (with_stat s x valid),
              refl,
              Drew-log m m.trace heap,
            ))
        | inr later ↦ elim (Bool-cases (s.mouse_count == 1)) [
          | inl second ↦
              rw (later, second)
                (returns (
                  IsMouse-advance (record s { xrel_raw = x }) (with_x s x valid lt),
                  refl,
                  Drew-log m m.trace heap,
                ))
          | inr last ↦
              let third : (s.mouse_count == 2) ≡ true = ground arith in
              let packet : Mouse = record s { yrel_raw = x } in
              rw (later, last, third)
                (Returns-bind (print_packet_lem packet m heap screen) λ _ m1 d1.
                  let cursor = move_cursor packet in
                  let same =
                    draw_char-SameBelow p m1.mem 3 cursor.mouse_cursor_x cursor.mouse_cursor_y
                      none in
                  returns (
                    IsMouse-move_cursor packet (with_y s x valid lt),
                    ap (λ n. (n + 1) % 3) (mouse_count-move_cursor packet),
                    Drew-trans m m1
                        (record m1 {
                          mem =
                              draw_char p m1.mem 3 cursor.mouse_cursor_x cursor.mouse_cursor_y none;
                        })
                        d1 (Drew-mem p m1 _ d1.valid (IsScreen-Drew p m m1 screen d1) same),
                  ))
        ]
      ]
