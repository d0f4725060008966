-- ===== src/Keyboard/Handler.antt =====
-- The keyboard interrupt.
use lappis.Base.{Bool-cases, [], if◌then◌else◌, inl, inr, ltb, none, refl, sub32, ℕ, ◌==◌, ◌∷◌, ◌≡◌}
use lappis.Heap.Alloc.{IsHeap}
use lappis.Keyboard.{CircBuf, Keyboard, circ_buf_push, echo, keyboard_handler, keyboard_to_ascii}
use lappis.Machine.{Machine, Platform, Returns, Returns-bind, debug_msg, in_byte, out_byte, returns}
use lappis.Machine.Ports.{byte_from, inb, outb}
use lappis.Pic.{pic_send_eoi}
use lappis.Print.Shown.{Drew, Drew-log, Drew-trans, FormatTerminates, IsScreen, kprintf-Drew}
use lappis.Strings.{is_print}
use lappis.Video.{large_font_cell_width}

-- What the handler makes of the buffer when the controller delivers `rawkey`.
abbrev pub heard : ℕ → CircBuf → CircBuf
heard rawkey c =
    if ltb 0x80 rawkey
    then c
    else if keyboard_to_ascii rawkey == 0
    then c
    else (circ_buf_push (keyboard_to_ascii rawkey) c).1

-- The machine after the handler has acknowledged the interrupt and read the key.
abbrev pub acknowledged : Machine → Machine
acknowledged m = record m { trace = out_byte 0x20 0x20 ∷ out_byte 0xA0 0x20 ∷ m.trace }

module _ (p : Platform) (laws : FormatTerminates p) where
  -- Showing a character leaves the buffer alone.
  echo_lem :
      (c : ℕ) (k : Keyboard) (m m1 : Machine)
      → IsScreen p m
      → Drew m m1
      → Returns (λ k' m'. (k'.keys ≡ k.keys) × Drew m m') (echo p c k m1)
  unfolding echo
  echo_lem c k m m1 screen d = elim (Bool-cases (is_print c)) [
    | inl shown ↦ rw shown (
        Returns-bind (kprintf-Drew p laws k.caret_x k.caret_y none "%c" (c ∷ []) m m1 screen d)
          λ _ m2 d2. returns (refl, d2))
    | inr hidden ↦ elim (Bool-cases (c == 8)) [
      | inl back ↦ elim (Bool-cases (ltb 0 k.caret_x)) [
        | inl room ↦
            rw (hidden, back, room)
              (Returns-bind
                (kprintf-Drew p laws (sub32 k.caret_x large_font_cell_width) k.caret_y none "%c"
                  (b' ' ∷ []) m m1 screen d)
                λ _ m2 d2. returns (refl, d2))
        | inr margin ↦ rw (hidden, back, margin) (returns (refl, d))
      ]
      | inr other ↦ elim (Bool-cases (c == 10)) [
        | inl enter ↦ rw (hidden, other, enter) (returns (refl, d))
        | inr rest ↦ rw (hidden, other, rest) (returns (refl, d))
      ]
    ]
  ]

  -- `keyboard_handler` returns on every key: a released or unknown key leaves the buffer as it is,
  -- and every other key's character is pushed. Nothing below
  -- the free part of the heap changes. The heap lies below the frame buffer, and vsnprintf terminates what it stores.
  pub keyboard_handler_lem :
      (k : Keyboard) (m : Machine)
      → IsHeap m
      → IsScreen p m
      → Returns
          (λ k' m'. (k'.keys ≡ heard (byte_from p 0x60 (acknowledged m)) k.keys) × Drew m m')
          (keyboard_handler p k m)
  unfolding keyboard_handler pic_send_eoi outb inb
  keyboard_handler_lem k m heap screen =
      let rawkey = byte_from p 0x60 (acknowledged m) in
      let trace = in_byte 0x60 rawkey ∷ (acknowledged m).trace in
      let read = Drew-log m trace heap in
      elim (Bool-cases (ltb 0x80 rawkey)) [
        | inl released ↦
            rw released
              (returns (refl, Drew-log m (out_byte 0x20 0x20 ∷ out_byte 0xA0 0x20 ∷ trace) heap))
        | inr pressed ↦ elim (Bool-cases (keyboard_to_ascii rawkey == 0)) [
          | inl unknown ↦
              rw (pressed, unknown)
                (Returns-bind
                  (kprintf-Drew p laws 200 200 none _ _ m (record m { trace = trace }) screen read)
                  λ _ m1 d1. returns (
                    refl,
                    Drew-trans m m1
                        (record m1 { trace = out_byte 0x20 0x20 ∷ out_byte 0xA0 0x20 ∷ m1.trace })
                        d1
                        (Drew-log m1 (out_byte 0x20 0x20 ∷ out_byte 0xA0 0x20 ∷ m1.trace) d1.valid),
                  ))
          | inr known ↦
              let c = keyboard_to_ascii rawkey in
              rw (pressed, known)
                (echo_lem c (record k { keys = (circ_buf_push c k.keys).1 }) m
                  (record m { trace = debug_msg "kernel key: %c" (c ∷ []) ∷ trace }) screen
                  (Drew-log m (debug_msg "kernel key: %c" (c ∷ []) ∷ trace) heap))
        ]
      ]
