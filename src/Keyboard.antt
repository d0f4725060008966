-- ===== src/Keyboard.antt =====
-- src/kernel/drivers/keyboard.c: scan codes, the buffer of typed characters, and the interrupt
-- handler that fills it.
pub mod Buffer
pub mod Interleave
pub mod Ascii
pub mod Handler
use lappis.Base.{
  Bool, List, Option, [], add32, false, get_or, if◌then◌else◌, leb, ltb, none, replicate, set, some,
  sub32, true, ℕ, ◌*◌, ◌-◌, ◌==◌, ◌∷◌,
}
use lappis.Machine.{Cmd, Platform, and_then, debug, pure, ◌>>=◌, ◌>>◌}
use lappis.Machine.Ports.{inb}
use lappis.Pic.{pic_send_eoi}
use lappis.Print.{kprintf}
use lappis.Strings.{byte, is_print}
use lappis.Video.{large_font_cell_height, large_font_cell_width}

-- `circ_buf_t`.
pub record CircBuf : Type 0 where
  pub buffer : List ℕ
  pub head : ℕ
  pub tail : ℕ
  pub maxlen : ℕ

abbrev pub max_keys : ℕ
max_keys = 128

abbrev pub cbuf : CircBuf
cbuf = record { buffer = replicate max_keys 0; head = 0; tail = 0; maxlen = max_keys }

-- The index behind `i`, where it wraps around.
abbrev pub next_index : CircBuf → ℕ → ℕ
next_index c i = let next = add32 i 1 in if leb c.maxlen next then 0 else next

unfoldable pub circ_buf_push : ℕ → CircBuf → Bool × CircBuf
circ_buf_push byte c =
    let next = next_index c c.head in
    if next == c.tail
    then (false, c)
    else (true, record c { buffer = set c.buffer c.head byte; head = next })

-- The byte is what goes through `data`, which keeps its value where there is none.
unfoldable pub circ_buf_pop : CircBuf → Bool × Option ℕ × CircBuf
circ_buf_pop c =
    if c.head == c.tail
    then (false, none, c)
    else (true, some (get_or c.buffer c.tail 0), record c { tail = next_index c c.tail })

-- The keys, under the source's names with their scan codes.
abbrev pub scan_codes : List (ℕ × ℕ)
scan_codes =
    (0x10, b'q')
    ∷ (0x11, b'w')
    ∷ (0x12, b'e')
    ∷ (0x13, b'r')
    ∷ (0x14, b't')
    ∷ (0x15, b'y')
    ∷ (0x16, b'u')
    ∷ (0x17, b'i')
    ∷ (0x18, b'o')
    ∷ (0x19, b'p')
    ∷ (0x1E, b'a')
    ∷ (0x1F, b's')
    ∷ (0x20, b'd')
    ∷ (0x21, b'f')
    ∷ (0x22, b'g')
    ∷ (0x23, b'h')
    ∷ (0x24, b'j')
    ∷ (0x25, b'k')
    ∷ (0x26, b'l')
    ∷ (0x2C, b'z')
    ∷ (0x2D, b'x')
    ∷ (0x2E, b'c')
    ∷ (0x2F, b'v')
    ∷ (0x30, b'b')
    ∷ (0x31, b'n')
    ∷ (0x32, b'm')
    ∷ (0xb, b'0')
    ∷ (0x2, b'1')
    ∷ (0x3, b'2')
    ∷ (0x4, b'3')
    ∷ (0x5, b'4')
    ∷ (0x6, b'5')
    ∷ (0x7, b'6')
    ∷ (0x8, b'7')
    ∷ (0x9, b'8')
    ∷ (0xA, b'9')
    ∷ (0x29, b'`')
    ∷ (0x0c, b'-')
    ∷ (0x0d, b'=')
    ∷ (0x1a, b'[')
    ∷ (0x1b, b']')
    ∷ (0x27, b';')
    ∷ (0x28, 39)
    ∷ (0x2b, 92)
    ∷ (0x33, b',')
    ∷ (0x34, b'.')
    ∷ (0x35, b'/')
    ∷ (0x56, b'<')
    ∷ (0x39, b' ')
    ∷ (0x1C, 10)
    ∷ (0x01, 27)
    ∷ (0x0e, 8)
    ∷ []

-- The `switch`: the character of the case, or 0.
unfoldable pub lookup_key : ℕ → List (ℕ × ℕ) → ℕ
lookup_key key [] = 0
lookup_key key ((code, char) ∷ cases) = if key == code then char else lookup_key key cases

unfoldable pub keyboard_to_ascii : ℕ → ℕ
keyboard_to_ascii key = lookup_key (if leb 0x80 key then key - 0x80 else key) scan_codes

-- The driver's static variables.
pub record Keyboard : Type 0 where
  pub keys : CircBuf
  pub caret_x : ℕ
  pub caret_y : ℕ

abbrev pub keyboard : Keyboard
keyboard = record { keys = cbuf; caret_x = 0; caret_y = 3 * large_font_cell_height }

module _ (p : Platform) where
  -- The part of the handler that shows a character.
  pub echo : ℕ → Keyboard → Cmd Keyboard
  echo c k =
      if is_print c
      then (do
        kprintf p k.caret_x k.caret_y none "%c" (c ∷ [])
        pure (record k { caret_x = add32 k.caret_x large_font_cell_width }))
      else if c == 8
      then (if ltb 0 k.caret_x
          then (do
            let x = sub32 k.caret_x large_font_cell_width
            kprintf p x k.caret_y none "%c" (b' ' ∷ [])
            pure (record k { caret_x = x }))
          else pure k)
      else if c == 10
      then pure (record k { caret_x = 0; caret_y = add32 k.caret_y large_font_cell_height })
      else pure k

  pub keyboard_handler : Keyboard → Cmd Keyboard
  keyboard_handler k = do
    pic_send_eoi 0x22
    rawkey ← inb p 0x60
    if ltb 0x80 rawkey then (do pic_send_eoi 0x22; pure k) else (do
      let c = keyboard_to_ascii rawkey
      if c == 0
          then (do kprintf p 200 200 none "Unk key: %d  " (rawkey ∷ []); pic_send_eoi 0x22; pure k)
          else (do
            debug "kernel key: %c" (c ∷ [])
            echo c (record k { keys = (circ_buf_push c k.keys).1 })))
