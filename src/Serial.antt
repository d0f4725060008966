-- ===== src/Serial.antt =====
-- src/kernel/serial.c: the serial ports, and the messages that `debug` and `error` send to COM1.
pub mod Wait
pub mod Text
pub mod Message
use lappis.Base.{
  Bool, List, String, [], add64, bit_and, codes, false, if◌then◌else◌, none, replicate, some, suc,
  true, zero, ℕ, ◌!=◌, ◌++◌, ◌+◌, ◌==◌, ◌∷◌,
}
use lappis.Keyboard.{echo}
use lappis.Machine.{Cmd, Platform, and_then, get_mem, pure, skip, stuck, ◌>>=◌, ◌>>◌}
use lappis.Machine.Memory.{store_list}
use lappis.Machine.Ports.{inb, outb}
use lappis.Strings.{itoa, strrchr}

abbrev pub serial_com1_port : ℕ
serial_com1_port = 0x3F8

abbrev pub serial_com2_port : ℕ
serial_com2_port = 0x2F8

-- `[DEBUG]` in green and `[ERROR]` in magenta.
abbrev pub debug_tag : List ℕ
debug_tag = 27 ∷ codes "[32;1;1m[DEBUG]" ++ 27 ∷ codes "[0m "

abbrev pub error_tag : List ℕ
error_tag = 27 ∷ codes "[35;1;1m[ERROR]" ++ 27 ∷ codes "[0m "

module _ (p : Platform) where
  -- Each write in the order of the source, then the loopback test.
  pub init_serial : ℕ → Cmd Bool
  init_serial port = do
    outb (port + 1) 0x00
    outb (port + 3) 0x80
    outb (port + 0) 0x03
    outb (port + 1) 0x00
    outb (port + 3) 0x03
    outb (port + 2) 0xC7
    outb (port + 4) 0x0B
    outb (port + 4) 0x1E
    outb (port + 0) 0xAE
    echo ← inb p (port + 0)
    if echo != 0xAE then pure false else do outb (port + 4) 0x0F; pure true

  pub is_transmit_empty : ℕ → Cmd Bool
  is_transmit_empty port = do status ← inb p (port + 5); pure (bit_and status 0x20 == 1)

  wait_transmit : ℕ → ℕ → Cmd (Unit {0})
  wait_transmit zero port = λ m. stuck
  wait_transmit (suc f) port = do
    empty ← is_transmit_empty port
    if empty then wait_transmit f port else skip

  pub serial_write_byte : ℕ → ℕ → Cmd (Unit {0})
  serial_write_byte port a = do wait_transmit p.rounds port; outb port a

  pub serial_debug_write_byte : ℕ → Cmd (Unit {0})
  serial_debug_write_byte c = serial_write_byte serial_com1_port c

  -- The bytes of a literal, or of a local buffer up to its terminator.
  pub write_text : ℕ → List ℕ → Cmd (Unit {0})
  write_text port [] = skip
  write_text port (c ∷ cs) = do serial_write_byte port c; write_text port cs

  serial_write_loop : ℕ → ℕ → ℕ → Cmd (Unit {0})
  serial_write_loop zero port string = λ m. stuck
  serial_write_loop (suc f) port string = do
    mem ← get_mem
    if mem string == 0
        then skip
        else do serial_write_byte port (mem string); serial_write_loop f port (string + 1)

  pub serial_write_string : ℕ → ℕ → Cmd (Unit {0})
  serial_write_string port string = serial_write_loop p.rounds port string

  -- A loop over `size` bytes, from a list of what they are.
  pub debug_buffer : List ℕ → Cmd (Unit {0})
  debug_buffer buffer = write_text serial_com2_port buffer

  -- What `debug_context` and `error_context` share: they differ in the tag. `buffer` and `s_linenr`
  -- are the addresses of the two local arrays.
  send_message : List ℕ → ℕ → ℕ → ℕ → ℕ → Cmd (Unit {0})
  send_message tag buffer s_linenr filename func_name = do
    write_text serial_com1_port tag
    write_text serial_com1_port (27 ∷ codes "[34m")
    serial_write_string serial_com1_port filename
    write_text serial_com1_port (27 ∷ codes "[0m")
    write_text serial_com1_port (codes ":")
    write_text serial_com1_port (27 ∷ codes "[35m")
    serial_write_string serial_com1_port func_name
    write_text serial_com1_port (27 ∷ codes "[0m")
    write_text serial_com1_port (codes ":")
    write_text serial_com1_port (27 ∷ codes "[37m")
    serial_write_string serial_com1_port s_linenr
    write_text serial_com1_port (27 ∷ codes "[0m")
    write_text serial_com1_port (codes " ")
    serial_write_string serial_com1_port buffer
    write_text serial_com1_port (10 ∷ [])

  context : List ℕ → ℕ → ℕ → ℕ → ℕ → ℕ → String → List ℕ → Cmd (Unit {0})
  context tag buffer s_linenr filename func_name linenr format args m =
      let formatted = store_list m.mem buffer (p.format m.mem 256 format args) in
      let cleared = store_list formatted s_linenr (replicate 10 0) in
      elim (itoa p.rounds cleared linenr s_linenr) [
        | none ↦ stuck
        | some mem ↦ elim (strrchr p.rounds mem filename b'/') [
          | none ↦ stuck
          | some i ↦
              send_message tag buffer s_linenr (add64 filename (add64 i 1)) func_name
                (record m { mem = mem })
        ]
      ]

  pub debug_context : ℕ → ℕ → ℕ → ℕ → ℕ → String → List ℕ → Cmd (Unit {0})
  debug_context buffer s_linenr filename func_name linenr format args =
      context debug_tag buffer s_linenr filename func_name linenr format args

  pub error_context : ℕ → ℕ → ℕ → ℕ → ℕ → String → List ℕ → Cmd (Unit {0})
  error_context buffer s_linenr filename func_name linenr format args =
      context error_tag buffer s_linenr filename func_name linenr format args
