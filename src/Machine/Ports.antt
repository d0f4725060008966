-- ===== src/Machine/Ports.antt =====
-- src/kernel/ports.c: the port instructions.
use lappis.Base.{ℕ, ◌%◌, ◌^◌, ◌∷◌}
use lappis.Machine.{out_byte, in_byte, in_word, Platform, Machine, Cmd, ok, emit}

-- `outb`: the port is the 16 bits of dx, the byte that of al.
unfoldable pub outb : ℕ → ℕ → Cmd (Unit {0})
outb port byte = emit (out_byte (port % 2 ^ 16) (byte % 2 ^ 8))

module _ (p : Platform) where
  -- What the device answers now, a byte or a word.
  abbrev pub byte_from : ℕ → Machine → ℕ
  byte_from port m = p.device m.trace (port % 2 ^ 16) % 2 ^ 8

  abbrev pub word_from : ℕ → Machine → ℕ
  word_from port m = p.device m.trace (port % 2 ^ 16) % 2 ^ 16

  unfoldable pub inb : ℕ → Cmd ℕ
  inb port m =
      let result = byte_from port m in
      ok result (record m { trace = in_byte (port % 2 ^ 16) result ∷ m.trace })

  unfoldable pub inw : ℕ → Cmd ℕ
  inw port m =
      let result = word_from port m in
      ok result (record m { trace = in_word (port % 2 ^ 16) result ∷ m.trace })
