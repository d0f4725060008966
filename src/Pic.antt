-- ===== src/Pic.antt =====
-- src/kernel/pic.c: the two interrupt controllers.
pub mod Remap
use lappis.Base.{[], bit_or, if◌then◌else◌, leb, ℕ}
use lappis.Machine.{Cmd, Platform, and_then, debug, skip, ◌>>=◌, ◌>>◌}
use lappis.Machine.Ports.{inb, outb}

abbrev pub pic1_command : ℕ
pic1_command = 0x20

abbrev pub pic1_data : ℕ
pic1_data = 0x21

abbrev pub pic2_command : ℕ
pic2_command = 0xA0

abbrev pub pic2_data : ℕ
pic2_data = 0xA1

abbrev pub pic_eoi : ℕ
pic_eoi = 0x20

abbrev pub icw1_icw4 : ℕ
icw1_icw4 = 0x01

abbrev pub icw1_init : ℕ
icw1_init = 0x10

abbrev pub icw4_8086 : ℕ
icw4_8086 = 0x01

unfoldable pub pic_send_eoi : ℕ → Cmd (Unit {0})
pic_send_eoi irq = do
  (if leb 8 irq then outb pic2_command pic_eoi else skip)
  outb pic1_command pic_eoi

module _ (p : Platform) where
  -- An offset is 16 bits wide; `outb` sends its low byte.
  pub pic_remap : ℕ → ℕ → Cmd (Unit {0})
  pic_remap offset1 offset2 = do
    debug "PIC_remap: start." []
    a1 ← inb p pic1_data
    a2 ← inb p pic2_data
    outb pic1_command (bit_or icw1_init icw1_icw4)
    outb pic2_command (bit_or icw1_init icw1_icw4)
    outb pic1_data offset1
    outb pic2_data offset2
    outb pic1_data 4
    outb pic2_data 2
    outb pic1_data icw4_8086
    outb pic2_data icw4_8086
    outb pic1_data a1
    outb pic2_data a2
    debug "PIC_remap: done." []
