-- ===== src/Ata.antt =====
-- src/kernel/drivers/ata.c: programmed reads from an IDE drive.
pub mod Sector
pub mod Serving
pub mod Drive
use lappis.Base.{
  Bool, String, [], add32, bit_and, bit_or, false, if◌then◌else◌, le_bytes, not, shr, suc, true,
  zero, ℕ, ◌!=◌, ◌&&◌, ◌+◌, ◌==◌,
}
use lappis.Heap.{malloc, null}
use lappis.Machine.{
  Cmd, Platform, and_then, debug, error, get_mem, pure, put_mem, skip, stuck, ◌>>=◌, ◌>>◌,
}
use lappis.Machine.Memory.{bytes_at, store, store_list}
use lappis.Machine.Ports.{inb, inw, outb}
use lappis.Pic.{pic_send_eoi}
use lappis.Pic.Remap.{command}

abbrev pub ata_primary_io : ℕ
ata_primary_io = 0x1F0

abbrev pub ata_secondary_io : ℕ
ata_secondary_io = 0x170

-- `ATA_REG_STATUS`, which is `ATA_REG_COMMAND` too.
abbrev pub ata_reg_status : ℕ
ata_reg_status = 7

-- `ATA_REG_ALTSTATUS`
abbrev pub ata_reg_altstatus : ℕ
ata_reg_altstatus = 0x0C

abbrev pub ata_cmd_read_pio : ℕ
ata_cmd_read_pio = 0x20

abbrev pub ata_cmd_identify : ℕ
ata_cmd_identify = 0xEC

abbrev pub ata_ident_model : ℕ
ata_ident_model = 54

-- `ide_dev_t`
pub record IdeDev : Type 0 where
  pub bus : ℕ
  pub drive : ℕ
  pub io : ℕ

-- A status register's bits: ATA_SR_BSY 0x80, ATA_SR_DF 0x20, ATA_SR_DRQ 0x08, ATA_SR_ERR 0x01.
abbrev pub is_set : ℕ → ℕ → Bool
is_set status bit = bit_and status bit != 0

pub ata_primary_handler : Cmd (Unit {0})
ata_primary_handler = pic_send_eoi (0x20 + 14)

pub ata_secondary_handler : Cmd (Unit {0})
ata_secondary_handler = pic_send_eoi (0x20 + 15)

pub ide_select_drive : ℕ → ℕ → Cmd (Unit {0})
ide_select_drive bus drive =
    if bus != 0 && bus != 1
    then error "Invalid bus!" []
    else let io = if bus == 0 then ata_primary_io else ata_secondary_io in
      if drive == 0
      then outb (io + 6) 0xA0
      else if drive == 1
      then outb (io + 6) 0xB0
      else error "Invalid drive!" []

-- The seven writes that ask for one sector at `lba`.
pub request_sector : ℕ → IdeDev → Cmd (Unit {0})
request_sector lba dev = do
  let command = if dev.drive == 0 then 0xE0 else 0xF0
  outb (dev.io + 6) (bit_or command (bit_and (shr lba 24) 0x0F))
  outb (dev.io + 1) 0x00
  outb (dev.io + 2) 1
  outb (dev.io + 3) lba
  outb (dev.io + 4) (shr lba 8)
  outb (dev.io + 5) (shr lba 16)
  outb (dev.io + ata_reg_status) ata_cmd_read_pio

module _ (p : Platform) where
  -- `while ((inb(io + ATA_REG_STATUS) & ATA_SR_BSY) != 0) {}`
  pub wait_busy : ℕ → ℕ → Cmd (Unit {0})
  wait_busy zero io = λ m. stuck
  wait_busy (suc f) io = do
    status ← inb p (io + ata_reg_status)
    if is_set status 0x80 then wait_busy f io else skip

  -- `while (!(status & ATA_SR_DRQ))`: whether the loop ended without an error.
  wait_drq : ℕ → ℕ → ℕ → Cmd Bool
  wait_drq zero io status = λ m. stuck
  wait_drq (suc f) io status = if is_set status 0x08 then pure true else do
    status' ← inb p (io + ata_reg_status)
    if is_set status' 0x01
        then (do error "unknown error: TODO: implement IDE error handling" []; pure false)
        else wait_drq f io status'

  -- The drive's name, high byte first, from word `i` on.
  identify_words : ℕ → ℕ → ℕ → Cmd (Unit {0})
  identify_words zero io dest = skip
  identify_words (suc left) io dest = do
    tmp ← inw p io
    mem ← get_mem
    put_mem (store (store mem dest (shr tmp 8)) (dest + 1) (bit_and tmp 0xFF))
    identify_words left io (dest + 2)

  pub ide_identify : ℕ → ℕ → ℕ → Cmd Bool
  ide_identify bus drive ide_buf = do
    ide_select_drive bus drive
    let io = if bus == 0 then ata_primary_io else ata_secondary_io
    outb (io + 2) 0
    outb (io + 3) 0
    outb (io + 4) 0
    outb (io + 5) 0
    outb (io + ata_reg_status) ata_cmd_identify
    status ← inb p (io + ata_reg_status)
    if status == 0 then (do error "Status was empty!" []; pure false) else do
      wait_busy p.rounds io
      status' ← inb p (io + ata_reg_status)
      if is_set status' 0x01
          then (do error "unknown error: TODO: implement IDE error handling" []; pure false)
          else do
            ready ← wait_drq p.rounds io status'
            if not ready then pure false else do
              identify_words 256 io ide_buf
              mem ← get_mem
              put_mem (store mem (ide_buf + (ata_ident_model + 40)) 0)
              pure true

  -- Four reads of the alternate status.
  pub ide_400ns_delay : ℕ → Cmd (Unit {0})
  ide_400ns_delay io = do
    a ← inb p (io + ata_reg_altstatus)
    b ← inb p (io + ata_reg_altstatus)
    c ← inb p (io + ata_reg_altstatus)
    d ← inb p (io + ata_reg_altstatus)
    skip

  -- One line of `ide_print_error`.
  abbrev report : ℕ → ℕ → String → Cmd (Unit {0})
  report status bit text = if is_set status bit then error text [] else skip

  -- The line of ATA_ER_ABRT is commented out.
  pub ide_print_error : ℕ → Cmd (Unit {0})
  ide_print_error io = do
    status ← inb p (io + 1)
    report status 0x01 "- No Address Mark Found"
    report status 0x02 "- No Media or Media Error"
    report status 0x08 "- No Media or Media Error"
    report status 0x10 "- ID mark not Found"
    report status 0x20 "- No Media or Media Error"
    report status 0x40 "- Uncorrectable Data Error"
    report status 0x80 "- Bad Sectors"

  pub ide_poll : ℕ → Bool → Cmd (Unit {0})
  ide_poll io advanced_check = do
    ide_400ns_delay io
    wait_busy p.rounds io
    if not advanced_check then skip else do
      status ← inb p (io + ata_reg_status)
      if is_set status 0x01
          then ide_print_error io
          else if is_set status 0x20
          then error "Device fault. TODO: implement IDE error handling" []
          else if is_set status 0x08
          then skip
          else error "DRQ not set. TODO: implement IDE error handling" []

  -- The 256 words of a sector, low byte first, with the words left.
  pub sector_words : ℕ → ℕ → ℕ → Cmd (Unit {0})
  sector_words zero io buf = skip
  sector_words (suc left) io buf = do
    data_word ← inw p io
    mem ← get_mem
    put_mem (store_list mem buf (le_bytes 2 data_word))
    sector_words left io (buf + 2)

  pub ide_read_sector : ℕ → ℕ → IdeDev → Cmd (Unit {0})
  ide_read_sector buf lba dev = do
    request_sector lba dev
    ide_poll dev.io true
    sector_words 256 dev.io buf
    ide_400ns_delay dev.io

  -- The loop of `ata_read`, with the sectors left.
  pub ata_read : ℕ → ℕ → ℕ → IdeDev → Cmd (Unit {0})
  ata_read buf lba zero dev = skip
  ata_read buf lba (suc left) dev = do
    ide_read_sector buf lba dev
    ata_read (buf + 512) (add32 lba 1) left dev

  -- The last message has the drive's name for its format.
  pub ata_probe : Cmd (Unit {0})
  ata_probe = do
    ide_buf ← malloc 512
    if ide_buf == null then error "Could not allocate memory for IDE probe" [] else do
      found ← ide_identify 0 0 ide_buf
      if not found then error "IDE primary master not found!" [] else do
        debug "ide_identify" []
        mem ← get_mem
        debug "" (bytes_at mem (ide_buf + ata_ident_model) 41)

  pub enable_ata : Cmd (Unit {0})
  enable_ata = do debug "Enabling ATA." []; ata_probe; debug "ATA enabled." []
