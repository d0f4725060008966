-- ===== src/Pic/Remap.antt =====
-- What each of the two controllers sees of `PIC_remap`.
use lappis.Base.{List, [], arith, if◌then◌else◌, refl, ℕ, ◌%◌, ◌<◌, ◌==◌, ◌^◌, ◌∷◌, ◌≡◌}
use lappis.Machine.{Event, Machine, Platform, Returns, debug_msg, in_byte, out_byte, returns}
use lappis.Machine.Ports.{byte_from, inb, outb}
use lappis.Pic.{pic1_command, pic1_data, pic2_command, pic2_data, pic_remap}

-- The bytes that one controller is sent, by its command and its data port.
pub data PicWrite : Type 0 where
  command : ℕ → PicWrite
  datum : ℕ → PicWrite

-- The writes of a trace to one controller, newest first.
abbrev pub writes_to : ℕ → ℕ → List Event → List PicWrite
writes_to cmd dat [] = []
writes_to cmd dat (out_byte port b ∷ trace) =
    if port == cmd
    then command b ∷ writes_to cmd dat trace
    else if port == dat
    then datum b ∷ writes_to cmd dat trace
    else writes_to cmd dat trace
writes_to cmd dat (in_byte port b ∷ trace) = writes_to cmd dat trace
writes_to cmd dat (e ∷ trace) = writes_to cmd dat trace

-- The initialisation that the controller's manual asks for: ICW1 (cascade, ICW4 follows), the
-- vector offset, the wiring of the cascade, 8086 mode; and then a mask. Newest first.
abbrev pub initialised : ℕ → ℕ → ℕ → List PicWrite → List PicWrite
initialised offset cascade mask before =
    datum mask ∷ datum 0x01 ∷ datum cascade ∷ datum offset ∷ command 0x11 ∷ before

-- The machine after the first message of `PIC_remap`, and after the first mask was read.
abbrev pub begun : Machine → Machine
begun m = record m { trace = debug_msg "PIC_remap: start." [] ∷ m.trace }

abbrev pub mask_read : Platform → Machine → Machine
mask_read p m = record m { trace = in_byte pic1_data (byte_from p pic1_data m) ∷ m.trace }

-- What `PIC_remap` adds to the writes that the controllers saw before.
abbrev pub Remapped : Platform → ℕ → ℕ → Machine → Machine → Type 0
Remapped p offset1 offset2 m m' =
    (writes_to pic1_command pic1_data m'.trace
      ≡ initialised (offset1 % 2 ^ 8) 4 (byte_from p pic1_data (begun m))
          (writes_to pic1_command pic1_data m.trace))
    × (writes_to pic2_command pic2_data m'.trace
        ≡ initialised (offset2 % 2 ^ 8) 2 (byte_from p pic2_data (mask_read p (begun m)))
            (writes_to pic2_command pic2_data m.trace))

-- `PIC_remap` sends each controller, and no other bytes, the initialisation sequence in its order:
-- the primary its low offset byte and the secondary's line, the secondary its own offset and its
-- identity 2; then each gets back the mask that was read from it at the start.
pub pic_remap_lem :
    (p : Platform) (offset1 offset2 : ℕ) (m : Machine)
    → Returns (λ _. Remapped p offset1 offset2 m) (pic_remap p offset1 offset2 m)
unfolding pic_remap outb inb
pic_remap_lem p offset1 offset2 m =
    let mask1 = byte_again (byte_from p pic1_data (begun m)) (omega arith) in
    let mask2 = byte_again (byte_from p pic2_data (mask_read p (begun m))) (omega arith) in
    returns (rw mask1 refl, rw mask2 refl)
  where
    byte_again : (b : ℕ) → b < 2 ^ 8 → b % 2 ^ 8 ≡ b
    byte_again b lt = omega arith
