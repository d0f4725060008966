-- ===== src/Tests/Drivers.antt =====
-- The drivers on a machine whose ports read 0, or that is busy.
use lappis.Ata.{IdeDev, request_sector}
use lappis.Ata.Sector.{register_lba, request_sector_lem, requested}
use lappis.Base.{
  [], arith, refl, suc, true, zero, ℕ, ◌*◌, ◌+◌, ◌/◌, ◌<◌, ◌^◌, ◌∷◌, ◌≡◌, ◌≢◌, ◌≤◌, ◌⊎◌,
}
use lappis.Keyboard.{CircBuf, keyboard_to_ascii, lookup_key}
use lappis.Keyboard.Ascii.{keyboard_to_ascii-injective}
use lappis.Keyboard.Buffer.{IsValid, circ_run, circ_run_lem, fifo_run, pop, push}
use lappis.Machine.{Machine, Platform, Returns, ok, stuck}
use lappis.Mouse.{Mouse}
use lappis.Pic.{pic_remap}
use lappis.Pic.Remap.{Remapped, pic_remap_lem}
use lappis.Ps2.{ps2_wait_read, ps2_wait_write}
use lappis.Ps2.Timeout.{
  ClearFor, SetFor, polled, polled_for, ps2_wait_read-clear, ps2_wait_write-busy,
}
use lappis.Serial.{serial_write_byte}
use lappis.Serial.Wait.{sent, serial_write_byte_lem}
use lappis.Tests.{machine, platform}
use lappis.Video.{height, set_pixel, white, width}
use lappis.Video.Pixels.{pixel_at, set_pixel_lem}

-- A buffer of four cells, three of them used, whose contents go around the end.
abbrev small_buffer : CircBuf
small_buffer = record { buffer = 10 ∷ 11 ∷ 12 ∷ 13 ∷ []; head = 1; tail = 2; maxlen = 4 }

small_buffer-IsValid : IsValid small_buffer
small_buffer-IsValid = record {
  array = refl;
  small = omega arith;
  head_in = omega arith;
  tail_in = omega arith;
}

circ_run_lem_example :
    circ_run (push 1 ∷ pop ∷ push 2 ∷ pop ∷ []) small_buffer
    ≡ fifo_run 3 (push 1 ∷ pop ∷ push 2 ∷ pop ∷ []) (12 ∷ 13 ∷ 10 ∷ [])
circ_run_lem_example =
    circ_run_lem (push 1 ∷ pop ∷ push 2 ∷ pop ∷ []) small_buffer small_buffer-IsValid

a_is_a : keyboard_to_ascii 0x1E ≡ b'a'
unfolding keyboard_to_ascii lookup_key
a_is_a = refl

keyboard_to_ascii-injective_example : ◌≡◌ {A = ℕ} 0x1E 0x1E
keyboard_to_ascii-injective_example =
    keyboard_to_ascii-injective 0x1E 0x1E (omega arith) (omega arith) (rw a_is_a (omega arith)) refl

-- The cursor in the lower right corner, and a packet that moves it further right and up.
abbrev corner : Mouse
corner = record {
  mouse_count = 2;
  stat_raw = 8;
  xrel_raw = 5;
  yrel_raw = 3;
  mouse_cursor_x = 1279;
  mouse_cursor_y = 1023;
}

serial_write_byte_lem_example :
    serial_write_byte platform 0x3F8 b'a' machine ≡ ok tt (sent platform 0x3F8 b'a' machine)
serial_write_byte_lem_example = serial_write_byte_lem platform 0x3F8 b'a' machine (omega arith)

pic_remap_lem_example :
    Returns (λ _. Remapped platform 0x20 0x28 machine) (pic_remap platform 0x20 0x28 machine)
pic_remap_lem_example = pic_remap_lem platform 0x20 0x28 machine

set_pixel_lem_example :
    (pixel_at 0 (set_pixel 0 (λ a. 0) 3 4 white) 3 4 ≡ white)
    × ((x' y' : ℕ)
        → x' < width
        → y' < height
        → (3 ≢ x') ⊎ (4 ≢ y')
        → pixel_at 0 (set_pixel 0 (λ a. 0) 3 4 white) x' y' ≡ pixel_at 0 (λ a. 0) x' y')
    × ((a : ℕ) → (a < 0) ⊎ (0 + width * height * 4 ≤ a) → set_pixel 0 (λ a'. 0) 3 4 white a ≡ 0)
set_pixel_lem_example =
    set_pixel_lem 0 (λ a. 0) 3 4 white
      (record {
        red_byte = omega arith;
        green_byte = omega arith;
        blue_byte = omega arith;
        alpha_byte = omega arith;
      })
      (omega arith) (omega arith)

-- A controller that is busy for ever: its status reads 2.
abbrev busy_platform : Platform
busy_platform = record platform { device = λ trace port. 2 }

SetFor-always : (n : ℕ) (m : Machine) → SetFor busy_platform 2 n m
SetFor-always zero m = tt
SetFor-always (suc n) m = (refl, SetFor-always n (polled busy_platform m))

ClearFor-always : (n : ℕ) (m : Machine) → ClearFor platform 1 n m
ClearFor-always zero m = tt
ClearFor-always (suc n) m = (refl, ClearFor-always n (polled platform m))

ps2_wait_write-busy_example :
    ps2_wait_write busy_platform machine ≡ ok true (polled_for busy_platform 501 machine)
ps2_wait_write-busy_example =
    ps2_wait_write-busy busy_platform machine (omega arith) (SetFor-always 501 machine)

ps2_wait_read-clear_example : ps2_wait_read platform machine ≡ stuck
ps2_wait_read-clear_example = ps2_wait_read-clear platform machine (ClearFor-always 1000 machine)

abbrev drive : IdeDev
drive = record { bus = 0; drive = 0; io = 0x1F0 }

request_sector_lem_example :
    (r3 : ℕ) × (r4 : ℕ) × (r5 : ℕ) × (r6 : ℕ) × (request_sector 0x1234567 drive machine
      ≡ ok tt (record machine { trace = requested 0x1F0 r3 r4 r5 r6 [] }))
    × (register_lba r3 r4 r5 r6 ≡ 0x1234567)
    × (r6 / 2 ^ 4 ≡ 0xE)
request_sector_lem_example = request_sector_lem 0x1234567 drive machine (omega arith) (omega arith)
