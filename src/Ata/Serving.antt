-- ===== src/Ata/Serving.antt =====
-- A drive that keeps to the ATA protocol, and the bytes of its sectors.
use lappis.Ata.{IdeDev, ata_reg_altstatus, ata_reg_status, is_set}
use lappis.Ata.Sector.{answers, register_lba, requested, word_bytes}
use lappis.Base.{
  All, List, [], ap, arith, false, if◌then◌else◌, length, length-append, refl, suc, true, zero, ℕ,
  ◌%◌, ◌*◌, ◌++◌, ◌+◌, ◌/◌, ◌<◌, ◌==◌, ◌^◌, ◌∷◌, ◌≡◌,
}
use lappis.Machine.{Event, Platform, in_byte}
use lappis.Machine.Memory.{All-append}

-- The trace after `n` reads of the status register, or of the alternate one.
unfoldable pub reads : Platform → ℕ → ℕ → List Event → List Event
reads p port zero h = h
reads p port (suc n) h =
    let before = reads p port n h in
    in_byte (port % 2 ^ 16) (p.device before (port % 2 ^ 16) % 2 ^ 8) ∷ before

-- The status that a read returns.
abbrev pub status_at : Platform → ℕ → List Event → ℕ
status_at p io h = p.device h ((io + ata_reg_status) % 2 ^ 16) % 2 ^ 8

-- Behind the events `h` the drive is busy for some reads of its status, then ready without an error,
-- and then answers with the words.
pub record Serves (p : Platform) (io : ℕ) (h : List Event) (words : List ℕ) : Type 0 where
  pub busy : ℕ
  pub patience : busy < p.rounds
  pub is_busy :
      (i : ℕ) → i < busy → is_set (status_at p io (reads p (io + ata_reg_status) i h)) 0x80 ≡ true
  pub is_free : is_set (status_at p io (reads p (io + ata_reg_status) busy h)) 0x80 ≡ false
  pub no_error : is_set (status_at p io (reads p (io + ata_reg_status) (suc busy) h)) 0x01 ≡ false
  pub no_fault : is_set (status_at p io (reads p (io + ata_reg_status) (suc busy) h)) 0x20 ≡ false
  pub has_data : is_set (status_at p io (reads p (io + ata_reg_status) (suc busy) h)) 0x08 ≡ true
  pub answered : (answers p 256 io (reads p (io + ata_reg_status) (suc (suc busy)) h)).0 ≡ words

-- Each request for a sector is served with that sector, behind the four reads of the delay.
pub record IsDrive (p : Platform) (dev : IdeDev) (sector : ℕ → List ℕ) : Type 0 where
  pub serves :
      (r3 r4 r5 r6 : ℕ) (h : List Event)
      → r6 / 2 ^ 4 ≡ (if dev.drive == 0 then 0xE else 0xF)
      → Serves p dev.io
          (reads p (dev.io + ata_reg_altstatus) 4 (requested dev.io r3 r4 r5 r6 h))
          (sector (register_lba r3 r4 r5 r6))

-- The bytes of the sectors from `lba` on.
abbrev pub disk_bytes : (ℕ → List ℕ) → ℕ → ℕ → List ℕ
disk_bytes sector lba zero = []
disk_bytes sector lba (suc n) = word_bytes (sector lba) ++ disk_bytes sector (lba + 1) n

pub length-word_bytes : (ws : List ℕ) → length (word_bytes ws) ≡ 2 * length ws
length-word_bytes [] = refl
length-word_bytes (w ∷ ws) = omega (arith, length-word_bytes ws)

word_bytes-small : (ws : List ℕ) → All (λ b. b < 2 ^ 8) (word_bytes ws)
word_bytes-small [] = tt
word_bytes-small (w ∷ ws) = (omega arith, (omega arith, word_bytes-small ws))

pub bytes_small : (sector : ℕ → List ℕ) (lba n : ℕ) → All (λ b. b < 2 ^ 8) (disk_bytes sector lba n)
bytes_small sector lba zero = tt
bytes_small sector lba (suc n) =
    All-append (λ b. b < 2 ^ 8) (word_bytes (sector lba)) (disk_bytes sector (lba + 1) n)
      (word_bytes-small (sector lba)) (bytes_small sector (lba + 1) n)

pub length-disk_bytes :
    (sector : ℕ → List ℕ)
    → ((a : ℕ) → length (sector a) ≡ 256)
    → (lba n : ℕ) → length (disk_bytes sector lba n) ≡ 512 * n
length-disk_bytes sector sizes lba zero = refl
length-disk_bytes sector sizes lba (suc n) = omega (
  arith,
  length-append (word_bytes (sector lba)) (disk_bytes sector (lba + 1) n),
  length-word_bytes (sector lba),
  sizes lba,
  length-disk_bytes sector sizes (lba + 1) n,
)

reads-first :
    (p : Platform) (port n : ℕ) (h : List Event)
    → reads p port n (in_byte (port % 2 ^ 16) (p.device h (port % 2 ^ 16) % 2 ^ 8) ∷ h)
      ≡ reads p port (suc n) h
unfolding reads
reads-first p port zero h = refl
reads-first p port (suc n) h =
    ap (λ t. in_byte (port % 2 ^ 16) (p.device t (port % 2 ^ 16) % 2 ^ 8) ∷ t)
      (reads-first p port n h)
