-- ===== src/Ata/Sector.antt =====
-- Reading a sector: the address that the drive is sent, and the words that it answers with.
use lappis.Ata.{IdeDev, request_sector, sector_words}
use lappis.Base.{
  Bool, Bool-cases, List, [], ap, arith, bit_and, bit_and-ones, bit_or, holds_below_sound,
  if◌then◌else◌, inl, inr, le_bytes, refl, shr, suc, zero, ℕ, ◌%◌, ◌&&◌, ◌*◌, ◌+◌, ◌/◌, ◌<◌, ◌==◌,
  ◌^◌, ◌∙◌, ◌∷◌, ◌≡◌,
}
use lappis.Kernel.{dev}
use lappis.Machine.{Event, Machine, Platform, in_word, ok, out_byte}
use lappis.Machine.Memory.{store_list}
use lappis.Machine.Ports.{inw, outb, word_from}

-- The address that a drive makes of the registers: three bytes, and the low four bits of the drive
-- register.
abbrev pub register_lba : ℕ → ℕ → ℕ → ℕ → ℕ
register_lba r3 r4 r5 r6 = r3 + r4 * 2 ^ 8 + r5 * 2 ^ 16 + r6 % 2 ^ 4 * 2 ^ 24

-- A request as the drive at `io` sees it, newest first.
abbrev pub requested : ℕ → ℕ → ℕ → ℕ → ℕ → List Event → List Event
requested io r3 r4 r5 r6 trace =
    out_byte (io + 7) 0x20
    ∷ out_byte (io + 5) r5
    ∷ out_byte (io + 4) r4
    ∷ out_byte (io + 3) r3
    ∷ out_byte (io + 2) 1
    ∷ out_byte (io + 1) 0
    ∷ out_byte (io + 6) r6
    ∷ trace

high_nibble : ℕ → Bool
high_nibble n = bit_or 0xE0 n == 0xE0 + n && bit_or 0xF0 n == 0xF0 + n

nibble_lem : (n : ℕ) → n < 16 → (bit_or 0xE0 n ≡ 0xE0 + n) × (bit_or 0xF0 n ≡ 0xF0 + n)
unfolding high_nibble
nibble_lem n lt = ground (arith, holds_below_sound high_nibble 16 refl n lt)

-- For a 28-bit sector number, a request is for one sector, in LBA mode, for the drive, and the
-- address that its registers give the drive is that number.
pub request_sector_lem :
    (lba : ℕ) (dev : IdeDev) (m : Machine)
    → lba < 2 ^ 28
    → dev.io + 7 < 2 ^ 16
    → (r3 : ℕ) × (r4 : ℕ) × (r5 : ℕ) × (r6 : ℕ) × (request_sector lba dev m
        ≡ ok tt (record m { trace = requested dev.io r3 r4 r5 r6 m.trace }))
      × (register_lba r3 r4 r5 r6 ≡ lba)
      × (r6 / 2 ^ 4 ≡ (if dev.drive == 0 then 0xE else 0xF))
unfolding request_sector outb
request_sector_lem lba dev m small ports =
    let low = bit_and-ones 4 (shr lba 24) in
    let nibble = nibble_lem (shr lba 24 % 2 ^ 4) (omega arith) in
    let at7 : (dev.io + 7) % 2 ^ 16 ≡ dev.io + 7 = omega arith in
    let at6 : (dev.io + 6) % 2 ^ 16 ≡ dev.io + 6 = omega arith in
    let at5 : (dev.io + 5) % 2 ^ 16 ≡ dev.io + 5 = omega arith in
    let at4 : (dev.io + 4) % 2 ^ 16 ≡ dev.io + 4 = omega arith in
    let at3 : (dev.io + 3) % 2 ^ 16 ≡ dev.io + 3 = omega arith in
    let at2 : (dev.io + 2) % 2 ^ 16 ≡ dev.io + 2 = omega arith in
    let at1 : (dev.io + 1) % 2 ^ 16 ≡ dev.io + 1 = omega arith in
    let command = if dev.drive == 0 then 0xE0 else 0xF0 in
    (
      lba % 2 ^ 8,
      shr lba 8 % 2 ^ 8,
      shr lba 16 % 2 ^ 8,
      bit_or command (bit_and (shr lba 24) 0x0F) % 2 ^ 8,
      rw (at7, at6, at5, at4, at3, at2, at1) refl,
      elim (Bool-cases (dev.drive == 0)) [
        | inl first ↦ rw (first, low, nibble.0) (omega arith)
        | inr second ↦ rw (second, low, nibble.1) (omega arith)
      ],
      elim (Bool-cases (dev.drive == 0)) [
        | inl first ↦ rw (first, low, nibble.0) (omega arith)
        | inr second ↦ rw (second, low, nibble.1) (omega arith)
      ],
    )

-- The words that the drive answers with, and the machine after as many reads.
unfoldable pub answers : Platform → ℕ → ℕ → List Event → List ℕ × List Event
answers p zero io trace = ([], trace)
answers p (suc n) io trace =
    let w = p.device trace (io % 2 ^ 16) % 2 ^ 16 in
    let (ws, trace') = answers p n io (in_word (io % 2 ^ 16) w ∷ trace) in (w ∷ ws, trace')

-- The bytes of words, low byte first.
abbrev pub word_bytes : List ℕ → List ℕ
word_bytes [] = []
word_bytes (w ∷ ws) = w % 2 ^ 8 ∷ w / 2 ^ 8 % 2 ^ 8 ∷ word_bytes ws

-- The loop over a sector's words stores the answers of as many reads of the data port one behind the
-- other, low byte first, and makes no other access.
pub sector_words_lem :
    (p : Platform) (n io buf : ℕ) (m : Machine)
    → sector_words p n io buf m
      ≡ ok tt (record m {
        mem = store_list m.mem buf (word_bytes (answers p n io m.trace).0);
        trace = (answers p n io m.trace).1;
      })
unfolding sector_words inw store_list answers
sector_words_lem p zero io buf m = refl
sector_words_lem p (suc n) io buf m =
    let w = word_from p io m in
    let trace = in_word (io % 2 ^ 16) w ∷ m.trace in
    let mem = store_list m.mem buf (le_bytes 2 w) in
    let shift : buf + 2 ≡ buf + 1 + 1 = omega arith in
    let (ws, trace') = answers p n io trace in
    sector_words_lem p n io (buf + 2) (record m { mem = mem; trace = trace })
    ∙ ap (λ q. ok tt (record m { mem = store_list mem q (word_bytes ws); trace = trace' })) shift
