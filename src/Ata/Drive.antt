-- ===== src/Ata/Drive.antt =====
-- Reading sectors from a drive that keeps to the ATA protocol.
use mathlib.Core.Path.{subst}
use lappis.Ata.{
  IdeDev, ata_read, ata_reg_altstatus, ata_reg_status, ide_400ns_delay, ide_poll, ide_read_sector,
  is_set, wait_busy,
}
use lappis.Ata.Sector.{answers, request_sector_lem, requested, sector_words_lem, word_bytes}
use lappis.Ata.Serving.{
  IsDrive, Serves, bytes_small, disk_bytes, length-disk_bytes, length-word_bytes, reads, status_at,
}
use lappis.Base.{
  List, add32, ap, arith, false, length, refl, suc, true, zero, ℕ, ◌*◌, ◌+◌, ◌<◌, ◌^◌, ◌∙◌, ◌≡◌,
  ◌≤◌,
}
use lappis.Kernel.{dev}
use lappis.Machine.{Event, Machine, Platform, Returns, ok, returns}
use lappis.Machine.Memory.{Written, store_list, store_list-Written, store_list-append}
use lappis.Machine.Ports.{inb}

module _ (p : Platform) where
  ide_400ns_delay_lem :
      (io : ℕ) (m : Machine)
      → ide_400ns_delay p io m
        ≡ ok tt (record m { trace = reads p (io + ata_reg_altstatus) 4 m.trace })
  unfolding ide_400ns_delay inb reads
  ide_400ns_delay_lem io m = refl

  -- A read of the status is one more of the reads.
  status_read :
      (io n : ℕ) (h : List Event) (m : Machine)
      → inb p (io + ata_reg_status) (record m { trace = reads p (io + ata_reg_status) n h })
        ≡ ok
            (status_at p io (reads p (io + ata_reg_status) n h))
            (record m { trace = reads p (io + ata_reg_status) (suc n) h })
  unfolding inb reads
  status_read io n h m = refl

  -- The loop ends behind `left` more busy answers.
  wait_busy_lem :
      (f left n last io : ℕ) (h : List Event) (m : Machine)
      → left < f
      → n + left ≡ last
      → ((i : ℕ)
          → i < last
          → is_set (status_at p io (reads p (io + ata_reg_status) i h)) 0x80 ≡ true)
      → is_set (status_at p io (reads p (io + ata_reg_status) last h)) 0x80 ≡ false
      → wait_busy p f io (record m { trace = reads p (io + ata_reg_status) n h })
        ≡ ok tt (record m { trace = reads p (io + ata_reg_status) (suc last) h })
  unfolding wait_busy
  wait_busy_lem zero left n last io h m fuel e busy free = absurd (omega (arith, fuel))
  wait_busy_lem (suc f) zero n last io h m fuel e busy free =
      let this : n ≡ last = omega (arith, e) in rw (this, status_read io last h m, free) refl
  wait_busy_lem (suc f) (suc left) n last io h m fuel e busy free =
      rw (status_read io n h m, busy n (omega (arith, e)))
        (wait_busy_lem f left (suc n) last io h m (omega (arith, fuel)) (omega (arith, e)) busy
          free)

  waited :
      (io : ℕ) (h : List Event) (words : List ℕ) (m : Machine)
      → (s : Serves p io h words)
      → wait_busy p p.rounds io (record m { trace = h })
        ≡ ok tt (record m { trace = reads p (io + ata_reg_status) (suc s.busy) h })
  unfolding reads
  waited io h words m s =
      wait_busy_lem p.rounds s.busy 0 s.busy io h m s.patience (omega arith) s.is_busy s.is_free

  ide_poll_lem :
      (io : ℕ) (words : List ℕ) (m : Machine)
      → (s : Serves p io (reads p (io + ata_reg_altstatus) 4 m.trace) words)
      → ide_poll p io true m
        ≡ ok tt (record m {
          trace =
              reads p
                (io + ata_reg_status)
                (suc (suc s.busy))
                (reads p (io + ata_reg_altstatus) 4 m.trace);
        })
  unfolding ide_poll
  ide_poll_lem io words m s =
      let h = reads p (io + ata_reg_altstatus) 4 m.trace in
      rw
        (
          ide_400ns_delay_lem io m,
          waited io h words m s,
          status_read io (suc s.busy) h m,
          s.no_error,
          s.no_fault,
          s.has_data,
        )
        refl

  ide_read_sector_lem :
      (buf lba : ℕ) (dev : IdeDev) (sector : ℕ → List ℕ) (m : Machine)
      → IsDrive p dev sector
      → lba < 2 ^ 28
      → dev.io + 7 < 2 ^ 16
      → (t : List Event) × (ide_read_sector p buf lba dev m
          ≡ ok tt (record m { mem = store_list m.mem buf (word_bytes (sector lba)); trace = t }))
  unfolding ide_read_sector
  ide_read_sector_lem buf lba dev sector m drive small ports =
      let (r3, r4, r5, r6, asked, address, select) = request_sector_lem lba dev m small ports in
      let h = requested dev.io r3 r4 r5 r6 m.trace in
      let s : Serves p dev.io (reads p (dev.io + ata_reg_altstatus) 4 h) (sector lba) =
        subst (λ a. Serves p dev.io (reads p (dev.io + ata_reg_altstatus) 4 h) (sector a)) address
          (drive.serves r3 r4 r5 r6 m.trace select) in
      let ready =
        reads p (dev.io + ata_reg_status) (suc (suc s.busy))
          (reads p (dev.io + ata_reg_altstatus) 4 h) in
      (
        reads p (dev.io + ata_reg_altstatus) 4 (answers p 256 dev.io ready).1,
        rw
            (
              asked,
              ide_poll_lem dev.io (sector lba) (record m { trace = h }) s,
              sector_words_lem p 256 dev.io buf (record m { trace = ready }),
              s.answered,
            )
            (ide_400ns_delay_lem dev.io _),
      )

  read_loop :
      (n buf lba : ℕ) (dev : IdeDev) (sector : ℕ → List ℕ) (m : Machine)
      → IsDrive p dev sector
      → ((a : ℕ) → length (sector a) ≡ 256)
      → lba + n ≤ 2 ^ 28
      → dev.io + 7 < 2 ^ 16
      → (t : List Event) × (ata_read p buf lba n dev m
          ≡ ok tt (record m { mem = store_list m.mem buf (disk_bytes sector lba n); trace = t }))
  unfolding ata_read store_list
  read_loop zero buf lba dev sector m drive sizes small ports = (m.trace, refl)
  read_loop (suc n) buf lba dev sector m drive sizes small ports =
      let (t, one) = ide_read_sector_lem buf lba dev sector m drive (omega (arith, small)) ports in
      let first = word_bytes (sector lba) in
      let m1 = record m { mem = store_list m.mem buf first; trace = t } in
      let (t', rest) =
        read_loop n (buf + 512) (lba + 1) dev sector m1 drive sizes (omega (arith, small)) ports in
      let next_lba : add32 lba 1 ≡ lba + 1 = omega (arith, small) in
      let size : length first ≡ 512 = length-word_bytes (sector lba) ∙ omega (arith, sizes lba) in
      let joined =
        store_list-append m.mem buf first (disk_bytes sector (lba + 1) n)
        ∙ ap (λ k. store_list m1.mem (buf + k) (disk_bytes sector (lba + 1) n)) size in
      (t', rw (one, next_lba, joined) rest)

  -- From a drive that keeps to the protocol, however long it is busy with each sector, `ata_read`
  -- returns, and stores the sectors from `lba` on one behind the other at `buf`, each word low byte
  -- first, and changes no other byte. The sector numbers have 28 bits, and a wait is followed for
  -- longer than the drive is busy.
  pub ata_read_lem :
      (n buf lba : ℕ) (dev : IdeDev) (sector : ℕ → List ℕ) (m : Machine)
      → IsDrive p dev sector
      → ((a : ℕ) → length (sector a) ≡ 256)
      → lba + n ≤ 2 ^ 28
      → dev.io + 7 < 2 ^ 16
      → Returns
          (λ _ m'.
            Written m.mem buf (disk_bytes sector lba n) m'.mem
            × (length (disk_bytes sector lba n) ≡ 512 * n)
            × (m'.heap_current ≡ m.heap_current))
          (ata_read p buf lba n dev m)
  ata_read_lem n buf lba dev sector m drive sizes small ports =
      let (t, ran) = read_loop n buf lba dev sector m drive sizes small ports in
      rw ran (
        returns (
          store_list-Written m.mem buf (disk_bytes sector lba n) (bytes_small sector lba n),
          length-disk_bytes sector sizes lba n,
          refl,
        ))
