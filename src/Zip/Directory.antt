-- ===== src/Zip/Directory.antt =====
-- `read_central_directory` and `read_end_of_central_directory` read into blocks that nothing keeps.
use lappis.Base.{ap, arith, length, refl, true, ℕ, ◌+◌, ◌<◌, ◌^◌, ◌≡◌, ◌≤◌}
use lappis.Heap.Userland.{MemcpyCopies}
use lappis.Machine.{Machine, Platform, Returns, returns}
use lappis.Zip.{
  central_blocks, central_header, end_header, read_central_directory, read_end_of_central_directory,
}
use lappis.Zip.Archive.{CentralEntry, CentralFits, EndRecord, central_body, end_body}
use lappis.Zip.Blocks.{At-SameBelow}
use lappis.Zip.Bytes.{At, read_uint16-cursor, read_uint16_lem, read_uint32-cursor}
use lappis.Zip.Cursor.{skip_bytes, skip_central_fixed}
use lappis.Zip.Discard.{ReadTo, Took-refl, Took-trans, central_cost, discard_step}
use lappis.Zip.Parts.{central_parts, end_comment, end_comment_length, length-central_body}

module _ (p : Platform) (laws : MemcpyCopies p) (buf : ℕ) where
  central_header_lem :
      (cur : ℕ) (e : CentralEntry) (m : Machine)
      → CentralFits e
      → At m.mem buf cur (central_body e)
      → cur + length (central_body e) < 2 ^ 64
      → central_header p m.mem buf cur ≡ (length e.name, length e.extra, length e.comment, cur + 42)
  unfolding central_header
  central_header_lem cur e m fits h room =
      let size = length-central_body e fits in
      let parts = central_parts m.mem buf cur e fits h in
      let start : skip_central_fixed cur ≡ cur + 16 = omega arith in
      let at1 : skip_bytes (cur + 16) 4 ≡ cur + 20 = omega arith in
      let at2 : skip_bytes (cur + 20) 4 ≡ cur + 24 = omega arith in
      let e1 =
        read_uint16_lem p laws m.mem buf (cur + 24) (length e.name) parts.name_length fits.name
          (omega arith) in
      let at3 : cur + 24 + 2 ≡ cur + 26 = omega arith in
      let e2 =
        read_uint16_lem p laws m.mem buf (cur + 26) (length e.extra) parts.extra_length fits.extra
          (omega arith) in
      let at4 : cur + 26 + 2 ≡ cur + 28 = omega arith in
      let e3 =
        read_uint16_lem p laws m.mem buf (cur + 28) (length e.comment) parts.comment_length
          fits.comment (omega arith) in
      let at5 : cur + 28 + 2 ≡ cur + 30 = omega arith in
      let at6 : skip_bytes (cur + 30) 2 ≡ cur + 32 = omega arith in
      let at7 : skip_bytes (cur + 32) 2 ≡ cur + 34 = omega arith in
      let at8 : skip_bytes (cur + 34) 4 ≡ cur + 38 = omega arith in
      let at9 : skip_bytes (cur + 38) 4 ≡ cur + 42 = omega arith in
      rw (
        start,
        read_uint32-cursor p m.mem buf (cur + 16),
        at1,
        read_uint32-cursor p m.mem buf (cur + 20),
        at2,
        e1,
        at3,
        e2,
        at4,
        e3,
        at5,
        read_uint16-cursor p m.mem buf (cur + 30),
        at6,
        read_uint16-cursor p m.mem buf (cur + 32),
        at7,
        read_uint32-cursor p m.mem buf (cur + 34),
        at8,
        read_uint32-cursor p m.mem buf (cur + 38),
        at9,
      )

  pub read_central_lem :
      (cur : ℕ) (e : CentralEntry) (m : Machine)
      → CentralFits e
      → At m.mem buf cur (central_body e)
      → cur + length (central_body e) < 2 ^ 64
      → buf + cur + length (central_body e) ≤ m.heap_current
      → 0 < m.heap_current
      → m.heap_current + central_cost e < m.heap_end
      → m.heap_end < 2 ^ 64
      → Returns
          (ReadTo (central_cost e) (cur + length (central_body e)) m)
          (read_central_directory p buf cur m)
  unfolding read_central_directory central_blocks
  read_central_lem cur e m fits h room apart pos space small =
      let size = length-central_body e fits in
      let parts = central_parts m.mem buf cur e fits h in
      let to = cur + length (central_body e) in
      rw (central_header_lem cur e m fits h room) (
        discard_step p laws buf (length e.name + 1) (cur + 42) (length e.name) _ e.name _ to m refl
          (omega arith) parts.name (omega arith) (omega arith) pos (omega arith) small
          λ m1 took1.
            discard_step p laws buf (length e.extra) (cur + 42 + length e.name) (length e.extra) _
              e.extra _ to m1 refl (omega arith)
              (At-SameBelow m.mem m1.mem buf (cur + 42 + length e.name) m.heap_current e.extra
                took1.same (omega arith) parts.extra)
              (omega arith) (omega (arith, took1.current)) (omega (arith, took1.current))
              (omega (arith, took1.current, took1.same_end)) (omega (arith, took1.same_end))
              λ m2 took2.
                let took = Took-trans (length e.name + 1) (length e.extra) m m1 m2 took1 took2 in
                discard_step p laws buf (length e.comment)
                  (cur + 42 + length e.name + length e.extra) (length e.comment) 0 e.comment _ to m2
                  refl (omega arith)
                  (At-SameBelow m.mem m2.mem buf (cur + 42 + length e.name + length e.extra)
                    m.heap_current e.comment took.same (omega arith) parts.comment)
                  (omega arith) (omega arith) (omega arith) (omega arith) (omega arith)
                  λ m3 took3. returns (ap (λ c. (true, c)) (omega arith), Took-refl m3))

  end_header_lem :
      (cur : ℕ) (e : EndRecord) (m : Machine)
      → length e.comment < 2 ^ 16
      → At m.mem buf cur (end_body e)
      → cur + length (end_body e) < 2 ^ 64
      → end_header p m.mem buf cur ≡ (length e.comment, cur + 18)
  unfolding end_header
  end_header_lem cur e m fits h room =
      let at1 : skip_bytes cur 2 ≡ cur + 2 = omega arith in
      let at2 : skip_bytes (cur + 2) 2 ≡ cur + 4 = omega arith in
      let at3 : skip_bytes (cur + 4) 2 ≡ cur + 6 = omega arith in
      let at4 : skip_bytes (cur + 6) 2 ≡ cur + 8 = omega arith in
      let at5 : skip_bytes (cur + 8) 4 ≡ cur + 12 = omega arith in
      let at6 : skip_bytes (cur + 12) 4 ≡ cur + 16 = omega arith in
      let e1 =
        read_uint16_lem p laws m.mem buf (cur + 16) (length e.comment)
          (end_comment_length m.mem buf cur e h) fits (omega arith) in
      let at7 : cur + 16 + 2 ≡ cur + 18 = omega arith in
      rw (
        read_uint16-cursor p m.mem buf cur,
        at1,
        read_uint16-cursor p m.mem buf (cur + 2),
        at2,
        read_uint16-cursor p m.mem buf (cur + 4),
        at3,
        read_uint16-cursor p m.mem buf (cur + 6),
        at4,
        read_uint32-cursor p m.mem buf (cur + 8),
        at5,
        read_uint32-cursor p m.mem buf (cur + 12),
        at6,
        e1,
        at7,
      )

  pub read_end_lem :
      (cur : ℕ) (e : EndRecord) (m : Machine)
      → length e.comment < 2 ^ 16
      → At m.mem buf cur (end_body e)
      → cur + length (end_body e) < 2 ^ 64
      → buf + cur + length (end_body e) ≤ m.heap_current
      → 0 < m.heap_current
      → m.heap_current + length e.comment < m.heap_end
      → m.heap_end < 2 ^ 64
      → Returns
          (ReadTo (length e.comment + 0) (cur + length (end_body e)) m)
          (read_end_of_central_directory p buf cur m)
  unfolding read_end_of_central_directory
  read_end_lem cur e m fits h room apart pos space small =
      let comment : At m.mem buf (cur + 18) e.comment = end_comment m.mem buf cur e h in
      rw (end_header_lem cur e m fits h room) (
        discard_step p laws buf (length e.comment) (cur + 18) (length e.comment) 0 e.comment _
          (cur + length (end_body e)) m refl (omega arith) comment (omega arith) (omega arith) pos
          space small λ m1 took1. returns (ap (λ c. (true, c)) (omega arith), Took-refl m1))
