-- ===== src/Zip/Peek.antt =====
-- `peek_zip` finds the end of every well-formed archive.
use lappis.Base.{
  All, List, [], ap, arith, le_bytes, length, length-append, suc, zero, ℕ, ◌++◌, ◌+◌, ◌<◌, ◌^◌, ◌∙◌,
  ◌∷◌, ◌≡◌,
}
use lappis.Heap.Userland.{MemcpyCopies}
use lappis.Machine.{Machine, Mem, Platform, ok}
use lappis.Machine.Memory.{Holds}
use lappis.Zip.{
  peek_central_directory, peek_end_of_central_directory, peek_local_file, peek_sections, peek_zip,
}
use lappis.Zip.Archive.{
  Archive, CentralEntry, CentralFits, EndRecord, Fits, LocalFile, LocalFits, Section, SectionFits,
  central, central_body, encode, encode_end, encode_sections, end_body, local_body, local_file,
}
use lappis.Zip.Bytes.{At, At-append, read_tag, read_uint16_lem, read_uint32_lem}
use lappis.Zip.Cursor.{
  is_central_directory, is_end_of_central_directory, is_local_file_header, skip_bytes,
  skip_central_fixed, skip_local_fixed,
}
use lappis.Zip.Parts.{
  central_parts, end_comment_length, length-central_body, length-local_body, local_parts,
}

module _ (p : Platform) (laws : MemcpyCopies p) (m : Mem) (buf : ℕ) where
  peek_local_file_lem :
      (cur : ℕ) (e : LocalFile)
      → LocalFits e
      → At m buf cur (local_body e)
      → cur + length (local_body e) < 2 ^ 64
      → peek_local_file p m buf cur ≡ cur + length (local_body e)
  unfolding peek_local_file
  peek_local_file_lem cur e fits h room =
      let size = length-local_body e fits in
      let parts = local_parts m buf cur e fits h in
      let start : skip_bytes (skip_local_fixed cur) 4 ≡ cur + 18 = omega arith in
      let e1 =
        read_uint32_lem p laws m buf (cur + 18) (length e.contents) parts.size fits.contents
          (omega arith) in
      let at1 : cur + 18 + 4 ≡ cur + 22 = omega arith in
      let e2 =
        read_uint16_lem p laws m buf (cur + 22) (length e.name) parts.name_length fits.name
          (omega arith) in
      let at2 : cur + 22 + 2 ≡ cur + 24 = omega arith in
      let e3 =
        read_uint16_lem p laws m buf (cur + 24) (length e.extra) parts.extra_length fits.extra
          (omega arith) in
      rw (start, e1, at1, e2, at2, e3) (omega arith)

  peek_central_directory_lem :
      (cur : ℕ) (e : CentralEntry)
      → CentralFits e
      → At m buf cur (central_body e)
      → cur + length (central_body e) < 2 ^ 64
      → peek_central_directory p m buf cur ≡ cur + length (central_body e)
  unfolding peek_central_directory
  peek_central_directory_lem cur e fits h room =
      let size = length-central_body e fits in
      let parts = central_parts m buf cur e fits h in
      let start : skip_bytes (skip_bytes (skip_central_fixed cur) 4) 4 ≡ cur + 24 = omega arith in
      let e1 =
        read_uint16_lem p laws m buf (cur + 24) (length e.name) parts.name_length fits.name
          (omega arith) in
      let at1 : cur + 24 + 2 ≡ cur + 26 = omega arith in
      let e2 =
        read_uint16_lem p laws m buf (cur + 26) (length e.extra) parts.extra_length fits.extra
          (omega arith) in
      let at2 : cur + 26 + 2 ≡ cur + 28 = omega arith in
      let e3 =
        read_uint16_lem p laws m buf (cur + 28) (length e.comment) parts.comment_length fits.comment
          (omega arith) in
      rw (start, e1, at1, e2, at2, e3) (omega arith)

  peek_end_lem :
      (cur : ℕ) (e : EndRecord)
      → length e.comment < 2 ^ 16
      → At m buf cur (end_body e)
      → cur + length (end_body e) < 2 ^ 64
      → peek_end_of_central_directory p m buf cur ≡ cur + length (end_body e)
  unfolding peek_end_of_central_directory
  peek_end_lem cur e fits h room =
      let start : skip_bytes
            (skip_bytes (skip_bytes (skip_bytes (skip_bytes (skip_bytes cur 2) 2) 2) 2) 4) 4
          ≡ cur + 16 =
        omega arith in
      let clength : At m buf (cur + 16) (le_bytes 2 (length e.comment)) =
        end_comment_length m buf cur e h in
      let e1 =
        read_uint16_lem p laws m buf (cur + 16) (length e.comment) clength fits (omega arith) in
      rw (start, e1) (omega arith)

-- On a machine whose memory holds the rest of an archive at the cursor, the loop ends where the
-- archive ends, and changes nothing.
module _ (p : Platform) (laws : MemcpyCopies p) (buf : ℕ) (e : EndRecord)
    (fits : length e.comment < 2 ^ 16) where
  peek_sections_lem :
      (rounds : ℕ) (ss : List Section) (cur : ℕ) (m : Machine)
      → All SectionFits ss
      → At m.mem buf cur (encode_sections ss (encode_end e))
      → cur + length (encode_sections ss (encode_end e)) < 2 ^ 64
      → length ss < rounds
      → peek_sections p rounds buf cur m ≡ ok (cur + length (encode_sections ss (encode_end e))) m
  unfolding peek_sections is_local_file_header is_central_directory is_end_of_central_directory
  peek_sections_lem zero ss cur m all h room fuel = absurd (omega arith)
  peek_sections_lem (suc f) [] cur m all h room fuel =
      let (tag, kind, at, body) =
        read_tag p laws m.mem buf cur 0x50 0x4b 0x05 0x06 (end_body e) h (omega arith) in
      rw (tag, kind, at, peek_end_lem p laws m.mem buf (cur + 4) e fits body (omega arith))
        (ap (λ n. ok n m) (omega arith))
  peek_sections_lem (suc f) (local_file x ∷ ss) cur m all h room fuel =
      let rest = encode_sections ss (encode_end e) in
      let size = length-append (local_body x) rest in
      let (tag, kind, at, body) =
        read_tag p laws m.mem buf cur 0x50 0x4b 0x03 0x04 (local_body x ++ rest) h (omega arith) in
      let (here, behind) = At-append m.mem buf (cur + 4) (local_body x) rest body in
      rw (tag, kind, at, peek_local_file_lem p laws m.mem buf (cur + 4) x all.0 here (omega arith))
        (peek_sections_lem f ss (cur + 4 + length (local_body x)) m all.1 behind (omega arith)
            (omega arith)
          ∙ ap (λ n. ok n m) (omega arith))
  peek_sections_lem (suc f) (central x ∷ ss) cur m all h room fuel =
      let rest = encode_sections ss (encode_end e) in
      let size = length-append (central_body x) rest in
      let (tag, kind, at, body) =
        read_tag p laws m.mem buf cur 0x50 0x4b 0x01 0x02 (central_body x ++ rest) h
          (omega arith) in
      let (here, behind) = At-append m.mem buf (cur + 4) (central_body x) rest body in
      rw
        (
          tag,
          kind,
          at,
          peek_central_directory_lem p laws m.mem buf (cur + 4) x all.0 here (omega arith),
        )
        (peek_sections_lem f ss (cur + 4 + length (central_body x)) m all.1 behind (omega arith)
            (omega arith)
          ∙ ap (λ n. ok n m) (omega arith))

-- On a machine whose memory holds a well-formed archive of stored files at `buf`, `peek_zip`
-- returns the archive's length, and changes and sends nothing. memcpy copies,
-- the archive is shorter than 2 ^ 64 bytes, and the loop is followed for at least as many rounds as
-- there are sections and the end record.
pub peek_zip_lem :
    (p : Platform) (a : Archive) (buf : ℕ) (m : Machine)
    → MemcpyCopies p
    → Fits a
    → Holds m.mem buf (encode a)
    → length (encode a) < 2 ^ 64
    → length a.sections < p.rounds
    → peek_zip p buf m ≡ ok (length (encode a)) m
unfolding peek_zip
peek_zip_lem p a buf m laws fits h small fuel =
    let start : buf + 0 ≡ buf = omega arith in
    peek_sections_lem p laws buf a.end_record fits.comment p.rounds a.sections 0 m fits.sections
      (rw start h) (omega arith) fuel
    ∙ ap (λ n. ok n m) (omega arith)
