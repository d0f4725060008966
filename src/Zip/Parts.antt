-- ===== src/Zip/Parts.antt =====
-- Where the parts of a section stand, from the cursor behind its four tag bytes.
use lappis.Base.{List, arith, le_bytes, length, length-append, refl, ℕ, ◌++◌, ◌+◌, ◌≡◌}
use lappis.Machine.{Mem}
use lappis.Zip.Archive.{
  CentralEntry, CentralFits, EndRecord, LocalFile, LocalFits, central_attributes, central_body,
  central_lengths, central_names, end_body, end_numbers, local_body, local_lengths, local_names,
  local_sizes,
}
use lappis.Zip.Bytes.{At, At-append}

-- The bytes behind the first `n`.
pub At-skip :
    (m : Mem) (buf cur c n : ℕ) (xs ys : List ℕ)
    → length xs ≡ n
    → c ≡ cur + n
    → At m buf cur (xs ++ ys)
    → At m buf c ys
At-skip m buf cur c n xs ys len e h =
    let at : c ≡ cur + length xs = omega arith in rw at (At-append m buf cur xs ys h).1

At-here : (m : Mem) (buf cur : ℕ) (xs ys : List ℕ) → At m buf cur (xs ++ ys) → At m buf cur xs
At-here m buf cur xs ys h = (At-append m buf cur xs ys h).0

pub record LocalParts (m : Mem) (buf cur : ℕ) (e : LocalFile) : Type 0 where
  pub size : At m buf (cur + 18) (le_bytes 4 (length e.contents))
  pub csize : At m buf (cur + 14) (le_bytes 4 e.compressed_size)
  pub name_length : At m buf (cur + 22) (le_bytes 2 (length e.name))
  pub extra_length : At m buf (cur + 24) (le_bytes 2 (length e.extra))
  pub name : At m buf (cur + 26) e.name
  pub extra : At m buf (cur + 26 + length e.name) e.extra
  pub contents : At m buf (cur + 26 + length e.name + length e.extra) e.contents

pub local_parts :
    (m : Mem) (buf cur : ℕ) (e : LocalFile)
    → LocalFits e
    → At m buf cur (local_body e)
    → LocalParts m buf cur e
local_parts m buf cur e fits h =
    let sizes : At m buf (cur + 14) (local_sizes e) =
      At-skip m buf cur (cur + 14) 14 e.fixed (local_sizes e) fits.fixed refl h in
    let usize : At m buf (cur + 18) (le_bytes 4 (length e.contents) ++ local_lengths e) =
      At-skip m buf (cur + 14) (cur + 18) 4 (le_bytes 4 e.compressed_size)
        (le_bytes 4 (length e.contents) ++ local_lengths e) refl (omega arith) sizes in
    let lengths : At m buf (cur + 22) (local_lengths e) =
      At-skip m buf (cur + 18) (cur + 22) 4 (le_bytes 4 (length e.contents)) (local_lengths e) refl
        (omega arith) usize in
    let xlength : At m buf (cur + 24) (le_bytes 2 (length e.extra) ++ local_names e) =
      At-skip m buf (cur + 22) (cur + 24) 2 (le_bytes 2 (length e.name))
        (le_bytes 2 (length e.extra) ++ local_names e) refl (omega arith) lengths in
    let names : At m buf (cur + 26) (local_names e) =
      At-skip m buf (cur + 24) (cur + 26) 2 (le_bytes 2 (length e.extra)) (local_names e) refl
        (omega arith) xlength in
    let (name, rest) = At-append m buf (cur + 26) e.name (e.extra ++ e.contents) names in
    let (extra, contents) = At-append m buf (cur + 26 + length e.name) e.extra e.contents rest in
    record {
      csize =
          At-here m buf (cur + 14) (le_bytes 4 e.compressed_size)
            (le_bytes 4 (length e.contents) ++ local_lengths e) sizes;
      size = At-here m buf (cur + 18) (le_bytes 4 (length e.contents)) (local_lengths e) usize;
      name_length =
          At-here m buf (cur + 22) (le_bytes 2 (length e.name))
            (le_bytes 2 (length e.extra) ++ local_names e) lengths;
      extra_length = At-here m buf (cur + 24) (le_bytes 2 (length e.extra)) (local_names e) xlength;
      name = name;
      extra = extra;
      contents = contents;
    }

pub length-local_body :
    (e : LocalFile)
    → LocalFits e
    → length (local_body e) ≡ 26 + length e.name + length e.extra + length e.contents
length-local_body e fits = omega (
  arith,
  length-append e.fixed (local_sizes e),
  length-append e.name (e.extra ++ e.contents),
  length-append e.extra e.contents,
)

pub record CentralParts (m : Mem) (buf cur : ℕ) (e : CentralEntry) : Type 0 where
  pub name_length : At m buf (cur + 24) (le_bytes 2 (length e.name))
  pub extra_length : At m buf (cur + 26) (le_bytes 2 (length e.extra))
  pub comment_length : At m buf (cur + 28) (le_bytes 2 (length e.comment))
  pub name : At m buf (cur + 42) e.name
  pub extra : At m buf (cur + 42 + length e.name) e.extra
  pub comment : At m buf (cur + 42 + length e.name + length e.extra) e.comment

pub central_parts :
    (m : Mem) (buf cur : ℕ) (e : CentralEntry)
    → CentralFits e
    → At m buf cur (central_body e)
    → CentralParts m buf cur e
central_parts m buf cur e fits h =
    let after_comment = central_attributes e ++ central_names e in
    let sizes : At m buf (cur + 16)
        (le_bytes 4 e.compressed_size ++ (le_bytes 4 e.uncompressed_size ++ central_lengths e)) =
      At-skip m buf cur (cur + 16) 16 e.fixed _ fits.fixed refl h in
    let lengths : At m buf (cur + 24) (central_lengths e) =
      At-skip m buf (cur + 16) (cur + 24) 8
        (le_bytes 4 e.compressed_size ++ le_bytes 4 e.uncompressed_size) (central_lengths e) refl
        (omega arith) sizes in
    let xlength : At m buf (cur + 26)
        (le_bytes 2 (length e.extra) ++ (le_bytes 2 (length e.comment) ++ after_comment)) =
      At-skip m buf (cur + 24) (cur + 26) 2 (le_bytes 2 (length e.name))
        (le_bytes 2 (length e.extra) ++ (le_bytes 2 (length e.comment) ++ after_comment)) refl
        (omega arith) lengths in
    let clength : At m buf (cur + 28) (le_bytes 2 (length e.comment) ++ after_comment) =
      At-skip m buf (cur + 26) (cur + 28) 2 (le_bytes 2 (length e.extra))
        (le_bytes 2 (length e.comment) ++ after_comment) refl (omega arith) xlength in
    let attributes : At m buf (cur + 30) after_comment =
      At-skip m buf (cur + 28) (cur + 30) 2 (le_bytes 2 (length e.comment)) after_comment refl
        (omega arith) clength in
    let names : At m buf (cur + 42) (central_names e) =
      At-skip m buf (cur + 30) (cur + 42) 12 (central_attributes e) (central_names e) refl
        (omega arith) attributes in
    let (name, rest) = At-append m buf (cur + 42) e.name (e.extra ++ e.comment) names in
    let (extra, comment) = At-append m buf (cur + 42 + length e.name) e.extra e.comment rest in
    record {
      name_length =
          At-here m buf (cur + 24) (le_bytes 2 (length e.name))
            (le_bytes 2 (length e.extra) ++ (le_bytes 2 (length e.comment) ++ after_comment))
            lengths;
      extra_length =
          At-here m buf (cur + 26) (le_bytes 2 (length e.extra))
            (le_bytes 2 (length e.comment) ++ after_comment) xlength;
      comment_length =
          At-here m buf (cur + 28) (le_bytes 2 (length e.comment)) after_comment clength;
      name = name;
      extra = extra;
      comment = comment;
    }

pub length-central_body :
    (e : CentralEntry)
    → CentralFits e
    → length (central_body e) ≡ 42 + length e.name + length e.extra + length e.comment
length-central_body e fits = omega (
  arith,
  length-append e.fixed
      (le_bytes 4 e.compressed_size ++ (le_bytes 4 e.uncompressed_size ++ central_lengths e)),
  length-append e.name (e.extra ++ e.comment),
  length-append e.extra e.comment,
)

pub end_comment_length :
    (m : Mem) (buf cur : ℕ) (e : EndRecord)
    → At m buf cur (end_body e)
    → At m buf (cur + 16) (le_bytes 2 (length e.comment))
end_comment_length m buf cur e h =
    At-here m buf (cur + 16) (le_bytes 2 (length e.comment)) e.comment (
      At-skip m buf cur (cur + 16) 16 (end_numbers e) (le_bytes 2 (length e.comment) ++ e.comment)
        refl refl h)

pub end_comment :
    (m : Mem) (buf cur : ℕ) (e : EndRecord)
    → At m buf cur (end_body e)
    → At m buf (cur + 18) e.comment
end_comment m buf cur e h =
    At-skip m buf (cur + 16) (cur + 18) 2 (le_bytes 2 (length e.comment)) e.comment refl
      (omega arith)
      (At-skip m buf cur (cur + 16) 16 (end_numbers e) (le_bytes 2 (length e.comment) ++ e.comment)
        refl refl h)
