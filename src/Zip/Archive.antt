-- ===== src/Zip/Archive.antt =====
-- The format that zip.c reads, independent of the reader: the sections of an archive of stored
-- files, and the bytes that they are written as.
use lappis.Base.{All, List, [], le_bytes, length, ℕ, ◌++◌, ◌<◌, ◌^◌, ◌∷◌, ◌≡◌}

-- A file: a local header's fields that the reader ignores (`fixed`, the 14 bytes from the version
-- to the checksum, and the compressed size), and the parts that it keeps or skips.
pub record LocalFile : Type 0 where
  pub fixed : List ℕ
  pub compressed_size : ℕ
  pub name : List ℕ
  pub extra : List ℕ
  pub contents : List ℕ

-- A directory entry: 16 bytes before the sizes, two sizes, and 12 bytes behind the lengths.
pub record CentralEntry : Type 0 where
  pub fixed : List ℕ
  pub compressed_size : ℕ
  pub uncompressed_size : ℕ
  pub disk_number_start : ℕ
  pub internal_attributes : ℕ
  pub external_attributes : ℕ
  pub header_offset : ℕ
  pub name : List ℕ
  pub extra : List ℕ
  pub comment : List ℕ

-- The end record: its numbers, and the archive's comment.
pub record EndRecord : Type 0 where
  pub disk_number : ℕ
  pub start_disk : ℕ
  pub entries_on_this_disk : ℕ
  pub entries : ℕ
  pub directory_size : ℕ
  pub directory_offset : ℕ
  pub comment : List ℕ

pub data Section : Type 0 where
  local_file : LocalFile → Section
  central : CentralEntry → Section

pub record Archive : Type 0 where
  pub sections : List Section
  pub end_record : EndRecord

-- The bytes of each part, with names for what stands behind the fixed fields.
abbrev pub local_names : LocalFile → List ℕ
local_names e = e.name ++ (e.extra ++ e.contents)

abbrev pub local_lengths : LocalFile → List ℕ
local_lengths e = le_bytes 2 (length e.name) ++ (le_bytes 2 (length e.extra) ++ local_names e)

abbrev pub local_sizes : LocalFile → List ℕ
local_sizes e = le_bytes 4 e.compressed_size ++ (le_bytes 4 (length e.contents) ++ local_lengths e)

abbrev pub local_body : LocalFile → List ℕ
local_body e = e.fixed ++ local_sizes e

abbrev pub central_names : CentralEntry → List ℕ
central_names e = e.name ++ (e.extra ++ e.comment)

abbrev pub central_attributes : CentralEntry → List ℕ
central_attributes e =
    le_bytes 2 e.disk_number_start
    ++ (le_bytes 2 e.internal_attributes
        ++ (le_bytes 4 e.external_attributes ++ le_bytes 4 e.header_offset))

abbrev pub central_lengths : CentralEntry → List ℕ
central_lengths e =
    le_bytes 2 (length e.name)
    ++ (le_bytes 2 (length e.extra)
        ++ (le_bytes 2 (length e.comment) ++ (central_attributes e ++ central_names e)))

abbrev pub central_body : CentralEntry → List ℕ
central_body e =
    e.fixed
    ++ (le_bytes 4 e.compressed_size ++ (le_bytes 4 e.uncompressed_size ++ central_lengths e))

abbrev pub end_numbers : EndRecord → List ℕ
end_numbers e =
    le_bytes 2 e.disk_number
    ++ (le_bytes 2 e.start_disk
        ++ (le_bytes 2 e.entries_on_this_disk
            ++ (le_bytes 2 e.entries
                ++ (le_bytes 4 e.directory_size ++ le_bytes 4 e.directory_offset))))

abbrev pub end_body : EndRecord → List ℕ
end_body e = end_numbers e ++ (le_bytes 2 (length e.comment) ++ e.comment)

abbrev pub magic_bytes : List ℕ
magic_bytes = 0x50 ∷ 0x4b ∷ []

abbrev pub local_tag : List ℕ
local_tag = 0x03 ∷ 0x04 ∷ []

abbrev pub central_tag : List ℕ
central_tag = 0x01 ∷ 0x02 ∷ []

abbrev pub end_tag : List ℕ
end_tag = 0x05 ∷ 0x06 ∷ []

abbrev pub encode_section : Section → List ℕ
encode_section (local_file e) = magic_bytes ++ (local_tag ++ local_body e)
encode_section (central e) = magic_bytes ++ (central_tag ++ central_body e)

abbrev pub encode_sections : List Section → List ℕ → List ℕ
encode_sections [] tail = tail
encode_sections (s ∷ ss) tail = encode_section s ++ encode_sections ss tail

abbrev pub encode_end : EndRecord → List ℕ
encode_end e = magic_bytes ++ (end_tag ++ end_body e)

abbrev pub encode : Archive → List ℕ
encode a = encode_sections a.sections (encode_end a.end_record)

-- Every number fits its field.
pub record LocalFits (e : LocalFile) : Type 0 where
  pub fixed : length e.fixed ≡ 14
  pub name : length e.name < 2 ^ 16
  pub extra : length e.extra < 2 ^ 16
  pub contents : length e.contents < 2 ^ 32

pub record CentralFits (e : CentralEntry) : Type 0 where
  pub fixed : length e.fixed ≡ 16
  pub name : length e.name < 2 ^ 16
  pub extra : length e.extra < 2 ^ 16
  pub comment : length e.comment < 2 ^ 16

abbrev pub SectionFits : Section → Type 0
SectionFits (local_file e) = LocalFits e
SectionFits (central e) = CentralFits e

pub record Fits (a : Archive) : Type 0 where
  pub sections : All SectionFits a.sections
  pub comment : length a.end_record.comment < 2 ^ 16
