-- ===== src/Zip/Cursor.antt =====
-- src/kernel/format/zip.c: the cursor and the numbers behind it, and the stores of the reader.
use lappis.Base.{Bool, List, add64, bit_or, get_or, le_bytes, ℕ, ◌&&◌, ◌*◌, ◌+◌, ◌==◌, ◌^◌}
use lappis.Heap.{memcpy}
use lappis.Keyboard.Buffer.{contents}
use lappis.Machine.{Cmd, Mem, Platform, ok, pure, ◌>>◌}
use lappis.Machine.Memory.{store, store_list}

-- `(*cur) += n;`
abbrev pub skip_bytes : ℕ → ℕ → ℕ
skip_bytes cur n = add64 cur n

-- Two bytes, compared with two numbers.
abbrev pub is_pair : List ℕ → ℕ → ℕ → Bool
is_pair bytes a b = get_or bytes 0 0 == a && get_or bytes 1 0 == b

unfoldable pub is_local_file_header : List ℕ → Bool
is_local_file_header section_type = is_pair section_type 0x03 0x04

unfoldable pub is_central_directory : List ℕ → Bool
is_central_directory section_type = is_pair section_type 0x01 0x02

unfoldable pub is_end_of_central_directory : List ℕ → Bool
is_end_of_central_directory section_type = is_pair section_type 0x05 0x06

-- `file_t` and `zip_fs_t`: sizes, and the offsets of the fields.
abbrev pub sizeof_file : ℕ
sizeof_file = 24

abbrev pub sizeof_pointer : ℕ
sizeof_pointer = 8

-- `zip_fs_t`.
pub record ZipFs : Type 0 where
  pub files : ℕ
  pub num_files : ℕ

-- The cursor behind the fields from `version` to `crc32_uncompressed`.
abbrev pub skip_local_fixed : ℕ → ℕ
skip_local_fixed cur =
    skip_bytes (skip_bytes (skip_bytes (skip_bytes (skip_bytes (skip_bytes cur 2) 2) 2) 2) 2) 4

-- The cursor behind the fields from `version_made_by` to `crc32_uncompressed`.
abbrev pub skip_central_fixed : ℕ → ℕ
skip_central_fixed cur = skip_local_fixed (skip_bytes cur 2)

-- The three stores into `*file`.
abbrev pub store_file : ℕ → ℕ → ℕ → ℕ → Cmd (Unit {0})
store_file file name contents size m = ok tt (record m {
  mem =
      store_list
        (store_list (store_list m.mem file (le_bytes 8 name)) (file + 8) (le_bytes 8 contents))
        (file + 16) (le_bytes 4 size);
})

-- `dest[n] = 0;`
abbrev pub terminate : ℕ → Cmd (Unit {0})
terminate addr m = ok tt (record m { mem = store m.mem addr 0 })

-- `zipfs->files[num_files] = file;`
abbrev pub store_pointer : ℕ → ℕ → Cmd (Unit {0})
store_pointer addr value m =
    ok tt (record m { mem = store_list m.mem addr (le_bytes sizeof_pointer value) })

module _ (p : Platform) where
  -- `read` into memory.
  unfoldable pub read : ℕ → ℕ → ℕ → ℕ → Cmd ℕ
  read buf n cur dest = do memcpy p dest (buf + cur) n; pure (skip_bytes cur n)

  -- `read` into a local array.
  abbrev pub read_local : Mem → ℕ → ℕ → ℕ → List ℕ
  read_local m buf n cur = p.copied m (buf + cur) n

  unfoldable pub read_uint8 : Mem → ℕ → ℕ → ℕ × ℕ
  read_uint8 m buf cur = (get_or (read_local m buf 1 cur) 0 0, skip_bytes cur 1)

  unfoldable pub read_uint16 : Mem → ℕ → ℕ → ℕ × ℕ
  read_uint16 m buf cur =
      let raw = read_local m buf 2 cur in
      (bit_or (get_or raw 0 0) (get_or raw 1 0 * 2 ^ 8), skip_bytes cur 2)

  unfoldable pub read_uint32 : Mem → ℕ → ℕ → ℕ × ℕ
  read_uint32 m buf cur =
      let raw = read_local m buf 4 cur in
      (
        bit_or (bit_or (bit_or (get_or raw 0 0) (get_or raw 1 0 * 2 ^ 8)) (get_or raw 2 0 * 2 ^ 16))
            (get_or raw 3 0 * 2 ^ 24),
        skip_bytes cur 4,
      )
