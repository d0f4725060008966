-- ===== src/Zip.antt =====
-- src/kernel/format/zip.c: the reader of the zip archive that is the kernel's file system. A
-- cursor that the C code passes by pointer is taken and returned. Bytes that are read into a
-- local array and not used again only move the cursor.
pub mod Cursor
pub mod Bytes
pub mod Archive
pub mod Parts
pub mod Peek
pub mod Blocks
pub mod LocalFile
pub mod Discard
pub mod Directory
pub mod Read
use lappis.Zip.Cursor.{
  ZipFs, is_central_directory, is_end_of_central_directory, is_local_file_header, is_pair, read,
  read_local, read_uint16, read_uint32, sizeof_file, sizeof_pointer, skip_bytes, skip_central_fixed,
  skip_local_fixed, store_file, store_pointer, terminate,
}
use lappis.Base.{
  Bool, List, Option, String, [], add32, false, get_or, if◌then◌else◌, ltb, none, not, some, suc,
  true, zero, ℕ, ◌*◌, ◌+◌, ◌==◌, ◌∷◌,
}
use lappis.Heap.{malloc, null}
use lappis.Machine.{Cmd, Mem, Platform, and_then, error, get_mem, pure, skip, stuck, ◌>>=◌, ◌>>◌}
use lappis.Serial.{debug_buffer}

module _ (p : Platform) where
  -- The header's part of `read_local_file`: the sizes of the contents, the name and the extra
  -- fields, and the cursor behind them. The compressed size is read and not used.
  pub local_header : Mem → ℕ → ℕ → ℕ × ℕ × ℕ × ℕ
  local_header m buf cur0 =
      let cur1 = skip_local_fixed cur0 in
      let cur2 = (read_uint32 p m buf cur1).1 in
      let (uncompressed_size, cur3) = read_uint32 p m buf cur2 in
      let (file_name_length, cur4) = read_uint16 p m buf cur3 in
      let (extra_field_length, cur5) = read_uint16 p m buf cur4 in
      (uncompressed_size, file_name_length, extra_field_length, cur5)

  -- The part of `read_local_file` behind the header: three blocks, and `*file`.
  pub local_blocks : ℕ → ℕ → ℕ × ℕ × ℕ × ℕ → Cmd (Bool × ℕ)
  local_blocks buf file (uncompressed_size, file_name_length, extra_field_length, cur5) = do
    file_name ← malloc (file_name_length + 1)
    if file_name == null then error "malloc failed" [] >> pure (false, cur5) else do
      cur6 ← read p buf file_name_length cur5 file_name
      terminate (file_name + file_name_length)
      extra_fields ← malloc extra_field_length
      if extra_fields == null then error "malloc failed" [] >> pure (false, cur6) else do
        cur7 ← read p buf extra_field_length cur6 extra_fields
        uncompressed ← malloc uncompressed_size
        if uncompressed == null then error "malloc failed" [] >> pure (false, cur7) else do
          cur8 ← read p buf uncompressed_size cur7 uncompressed
          store_file file file_name uncompressed uncompressed_size
          pure (true, cur8)

  pub read_local_file : ℕ → ℕ → ℕ → Cmd (Bool × ℕ)
  read_local_file buf cur file m = local_blocks buf file (local_header m.mem buf cur) m

  -- Reads `n` bytes into a fresh block that nothing keeps.
  abbrev pub read_discarded : ℕ → ℕ → ℕ → ℕ → (ℕ → Cmd (Bool × ℕ)) → Cmd (Bool × ℕ)
  read_discarded buf size n cur next = do
    block ← malloc size
    if block == null then error "malloc failed" [] >> pure (false, cur) else do
      cur' ← read p buf n cur block
      (if ltb n size then terminate (block + n) else skip)
      next cur'

  -- The header's part of `read_central_directory`: the lengths of the name, the extra fields and
  -- the comment, and the cursor behind the fields that are read and not used.
  central_header : Mem → ℕ → ℕ → ℕ × ℕ × ℕ × ℕ
  central_header m buf cur0 =
      let cur1 = skip_central_fixed cur0 in
      let cur2 = (read_uint32 p m buf cur1).1 in
      let cur3 = (read_uint32 p m buf cur2).1 in
      let (file_name_length, cur4) = read_uint16 p m buf cur3 in
      let (extra_field_length, cur5) = read_uint16 p m buf cur4 in
      let (file_comment_length, cur6) = read_uint16 p m buf cur5 in
      let cur7 = (read_uint16 p m buf cur6).1 in
      let cur8 = (read_uint16 p m buf cur7).1 in
      let cur9 = (read_uint32 p m buf cur8).1 in
      let cur10 = (read_uint32 p m buf cur9).1 in
      (file_name_length, extra_field_length, file_comment_length, cur10)

  -- The part of `read_central_directory` behind the header: three blocks that nothing keeps.
  central_blocks : ℕ → ℕ × ℕ × ℕ × ℕ → Cmd (Bool × ℕ)
  central_blocks buf (file_name_length, extra_field_length, file_comment_length, cur10) =
      read_discarded buf (file_name_length + 1) file_name_length cur10 λ cur11.
        read_discarded buf extra_field_length extra_field_length cur11 λ cur12.
          read_discarded buf file_comment_length file_comment_length cur12
            λ cur13. pure (true, cur13)

  pub read_central_directory : ℕ → ℕ → Cmd (Bool × ℕ)
  read_central_directory buf cur m = central_blocks buf (central_header m.mem buf cur) m

  end_header : Mem → ℕ → ℕ → ℕ × ℕ
  end_header m buf cur0 =
      let cur1 = (read_uint16 p m buf cur0).1 in
      let cur2 = (read_uint16 p m buf cur1).1 in
      let cur3 = (read_uint16 p m buf cur2).1 in
      let cur4 = (read_uint16 p m buf cur3).1 in
      let cur5 = (read_uint32 p m buf cur4).1 in
      let cur6 = (read_uint32 p m buf cur5).1 in read_uint16 p m buf cur6

  pub read_end_of_central_directory : ℕ → ℕ → Cmd (Bool × ℕ)
  read_end_of_central_directory buf cur m =
      let (zip_file_comment_length, cur7) = end_header m.mem buf cur in
      read_discarded buf zip_file_comment_length zip_file_comment_length cur7
        (λ cur8. pure (true, cur8)) m

  pub peek_local_file : Mem → ℕ → ℕ → ℕ
  peek_local_file m buf cur0 =
      let cur1 = skip_bytes (skip_local_fixed cur0) 4 in
      let (uncompressed_size, cur2) = read_uint32 p m buf cur1 in
      let (file_name_length, cur3) = read_uint16 p m buf cur2 in
      let (extra_field_length, cur4) = read_uint16 p m buf cur3 in
      skip_bytes (skip_bytes (skip_bytes cur4 file_name_length) extra_field_length)
        uncompressed_size

  pub peek_central_directory : Mem → ℕ → ℕ → ℕ
  peek_central_directory m buf cur0 =
      let cur1 = skip_bytes (skip_bytes (skip_central_fixed cur0) 4) 4 in
      let (file_name_length, cur2) = read_uint16 p m buf cur1 in
      let (extra_field_length, cur3) = read_uint16 p m buf cur2 in
      let (file_comment_length, cur4) = read_uint16 p m buf cur3 in
      let cur5 = skip_bytes (skip_bytes (skip_bytes (skip_bytes cur4 2) 2) 4) 4 in
      skip_bytes (skip_bytes (skip_bytes cur5 file_name_length) extra_field_length)
        file_comment_length

  pub peek_end_of_central_directory : Mem → ℕ → ℕ → ℕ
  peek_end_of_central_directory m buf cur0 =
      let cur1 =
        skip_bytes (skip_bytes (skip_bytes (skip_bytes (skip_bytes (skip_bytes cur0 2) 2) 2) 2) 4)
          4 in
      let (zip_file_comment_length, cur2) = read_uint16 p m buf cur1 in
      skip_bytes cur2 zip_file_comment_length

  -- `error(...)` with two bytes, and `debug_buffer`, which sends them to COM2.
  abbrev pub reject : String → List ℕ → Cmd ℕ
  reject text bytes = do
    error text (get_or bytes 0 0 ∷ get_or bytes 1 0 ∷ [])
    debug_buffer p bytes
    pure 0

  -- The loop of `peek_zip`.
  peek_sections : ℕ → ℕ → ℕ → Cmd ℕ
  peek_sections zero buf cur = λ m. stuck
  peek_sections (suc f) buf cur = do
    mem ← get_mem
    let magic = read_local p mem buf 2 cur
    let section_type = read_local p mem buf 2 (skip_bytes cur 2)
    let body = skip_bytes (skip_bytes cur 2) 2
    if not (is_pair magic 0x50 0x4b)
        then reject "Invalid zip file. Unknown magic: %x%x" magic
        else if is_local_file_header section_type
        then peek_sections f buf (peek_local_file mem buf body)
        else if is_central_directory section_type
        then peek_sections f buf (peek_central_directory mem buf body)
        else if is_end_of_central_directory section_type
        then pure (peek_end_of_central_directory mem buf body)
        else reject "Invalid zip file. Unknown section type: %x%x" section_type

  pub peek_zip : ℕ → Cmd ℕ
  peek_zip buf = peek_sections p.rounds buf 0

  -- The loop of `read_zip`, with the number of files so far. It gives the number of files when the
  -- loop ends, or `none` where the source returns before it sets `num_files`.
  pub read_sections : ℕ → ℕ → ℕ → ℕ → ℕ → ℕ → Cmd (Option ℕ)
  read_sections zero buf len files num_files cur = λ m. stuck
  read_sections (suc f) buf len files num_files cur =
      if not (ltb cur len) then pure (some num_files) else do
        mem ← get_mem
        let magic = read_local p mem buf 2 cur
        let section_type = read_local p mem buf 2 (skip_bytes cur 2)
        let body = skip_bytes (skip_bytes cur 2) 2
        if not (is_pair magic 0x50 0x4b)
            then (do error "Invalid zip file!" []; debug_buffer p magic; pure none)
            else if is_local_file_header section_type
            then (do
              file ← malloc sizeof_file
              if file == null then error "malloc failed" [] >> pure none else do
                (done, cur') ← read_local_file buf body file
                if not done then error "Failed to read local file header" [] >> pure none else do
                  store_pointer (files + sizeof_pointer * num_files) file
                  read_sections f buf len files (add32 num_files 1) cur')
            else if is_central_directory section_type
            then (do
              (done, cur') ← read_central_directory buf body
              if not done
                  then error "Unable to read central directory" [] >> pure none
                  else read_sections f buf len files num_files cur')
            else if is_end_of_central_directory section_type
            then (do
              (done, cur') ← read_end_of_central_directory buf body
              if not done
                  then error "Unable to read end of central directory" [] >> pure none
                  else pure (some num_files))
            else (do error "Invalid zip file!" []; debug_buffer p section_type; pure none)

  -- `zipfs` is a local of the caller, whose fields hold `zipfs0` before the call.
  pub read_zip : ℕ → ℕ → ZipFs → Cmd ZipFs
  read_zip buf len zipfs0 = do
    files ← malloc (16 * sizeof_pointer)
    if files == null then error "malloc failed" [] >> pure zipfs0 else do
      outcome ← read_sections p.rounds buf len files 0 0
      elim outcome [
        | none ↦ pure (record zipfs0 { files = files })
        | some num_files ↦ pure (record { files = files; num_files = num_files })
      ]
