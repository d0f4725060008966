-- ===== src/Zip/Read/Loop.antt =====
-- The loop of `read_zip` over all sections.
use lappis.Base.{
  All, List, [], ap, arith, inl, length, length-append, lt→ltb, refl, some, suc, zero, ℕ, ◌++◌, ◌+◌,
  ◌<◌, ◌^◌, ◌∷◌, ◌≡◌, ◌≤◌,
}
use lappis.Heap.Userland.{MemcpyCopies}
use lappis.Keyboard.Buffer.{contents}
use lappis.Machine.{Machine, Platform, Returns, Returns-bind, Returns-mono, returns}
use lappis.Machine.Memory.{All-left, All-right, Holds-same}
use lappis.Zip.{read_sections}
use lappis.Zip.Archive.{
  CentralEntry, EndRecord, LocalFile, Section, SectionFits, central, central_body, encode_end,
  encode_sections, end_body, local_body, local_file,
}
use lappis.Zip.Blocks.{At-SameBelow}
use lappis.Zip.Bytes.{At, At-append, read_tag}
use lappis.Zip.Cursor.{is_central_directory, is_end_of_central_directory, is_local_file_header}
use lappis.Zip.Directory.{read_central_lem, read_end_lem}
use lappis.Zip.Discard.{central_cost}
use lappis.Zip.LocalFile.Entry.{IsByte}
use lappis.Zip.Parts.{At-skip}
use lappis.Zip.Read.Loaded.{
  Loaded, Loaded-LoadedOne, Loaded-Took, archive_cost, local_bytes, local_files, sections_cost,
}
use lappis.Zip.Read.Step.{loaded, loaded-LoadedOne, local_step}

-- The machine has the rest of the archive at the cursor, and room for what it holds.
pub record Ready (buf len files lo : ℕ) (e : EndRecord) (ss : List Section) (k cur : ℕ)
    (m : Machine) : Type 0 where
  pub fits : All SectionFits ss
  pub bytes : All IsByte (encode_sections ss (encode_end e))
  pub stands : At m.mem buf cur (encode_sections ss (encode_end e))
  pub ends : cur + length (encode_sections ss (encode_end e)) ≤ len
  pub few : k + length (local_files ss) ≤ 16
  pub array : files + 128 ≡ lo
  pub above : lo ≤ m.heap_current
  pub space : m.heap_current + sections_cost ss + length e.comment < m.heap_end
  pub small : m.heap_end < 2 ^ 64

module _ (p : Platform) (laws : MemcpyCopies p) (buf len files lo : ℕ) (e : EndRecord)
    (fits_end : length e.comment < 2 ^ 16) (before : buf + len ≤ files) (some_files : 0 < files)
    (addressable : len < 2 ^ 64) where
  end_step :
      (f k cur : ℕ) (m : Machine)
      → Ready buf len files lo e [] k cur m
      → Returns
          (Loaded files k lo (length e.comment + 0) [] m)
          (read_sections p (suc f) buf len files k cur m)
  unfolding read_sections is_local_file_header is_central_directory is_end_of_central_directory
  end_step f k cur m r =
      let (tag, kind, at, body) =
        read_tag p laws m.mem buf cur 0x50 0x4b 0x05 0x06 (end_body e) r.stands
          (omega (arith, r.ends)) in
      let done =
        read_end_lem p laws buf (cur + 4) e m fits_end body (omega (arith, r.ends))
          (omega (arith, r.ends, r.array, r.above)) (omega (arith, r.array, r.above))
          (omega (arith, r.space)) r.small in
      rw (lt→ltb cur len (omega (arith, r.ends)), tag, kind, at)
        (Returns-bind done λ out m' (e', took). rw e' (
          returns (record {
            count = ap some (omega arith);
            entries = tt;
            grown = omega (arith, took.current);
            blocks = λ a ge lt. took.same a lt;
            slots = λ a ge lt. took.same a (omega (arith, r.few, r.array, r.above));
            under = λ a lt. took.same a (omega (arith, r.array, r.above));
            trace = took.trace;
            capped = omega (arith, took.current, r.space);
            same_end = took.same_end;
            spent = took.current;
            bounds = took.bounds;
          })))

  central_step :
      (f k cur : ℕ) (x : CentralEntry) (ss : List Section) (m : Machine)
      → Ready buf len files lo e (central x ∷ ss) k cur m
      → ((cur' : ℕ) (m1 : Machine)
          → Ready buf len files lo e ss k cur' m1
          → Returns
              (Loaded files k lo (archive_cost ss e) (local_files ss) m1)
              (read_sections p f buf len files k cur' m1))
      → Returns
          (Loaded files k lo (archive_cost (central x ∷ ss) e) (local_files ss) m)
          (read_sections p (suc f) buf len files k cur m)
  unfolding read_sections is_local_file_header is_central_directory
  central_step f k cur x ss m r next =
      let rest = encode_sections ss (encode_end e) in
      let size = length-append (central_body x) rest in
      let ends : cur + (4 + (length (central_body x) + length rest)) ≤ len =
        omega (arith, r.ends) in
      let (tag, kind, at, body) =
        read_tag p laws m.mem buf cur 0x50 0x4b 0x01 0x02 (central_body x ++ rest) r.stands
          (omega arith) in
      let (here, behind) = At-append m.mem buf (cur + 4) (central_body x) rest body in
      let cur1 = cur + 4 + length (central_body x) in
      let done =
        read_central_lem p laws buf (cur + 4) x m r.fits.0 here (omega arith)
          (omega (arith, r.array, r.above)) (omega (arith, r.array, r.above))
          (omega (arith, r.space)) r.small in
      rw (lt→ltb cur len (omega arith), tag, kind, at)
        (Returns-bind done λ out m1 (e', took). rw e' (
          Returns-mono
            (next cur1 m1 (record {
              fits = r.fits.1;
              bytes = All-right IsByte (central_body x) rest r.bytes.1.1.1.1;
              stands =
                  At-SameBelow m.mem m1.mem buf cur1 m.heap_current rest took.same
                    (omega (arith, r.array, r.above)) behind;
              ends = omega arith;
              few = r.few;
              array = r.array;
              above = omega (arith, took.current, r.above);
              space = omega (arith, took.current, took.same_end, r.space);
              small = omega (arith, took.same_end, r.small);
            }))
            (λ out' m'.
              Loaded-Took files k lo (central_cost x) (archive_cost ss e)
                (archive_cost (central x ∷ ss) e) (local_files ss) m m1 out' m'
                (omega (arith, r.few, r.array, r.above)) took refl)))

  file_step :
      (f k cur : ℕ) (x : LocalFile) (ss : List Section) (m : Machine)
      → Ready buf len files lo e (local_file x ∷ ss) k cur m
      → ((cur' : ℕ) (m1 : Machine)
          → Ready buf len files lo e ss (k + 1) cur' m1
          → Returns
              (Loaded files (k + 1) lo (archive_cost ss e) (local_files ss) m1)
              (read_sections p f buf len files (k + 1) cur' m1))
      → Returns
          (Loaded files k lo (archive_cost (local_file x ∷ ss) e) (x ∷ local_files ss) m)
          (read_sections p (suc f) buf len files k cur m)
  file_step f k cur x ss m r next =
      let rest = encode_sections ss (encode_end e) in
      let size = length-append (local_body x) rest in
      let ends : cur + (4 + (length (local_body x) + length rest)) ≤ len = omega (arith, r.ends) in
      let cur1 = cur + 4 + length (local_body x) in
      let body =
        At-skip m.mem buf cur (cur + 4) 4 (0x50 ∷ 0x4b ∷ 0x03 ∷ 0x04 ∷ []) (local_body x ++ rest)
          refl refl r.stands in
      let behind = (At-append m.mem buf (cur + 4) (local_body x) rest body).1 in
      let (names, contents) = local_bytes x (All-left IsByte (local_body x) rest r.bytes.1.1.1.1) in
      let m1 = loaded files k x m in
      let one =
        loaded-LoadedOne files k lo x m (omega (arith, r.few, r.array)) r.above names contents in
      rw
        (local_step p laws buf f len files k cur x rest m r.fits.0 r.stands (omega arith)
          (omega arith) (omega (arith, r.few)) (omega (arith, r.array, r.above))
          (omega (arith, r.array, r.above)) (omega (arith, r.space)) r.small)
        (Returns-mono
          (next cur1 m1 (record {
            fits = r.fits.1;
            bytes = All-right IsByte (local_body x) rest r.bytes.1.1.1.1;
            stands =
                Holds-same m.mem m1.mem (buf + cur1) rest
                  (λ a ge lt. one.same a (omega (arith, r.array, r.above)) (inl (omega arith)))
                  behind;
            ends = omega arith;
            few = omega (arith, r.few);
            array = r.array;
            above = omega (arith, one.current, r.above);
            space = omega (arith, one.current, one.same_end, r.space);
            small = omega (arith, one.same_end, r.small);
          }))
          (λ out' m'.
            Loaded-LoadedOne files k lo (archive_cost ss e) (archive_cost (local_file x ∷ ss) e) x
              (local_files ss) m m1 out' m' (omega (arith, r.few, r.array)) r.above one refl))

  pub read_sections_lem :
      (f : ℕ) (ss : List Section) (k cur : ℕ) (m : Machine)
      → Ready buf len files lo e ss k cur m
      → length ss < f
      → Returns
          (Loaded files k lo (archive_cost ss e) (local_files ss) m)
          (read_sections p f buf len files k cur m)
  read_sections_lem zero ss k cur m r fuel = absurd (omega arith)
  read_sections_lem (suc f) [] k cur m r fuel = end_step f k cur m r
  read_sections_lem (suc f) (central x ∷ ss) k cur m r fuel =
      central_step f k cur x ss m r
        (λ cur' m1 r1. read_sections_lem f ss k cur' m1 r1 (omega arith))
  read_sections_lem (suc f) (local_file x ∷ ss) k cur m r fuel =
      file_step f k cur x ss m r
        (λ cur' m1 r1. read_sections_lem f ss (k + 1) cur' m1 r1 (omega arith))
