-- ===== src/Elf/Segments/Program.antt =====
-- `run_userland` of a file with a segment to load.
use mathlib.Core.Path.{subst}
use lappis.Base.{
  All, List, [], ap, append_assoc, arith, false, length, length-append, ltb, suc, true, zero, ℕ,
  ◌!=◌, ◌*◌, ◌++◌, ◌+◌, ◌-◌, ◌<◌, ◌==◌, ◌^◌, ◌∙◌, ◌∷◌, ◌≡◌, ◌≢◌, ◌≤◌,
}
use lappis.Elf.{e_phnum_at}
use lappis.Elf.Ident.{HeaderParsed, encode_ehdr, parse_elf_header_lem}
use lappis.Elf.Segments.{enter_segment, run_userland, segment_loop}
use lappis.Elf.Segments.Enter.{EntersAt, enter_segment_lem}
use lappis.Elf.Segments.Phdr.{Phdr, PhdrFits, encode_phdr, parse_program_segment_header_lem}
use lappis.Elf.Segments.Ready.{
  File, FileFits, Ready, Ready-IsLoadable, Ready-Taken, Ready-next, encode_phdrs,
}
use lappis.Elf.Segments.Sections.{section_loop_lem}
use lappis.Heap.Alloc.{IsHeap}
use lappis.Heap.Userland.{IsUserlandHeap, MemcpyCopies}
use lappis.Machine.{Enters-behind, Machine, Platform}
use lappis.Machine.Memory.{Holds, load}
use lappis.Zip.Blocks.{At-SameBelow}
use lappis.Zip.Bytes.{At, At-append}

module _ (p : Platform) (laws : MemcpyCopies p) (x : File) (fits : FileFits x)
    (buf header user : ℕ) where
  -- The loop passes the headers of the others, and enters the segment.
  segment_loop_lem :
      (f cur i : ℕ) (hs : List Phdr) (m : Machine)
      → length hs < f
      → All PhdrFits hs
      → All (λ h. h.p_type ≢ 1) hs
      → buf + x.loaded.p_offset < 2 ^ 64
      → Ready x buf header user (64 * length hs + 64) cur i hs m
      → EntersAt user
          (user + (x.header.e_entry - x.loaded.p_paddr))
          x.bytes
          (segment_loop p f buf header i cur m)
  unfolding segment_loop
  segment_loop_lem zero cur i hs m enough _ _ _ r = absurd (omega (arith, enough))
  segment_loop_lem (suc f) cur i [] m enough _ _ small r =
      let more : ltb i (load m.mem (header + e_phnum_at) 2) ≡ true =
        ground (arith, r.fields.phnum, r.count) in
      rw more (
        Enters-behind
          (parse_program_segment_header_lem p laws buf cur x.loaded m fits.loaded_fits r.headers
            (omega (arith, r.headers_below))
            (omega (arith, r.headers_below, r.room, r.above, r.entry_small)) (omega (arith, r.room))
            (omega (arith, r.above, r.entry_small)))
          λ out m1 parsed.
            let one : load m1.mem m.heap_current 4 ≡ 1 = parsed.fields.type_at ∙ fits.loaded_type in
            let r1 = Ready-Taken x buf header user 64 0 cur i [] m m1 r parsed.taken in
            rw (parsed.result, one)
              (subst
                (λ u.
                  EntersAt u (u + (x.header.e_entry - x.loaded.p_paddr)) x.bytes
                    (enter_segment p buf header m.heap_current m1))
                r1.user_is
                (enter_segment_lem p laws buf header m.heap_current x.loaded.p_offset
                  x.loaded.p_paddr x.header.e_entry x.bytes m1
                  (Ready-IsLoadable x buf header user 0 cur i m.heap_current [] m1 fits r1
                    parsed.fields))))
  segment_loop_lem (suc f) cur i (h ∷ hs) m enough hs_fit others small r =
      let more : ltb i (load m.mem (header + e_phnum_at) 2) ≡ true =
        ground (arith, r.fields.phnum, r.count) in
      let front = encode_phdrs hs ++ encode_phdr x.loaded in
      let split = append_assoc (encode_phdr h) (encode_phdrs hs) (encode_phdr x.loaded) in
      let mine =
        (At-append m.mem buf cur (encode_phdr h) front
          (subst (At m.mem buf cur) split r.headers)).0 in
      let size = ap length split ∙ length-append (encode_phdr h) front in
      rw more (
        Enters-behind
          (parse_program_segment_header_lem p laws buf cur h m hs_fit.0 mine
            (omega (arith, r.headers_below, size))
            (omega (arith, r.headers_below, size, r.room, r.above, r.entry_small))
            (omega (arith, r.room)) (omega (arith, r.above, r.entry_small)))
          λ out m1 parsed.
            let other : (load m1.mem m.heap_current 4 != 1) ≡ true =
              ground (arith, parsed.fields.type_at, others.0) in
            let r0 : Ready x buf header user (64 + (64 * length hs + 64)) cur i (h ∷ hs) m =
              subst (λ n. Ready x buf header user n cur i (h ∷ hs) m) (omega arith) r in
            let r1 =
              Ready-Taken x buf header user 64 (64 * length hs + 64) cur i (h ∷ hs) m m1 r0
                parsed.taken in
            rw (parsed.result, other)
              (segment_loop_lem f (cur + 56) (i + 1) hs _ (omega (arith, enough)) hs_fit.1 others.1
                small (Ready-next x buf header user (64 * length hs + 64) cur i h hs m1 _ r1)))

-- The file stands below the heap, which has room for the headers and the segment; userland's heap is
-- above it and has room for the segment.
pub record IsLoaded (x : File) (buf : ℕ) (m : Machine) : Type 0 where
  pub ehdr : At m.mem buf 0 (encode_ehdr x.ident x.header)
  pub phdrs : At m.mem buf x.header.e_phoff (encode_phdrs x.others ++ encode_phdr x.loaded)
  pub segment : Holds m.mem (buf + x.loaded.p_offset) x.bytes
  pub ehdr_below : buf + 64 ≤ m.heap_current
  pub phdrs_below :
      buf + x.header.e_phoff + length (encode_phdrs x.others ++ encode_phdr x.loaded)
      ≤ m.heap_current
  pub segment_below : buf + x.loaded.p_offset + length x.bytes ≤ m.heap_current
  pub heap : IsHeap m
  pub userland : IsUserlandHeap m
  pub room :
      m.heap_current + 80 + 64 * x.header.e_shnum + 64 * length x.others + 64 + length x.bytes
      < m.heap_end
  pub userland_room : m.userland_heap_current + length x.bytes < m.userland_heap_end
  pub above : m.heap_end ≤ m.userland_heap_current
  pub entry_small : m.userland_heap_current + x.header.e_entry < 2 ^ 64

-- The state behind the file's header.
header_Ready :
    (x : File) (buf : ℕ) (m : Machine) {out : ℕ × ℕ} (m1 : Machine)
    → IsLoaded x buf m
    → FileFits x
    → HeaderParsed x.header m out m1
    → Ready x buf
        (m.heap_current + 16)
        m.userland_heap_current
        (64 * x.header.e_shnum + (64 * length x.others + 64))
        x.header.e_phoff
        0
        x.others
        m1
header_Ready x buf m m1 h fits parsed =
    let t = parsed.taken in
    let front = encode_phdrs x.others ++ encode_phdr x.loaded in
    record {
      fields = parsed.fields;
      headers =
          At-SameBelow m.mem m1.mem buf x.header.e_phoff m.heap_current front t.same h.phdrs_below
            h.phdrs;
      stands =
          At-SameBelow m.mem m1.mem buf x.loaded.p_offset m.heap_current x.bytes t.same
            h.segment_below h.segment;
      header_below = omega (arith, t.current);
      headers_below = omega (arith, h.phdrs_below, t.current);
      below = omega (arith, h.segment_below, t.current);
      count = omega (arith, fits.counted);
      room = omega (arith, h.room, t.current, t.same_end);
      not_null = omega (arith, h.heap.not_null, t.start);
      started = omega (arith, h.heap.started, t.start, t.current);
      user_is = t.user_current;
      user_not_null = omega (arith, h.userland.not_null, t.user_start);
      user_started = omega (arith, h.userland.started, t.user_start);
      user_room = omega (arith, h.userland_room, t.user_end);
      user_small = omega (arith, h.userland.addressable, t.user_end);
      above = omega (arith, h.above, t.same_end);
      entry_small = h.entry_small;
    }

-- `run_userland` of a well-formed file ends in the program and does not return: it passes over the
-- section headers, whatever they are, and over the headers of the segments that are not to be
-- loaded, copies the first one that is into a block of userland's heap, and enters it at the file's
-- entry point, moved from the segment's address to the block. The file stands below the heap, both heaps have room, the entry point is not
-- below the segment, memcpy copies, and the loops are followed for more rounds than there are headers.
pub run_userland_lem :
    (p : Platform) (x : File) (buf size : ℕ) (m : Machine)
    → MemcpyCopies p
    → FileFits x
    → IsLoaded x buf m
    → x.header.e_shnum < p.rounds
    → length x.others < p.rounds
    → EntersAt m.userland_heap_current
        (m.userland_heap_current + (x.header.e_entry - x.loaded.p_paddr))
        x.bytes
        (run_userland p buf size m)
unfolding run_userland
run_userland_lem p x buf size m laws fits h sections segments =
    let user = m.userland_heap_current in
    let header = m.heap_current + 16 in
    let spare = 64 * length x.others + 64 in
    let n = 64 * x.header.e_shnum in
    Enters-behind
      (parse_elf_header_lem p laws buf x.ident x.header m fits.padded fits.header_fits h.ehdr
        h.ehdr_below (omega (arith, h.room)) h.heap.addressable)
      λ out m1 parsed.
        let t1 = parsed.taken in
        let some_header : (header == 0) ≡ false = ground arith in
        let r1 = header_Ready x buf m m1 h fits parsed in
        rw (parsed.result, some_header)
          (Enters-behind
            (section_loop_lem p buf p.rounds header x.header.e_shnum 0 _ m1
              (parsed.fields.shnum ∙ omega arith) sections (omega (arith, t1.current))
              (omega (arith, r1.room)) (omega (arith, t1.same_end, h.heap.addressable)))
            λ _ m2 t2.
              let r2 =
                Ready-Taken x buf header user n spare x.header.e_phoff 0 x.others m1 m2 r1 t2 in
              rw (r2.fields.phoff) (
                segment_loop_lem p laws x fits buf header user p.rounds x.header.e_phoff 0 x.others
                  m2 segments fits.others_fit fits.others_skipped
                  (omega (arith, h.segment_below, h.heap.below_end, h.heap.addressable)) r2))
