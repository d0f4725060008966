-- ===== src/Elf/Segments/Ready.antt =====
-- Files with a segment to load, and the states between the blocks that the loader takes.
use mathlib.Core.Path.{subst}
use lappis.Base.{
  All, List, [], ap, append_assoc, arith, length, length-append, ℕ, ◌++◌, ◌+◌, ◌<◌, ◌^◌, ◌∙◌, ◌∷◌,
  ◌≡◌, ◌≢◌, ◌≤◌,
}
use lappis.Elf.Copy.{Taken}
use lappis.Elf.Fields.{FieldsAt}
use lappis.Elf.Header.{Ehdr, FieldsFit}
use lappis.Elf.Ident.{Ident}
use lappis.Elf.Segments.Enter.{IsLoadable, load-same}
use lappis.Elf.Segments.Phdr.{Phdr, PhdrAt, PhdrFits, encode_phdr}
use lappis.Machine.{Event, Machine, Mem}
use lappis.Machine.Memory.{Holds, SameBelow, load}
use lappis.Zip.Blocks.{At-SameBelow}
use lappis.Zip.Bytes.{At, At-append}

-- The headers of some segments, one behind the other.
abbrev pub encode_phdrs : List Phdr → List ℕ
encode_phdrs [] = []
encode_phdrs (h ∷ hs) = encode_phdr h ++ encode_phdrs hs

length-encode_phdr : (h : Phdr) → length (encode_phdr h) ≡ 56
length-encode_phdr h = omega arith

-- A file: its identification, its header, the headers of the segments that are not loaded before
-- the one that is, that header and the segment's bytes.
pub record File : Type 0 where
  pub ident : Ident
  pub header : Ehdr
  pub others : List Phdr
  pub loaded : Phdr
  pub bytes : List ℕ

pub record FileFits (x : File) : Type 0 where
  pub padded : length x.ident.padding ≡ 7
  pub header_fits : FieldsFit x.header
  pub others_fit : All PhdrFits x.others
  pub loaded_fits : PhdrFits x.loaded
  pub others_skipped : All (λ h. h.p_type ≢ 1) x.others
  pub loaded_type : x.loaded.p_type ≡ 1
  pub size : x.loaded.p_filesz ≡ length x.bytes
  pub bytes_small : All (λ b. b < 2 ^ 8) x.bytes
  pub counted : length x.others < x.header.e_phnum
  pub entry_behind : x.loaded.p_paddr ≤ x.header.e_entry

-- What the loader needs to be at the header `i`, at `cur`, of the segments in `hs` and the one that
-- is loaded. It still takes `spare` bytes of the heap before it takes the segment's.
pub record Ready (x : File) (buf header user spare cur i : ℕ) (hs : List Phdr) (m : Machine)
    : Type 0 where
  pub fields : FieldsAt m.mem header x.header
  pub headers : At m.mem buf cur (encode_phdrs hs ++ encode_phdr x.loaded)
  pub stands : Holds m.mem (buf + x.loaded.p_offset) x.bytes
  pub header_below : header + 64 ≤ m.heap_current
  pub headers_below : buf + cur + length (encode_phdrs hs ++ encode_phdr x.loaded) ≤ m.heap_current
  pub below : buf + x.loaded.p_offset + length x.bytes ≤ m.heap_current
  pub count : i + length hs < x.header.e_phnum
  pub room : m.heap_current + spare + length x.bytes < m.heap_end
  pub not_null : 0 < m.heap_start
  pub started : m.heap_start ≤ m.heap_current
  pub user_is : m.userland_heap_current ≡ user
  pub user_not_null : 0 < m.userland_heap_start
  pub user_started : m.userland_heap_start ≤ user
  pub user_room : user + length x.bytes < m.userland_heap_end
  pub user_small : m.userland_heap_end < 2 ^ 64
  pub above : m.heap_end ≤ user
  pub entry_small : user + x.header.e_entry < 2 ^ 64

FieldsAt-same :
    (m m' : Mem) (header lo : ℕ) (e : Ehdr)
    → SameBelow m m' lo
    → header + 64 ≤ lo
    → FieldsAt m header e
    → FieldsAt m' header e
FieldsAt-same m m' header lo e same below h =
    let keeps : (k n : ℕ) → k + n ≤ 64 → load m' (header + k) n ≡ load m (header + k) n = λ k n le.
      load-same m m' (header + k) n (λ a from to. same a (omega (arith, to, below, le))) in
    record {
      entry = keeps 24 8 (omega arith) ∙ h.entry;
      phoff = keeps 32 8 (omega arith) ∙ h.phoff;
      shoff = keeps 40 8 (omega arith) ∙ h.shoff;
      phnum = keeps 56 2 (omega arith) ∙ h.phnum;
      shnum = keeps 60 2 (omega arith) ∙ h.shnum;
    }

module _ (x : File) (buf header user : ℕ) where
  -- Blocks of the heap that were taken.
  pub Ready-Taken :
      (n spare cur i : ℕ) (hs : List Phdr) (m m' : Machine)
      → Ready x buf header user (n + spare) cur i hs m
      → Taken n m m'
      → Ready x buf header user spare cur i hs m'
  Ready-Taken n spare cur i hs m m' r t =
      let front = encode_phdrs hs ++ encode_phdr x.loaded in
      record {
        fields =
            FieldsAt-same m.mem m'.mem header m.heap_current x.header t.same r.header_below
              r.fields;
        headers =
            At-SameBelow m.mem m'.mem buf cur m.heap_current front t.same r.headers_below r.headers;
        stands =
            At-SameBelow m.mem m'.mem buf x.loaded.p_offset m.heap_current x.bytes t.same r.below
              r.stands;
        header_below = omega (arith, r.header_below, t.current);
        headers_below = omega (arith, r.headers_below, t.current);
        below = omega (arith, r.below, t.current);
        count = r.count;
        room = omega (arith, r.room, t.current, t.same_end);
        not_null = omega (arith, r.not_null, t.start);
        started = omega (arith, r.started, t.start, t.current);
        user_is = t.user_current ∙ r.user_is;
        user_not_null = omega (arith, r.user_not_null, t.user_start);
        user_started = omega (arith, r.user_started, t.user_start);
        user_room = omega (arith, r.user_room, t.user_end);
        user_small = omega (arith, r.user_small, t.user_end);
        above = omega (arith, r.above, t.same_end);
        entry_small = r.entry_small;
      }

  -- The next header, behind a message.
  pub Ready-next :
      (spare cur i : ℕ) (h : Phdr) (hs : List Phdr) (m : Machine) (t : List Event)
      → Ready x buf header user spare cur i (h ∷ hs) m
      → Ready x buf header user spare (cur + 56) (i + 1) hs (record m { trace = t })
  Ready-next spare cur i h hs m t r =
      let front = encode_phdrs hs ++ encode_phdr x.loaded in
      let split = append_assoc (encode_phdr h) (encode_phdrs hs) (encode_phdr x.loaded) in
      let size = length-append (encode_phdr h) front in
      let behind =
        (At-append m.mem buf cur (encode_phdr h) front
          (subst (At m.mem buf cur) split r.headers)).1 in
      record {
        fields = r.fields;
        headers = behind;
        stands = r.stands;
        header_below = r.header_below;
        headers_below = omega (arith, r.headers_below, ap length split, size);
        below = r.below;
        count = omega (arith, r.count);
        room = r.room;
        not_null = r.not_null;
        started = r.started;
        user_is = r.user_is;
        user_not_null = r.user_not_null;
        user_started = r.user_started;
        user_room = r.user_room;
        user_small = r.user_small;
        above = r.above;
        entry_small = r.entry_small;
      }

  -- The segment's header stands in the block that it was parsed to.
  pub Ready-IsLoadable :
      (spare cur i segment : ℕ) (hs : List Phdr) (m : Machine)
      → FileFits x
      → Ready x buf header user spare cur i hs m
      → PhdrAt m.mem segment x.loaded
      → IsLoadable buf header segment x.loaded.p_offset x.loaded.p_paddr x.header.e_entry x.bytes m
  Ready-IsLoadable spare cur i segment hs m fits r at = record {
    filesz = at.filesz_at ∙ fits.size;
    paddr_is = at.paddr_at;
    offset_is = at.offset_at;
    entry_is = r.fields.entry;
    stands = r.stands;
    small = fits.bytes_small;
    below = r.below;
    header_below = omega (arith, r.header_below);
    heap = record {
      not_null = r.not_null;
      started = r.started;
      below_end = omega (arith, r.room);
      addressable = omega (arith, r.above, r.entry_small);
    };
    userland = record {
      not_null = r.user_not_null;
      started = omega (arith, r.user_started, r.user_is);
      below_end = omega (arith, r.user_is, r.user_room);
      addressable = r.user_small;
    };
    room = omega (arith, r.room);
    userland_room = omega (arith, r.user_room, r.user_is);
    above = omega (arith, r.above, r.user_is);
    entry_behind = fits.entry_behind;
    entry_small = omega (arith, r.entry_small, r.user_is);
  }
