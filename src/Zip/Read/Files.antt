-- ===== src/Zip/Read/Files.antt =====
-- `read_zip` finds every stored file, in order, as it was stored.
use lappis.Base.{arith, length, ne→==, refl, ℕ, ◌+◌, ◌<◌, ◌∙◌, ◌≡◌, ◌≤◌}
use lappis.Heap.Alloc.{IsHeap}
use lappis.Heap.Userland.{MemcpyCopies}
use lappis.Machine.{Machine, Platform, Returns, Returns-bind, returns}
use lappis.Machine.Memory.{All-of_Holds, Holds, Holds-same, IsBytes, SameBelow, fill-SameBelow}
use lappis.Zip.{read_zip}
use lappis.Zip.Archive.{Archive, Fits, encode}
use lappis.Zip.Blocks.{fixed_bounds, granted, malloc-granted}
use lappis.Zip.Cursor.{ZipFs}
use lappis.Zip.Read.Loaded.{Entries, archive_cost, local_files, sections_cost}
use lappis.Zip.Read.Loop.{Ready, read_sections_lem}

-- What `read_zip` leaves: the count and the array of the files, each file's name and contents where
-- its `file_t` says, no change below the heap and none to where it ends, and no message.
pub record FilesRead (a : Archive) (m : Machine) (fs : ZipFs) (m' : Machine) : Type 0 where
  pub count : fs.num_files ≡ length (local_files a.sections)
  pub array : fs.files ≡ m.heap_current
  pub entries : Entries fs.files (fs.files + 128) m'.heap_current m'.mem 0 (local_files a.sections)
  pub below : SameBelow m.mem m'.mem m.heap_current
  pub trace : m'.trace ≡ m.trace
  pub grown : m.heap_current + 128 ≤ m'.heap_current
  pub capped : m'.heap_current ≤ m.heap_end
  pub same_end : m'.heap_end ≡ m.heap_end
  pub spent : m'.heap_current ≡ m.heap_current + 128 + archive_cost a.sections a.end_record
  pub bounds : fixed_bounds m' ≡ fixed_bounds m

-- Where memory holds a well-formed archive of at most 16 stored files below the heap, and the heap
-- has room for what it holds, `read_zip` ends, and its result counts the files and leads, slot by
-- slot and in the archive's order, to each file's terminated name and its contents, in blocks of
-- the heap; it changes nothing below the heap and sends nothing. Every cell of memory is a byte,
-- memcpy copies, and the loop is followed for more rounds than there are sections.
pub read_zip_lem :
    (p : Platform) (a : Archive) (buf : ℕ) (zipfs0 : ZipFs) (m : Machine)
    → MemcpyCopies p
    → Fits a
    → IsBytes m.mem
    → IsHeap m
    → Holds m.mem buf (encode a)
    → buf + length (encode a) ≤ m.heap_current
    → length (local_files a.sections) ≤ 16
    → m.heap_current + 128 + sections_cost a.sections + length a.end_record.comment < m.heap_end
    → length a.sections < p.rounds
    → Returns (FilesRead a m) (read_zip p buf (length (encode a)) zipfs0 m)
unfolding read_zip
read_zip_lem p a buf zipfs0 m laws fits bytes heap h apart few space fuel =
    let files = m.heap_current in
    let m1 = granted 128 m in
    let a1 = malloc-granted 128 m heap.addressable (omega arith) in
    let n1 = ne→== files 0 (omega (arith, heap.not_null, heap.started)) in
    let same = fill-SameBelow m.mem files 128 0 in
    let start : buf + 0 ≡ buf = omega arith in
    let ready : Ready buf (length (encode a)) files (files + 128) a.end_record a.sections 0 0 m1 =
      record {
        fits = fits.sections;
        bytes = All-of_Holds m.mem buf (encode a) bytes h;
        stands =
            rw start (Holds-same m.mem m1.mem buf (encode a) (λ x ge lt. same x (omega arith)) h);
        ends = omega arith;
        few = omega arith;
        array = refl;
        above = omega arith;
        space = omega arith;
        small = heap.addressable;
      } in
    let loop =
      read_sections_lem p laws buf (length (encode a)) files (files + 128) a.end_record fits.comment
        apart (omega (arith, heap.not_null, heap.started)) (omega (arith, heap.addressable))
        p.rounds a.sections 0 0 m1 ready fuel in
    rw (a1, n1)
      (Returns-bind loop λ out m' l. rw l.count (
        returns (record {
          count = omega arith;
          array = refl;
          entries = l.entries;
          below = λ x lt. l.under x lt ∙ same x lt;
          trace = l.trace;
          grown = l.grown;
          capped = l.capped;
          same_end = l.same_end;
          spent = l.spent;
          bounds = l.bounds;
        })))
