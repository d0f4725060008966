-- ===== src/Video/Frame.antt =====
-- `set_frame` of src/kernel/video.c.
use lappis.Base.{All, List, ap, length, refl, sym, ℕ, ◌*◌, ◌<◌, ◌^◌, ◌∙◌, ◌≡◌}
use lappis.Heap.{memcpy}
use lappis.Heap.Userland.{MemcpyCopies}
use lappis.Machine.{Machine, Mem, Platform, ok}
use lappis.Machine.Memory.{Holds, Holds-store_list, bytes_at, bytes_at-eq_of_Holds, store_list}
use lappis.Video.{height, set_frame, width}

abbrev pub frame_size : ℕ
frame_size = width * height * 4

abbrev pub framed : Platform → ℕ → Machine → Machine
framed p frame m = record m {
  mem = store_list m.mem p.frame_buffer (p.copied m.mem frame frame_size);
}

pub set_frame_lem :
    (p : Platform) (frame : ℕ) (m : Machine) → set_frame p frame m ≡ ok tt (framed p frame m)
unfolding set_frame memcpy
set_frame_lem p frame m = refl

copied-Holds :
    (p : Platform) (copies : MemcpyCopies p) (mem : Mem) (s n : ℕ) (bs : List ℕ)
    → Holds mem s bs
    → length bs ≡ n
    → p.copied mem s n ≡ bs
copied-Holds p copies mem s n bs held size =
    copies.delivers mem s n ∙ ap (bytes_at mem s) (sym size) ∙ bytes_at-eq_of_Holds mem s bs held

-- A frame of the screen's size is what the frame buffer then holds.
pub framed-Holds :
    (p : Platform) (frame : ℕ) (bs : List ℕ) (m : Machine)
    → MemcpyCopies p
    → Holds m.mem frame bs
    → length bs ≡ frame_size
    → All (λ b. b < 2 ^ 8) bs
    → Holds (framed p frame m).mem p.frame_buffer bs
framed-Holds p frame bs m copies held size bytes =
    rw (copied-Holds p copies m.mem frame frame_size bs held size)
      (Holds-store_list m.mem p.frame_buffer bs bytes)
