-- ===== src/Serial/Text.antt =====
-- Texts on a serial port: which bytes go out.
-- The byte that an event sends to a port.
use lappis.Base.{
  All, List, [], ap, append-nil, append_assoc, arith, false, if◌then◌else◌, length, suc, sym, true,
  zero, ℕ, ◌%◌, ◌++◌, ◌+◌, ◌<◌, ◌==◌, ◌^◌, ◌∙◌, ◌∷◌, ◌≡◌,
}
use lappis.Machine.{
  Cmd, Event, Machine, Mem, Platform, Returns, Returns-bind, Returns-mono, clac, cli, debug_msg,
  error_msg, fldcw, hlt, in_byte, in_word, lidt, mov_cr4, out_byte, returns, stac, sti, user_copy,
  user_fill, ◌>>◌,
}
use lappis.Serial.{
  debug_buffer, serial_com2_port, serial_write_byte, serial_write_loop, serial_write_string,
  write_text,
}
use lappis.Serial.Wait.{serial_write_byte_lem}
use lappis.Strings.Length.{IsCString, IsChar}

abbrev pub byte_to : ℕ → Event → List ℕ
byte_to port (out_byte q b) = if q == port then b ∷ [] else []
byte_to port (in_byte q b) = []
byte_to port (in_word q b) = []
byte_to port (debug_msg t a) = []
byte_to port (error_msg t a) = []
byte_to port stac = []
byte_to port clac = []
byte_to port cli = []
byte_to port sti = []
byte_to port hlt = []
byte_to port lidt = []
byte_to port (fldcw v) = []
byte_to port (mov_cr4 v) = []
byte_to port (user_fill p n) = []
byte_to port (user_copy d s n) = []

-- The bytes that went out on a port, oldest first.
abbrev pub sent_on : ℕ → List Event → List ℕ
sent_on port [] = []
sent_on port (e ∷ es) = sent_on port es ++ byte_to port e

-- A command sends the bytes on the port, and leaves memory as it is.
abbrev pub Sends : ℕ → Mem → List ℕ → Cmd (Unit {0}) → Type 0
Sends port mem bs c =
    (m : Machine)
    → m.mem ≡ mem
    → Returns (λ _ m'. (m'.mem ≡ mem) × (sent_on port m'.trace ≡ sent_on port m.trace ++ bs)) (c m)

pub Sends-then :
    (port : ℕ) (mem : Mem) (xs ys : List ℕ) {c d : Cmd (Unit {0})}
    → Sends port mem xs c
    → Sends port mem ys d
    → Sends port mem (xs ++ ys) (c >> d)
Sends-then port mem xs ys first second m same = Returns-bind (first m same) λ _ m1 (same1, sent1).
    Returns-mono (second m1 same1) λ _ m2 (same2, sent2).
      (same2, sent2 ∙ ap (λ q. q ++ ys) sent1 ∙ append_assoc (sent_on port m.trace) xs ys)

module _ (p : Platform) (port : ℕ) (pos : 0 < p.rounds) (small : port < 2 ^ 16) where
  byte-Sends :
      (mem : Mem) (b : ℕ) → b < 2 ^ 8 → Sends port mem (b ∷ []) (serial_write_byte p port b)
  byte-Sends mem b lt m same =
      let at : port % 2 ^ 16 ≡ port = omega arith in
      let b8 : b % 2 ^ 8 ≡ b = omega arith in
      let this : (port == port) ≡ true = ground arith in
      rw (serial_write_byte_lem p port b m pos) (
        returns
          (same, rw (at, b8, this) (ap (λ q. q ++ b ∷ []) (append-nil (sent_on port m.trace)))))

  pub write_text-Sends :
      (mem : Mem) (bs : List ℕ) → All (λ b. b < 2 ^ 8) bs → Sends port mem bs (write_text p port bs)
  unfolding write_text
  write_text-Sends mem [] bytes m same = returns (same, sym (append-nil (sent_on port m.trace)))
  write_text-Sends mem (b ∷ bs) bytes m same =
      Sends-then port mem (b ∷ []) bs (byte-Sends mem b bytes.0) (write_text-Sends mem bs bytes.1) m
        same

  loop-Sends :
      (f : ℕ) (mem : Mem) (s : ℕ) (cs : List ℕ)
      → IsCString mem s cs
      → All IsChar cs
      → length cs < f
      → Sends port mem cs (serial_write_loop p f port s)
  unfolding serial_write_loop
  loop-Sends zero mem s cs str chars fuel m same = absurd (omega (arith, fuel))
  loop-Sends (suc f) mem s [] str chars fuel m same =
      let ends : (m.mem s == 0) ≡ true = ground (arith, ap (λ f. f s) same, str) in
      rw ends (returns (same, sym (append-nil (sent_on port m.trace))))
  loop-Sends (suc f) mem s (c ∷ cs) str chars fuel m same =
      let value : m.mem s ≡ c = ap (λ f. f s) same ∙ str.0 in
      let more : (c == 0) ≡ false = ground (arith, str.1) in
      rw (value, more)
        (Sends-then port mem (c ∷ []) cs (byte-Sends mem c chars.0.1)
          (loop-Sends f mem (s + 1) cs str.2 chars.1 (omega arith)) m same)

  pub serial_write_string-Sends :
      (mem : Mem) (s : ℕ) (cs : List ℕ)
      → IsCString mem s cs
      → All IsChar cs
      → length cs < p.rounds
      → Sends port mem cs (serial_write_string p port s)
  unfolding serial_write_string
  serial_write_string-Sends mem s cs str chars fuel m same =
      loop-Sends p.rounds mem s cs str chars fuel m same

pub debug_buffer-Sends :
    (p : Platform) (mem : Mem) (bs : List ℕ)
    → 0 < p.rounds
    → All (λ b. b < 2 ^ 8) bs
    → Sends serial_com2_port mem bs (debug_buffer p bs)
unfolding debug_buffer
debug_buffer-Sends p mem bs pos bytes m same =
    write_text-Sends p serial_com2_port pos (omega arith) mem bs bytes m same
