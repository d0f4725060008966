-- ===== src/Zip/Bytes.antt =====
-- Reading little-endian numbers, and the bytes between them, from an archive in memory.
use lappis.Base.{
  List, [], ap₂, arith, bit_or, bit_or-shift, le_bytes, length, refl, ℕ, ◌%◌, ◌*◌, ◌++◌, ◌+◌, ◌/◌,
  ◌<◌, ◌^◌, ◌∙◌, ◌∷◌, ◌≡◌,
}
use lappis.Heap.Userland.{MemcpyCopies}
use lappis.Machine.{Mem, Platform}
use lappis.Machine.Memory.{Holds, Holds-append, bytes_at-eq_of_Holds}
use lappis.Zip.Cursor.{read_local, read_uint16, read_uint32, skip_bytes}

-- The bytes stand behind the cursor.
abbrev pub At : Mem → ℕ → ℕ → List ℕ → Type 0
At m buf cur bytes = Holds m (buf + cur) bytes

pub At-append :
    (m : Mem) (buf cur : ℕ) (xs ys : List ℕ)
    → At m buf cur (xs ++ ys)
    → At m buf cur xs × At m buf (cur + length xs) ys
At-append m buf cur xs ys h =
    let (front, back) = Holds-append m (buf + cur) xs ys h in
    let shift : buf + (cur + length xs) ≡ buf + cur + length xs = omega arith in
    (front, rw shift back)

pub skip_bytes_lem : (cur n : ℕ) → cur + n < 2 ^ 64 → skip_bytes cur n ≡ cur + n
skip_bytes_lem cur n h = omega arith

module _ (p : Platform) (laws : MemcpyCopies p) where
  pub read_local-At :
      (m : Mem) (buf cur : ℕ) (bytes : List ℕ)
      → At m buf cur bytes
      → read_local p m buf (length bytes) cur ≡ bytes
  read_local-At m buf cur bytes h =
      laws.delivers m (buf + cur) (length bytes) ∙ bytes_at-eq_of_Holds m (buf + cur) bytes h

  pub read_uint16_lem :
      (m : Mem) (buf cur v : ℕ)
      → At m buf cur (le_bytes 2 v)
      → v < 2 ^ 16
      → cur + 2 < 2 ^ 64
      → read_uint16 p m buf cur ≡ (v, cur + 2)
  unfolding read_uint16
  read_uint16_lem m buf cur v h small room = rw (read_local-At m buf cur (le_bytes 2 v) h) (
      ap₂ (λ a b. (a, b))
        (bit_or-shift 8 (v % 2 ^ 8) (v / 2 ^ 8 % 2 ^ 8) (omega arith) ∙ omega arith)
        (skip_bytes_lem cur 2 room))

  pub read_uint32_lem :
      (m : Mem) (buf cur v : ℕ)
      → At m buf cur (le_bytes 4 v)
      → v < 2 ^ 32
      → cur + 4 < 2 ^ 64
      → read_uint32 p m buf cur ≡ (v, cur + 4)
  unfolding read_uint32
  read_uint32_lem m buf cur v h small room =
      let b0 = v % 2 ^ 8 in
      let b1 = v / 2 ^ 8 % 2 ^ 8 in
      let b2 = v / 2 ^ 8 / 2 ^ 8 % 2 ^ 8 in
      let b3 = v / 2 ^ 8 / 2 ^ 8 / 2 ^ 8 % 2 ^ 8 in
      let e1 : bit_or b0 (b1 * 2 ^ 8) ≡ b0 + b1 * 2 ^ 8 = bit_or-shift 8 b0 b1 (omega arith) in
      let e2 : bit_or (b0 + b1 * 2 ^ 8) (b2 * 2 ^ 16) ≡ b0 + b1 * 2 ^ 8 + b2 * 2 ^ 16 =
        bit_or-shift 16 (b0 + b1 * 2 ^ 8) b2 (omega arith) in
      let e3 : bit_or (b0 + b1 * 2 ^ 8 + b2 * 2 ^ 16) (b3 * 2 ^ 24)
          ≡ b0 + b1 * 2 ^ 8 + b2 * 2 ^ 16 + b3 * 2 ^ 24 =
        bit_or-shift 24 (b0 + b1 * 2 ^ 8 + b2 * 2 ^ 16) b3 (omega arith) in
      rw (read_local-At m buf cur (le_bytes 4 v) h)
        (ap₂ (λ a b. (a, b)) (rw (e1, e2, e3) (omega arith)) (skip_bytes_lem cur 4 room))

  -- The tag bytes at the start of a section, and what stands behind them.
  pub read_tag :
      (m : Mem) (buf cur a b c d : ℕ) (body : List ℕ)
      → At m buf cur (a ∷ b ∷ c ∷ d ∷ body)
      → cur + 4 < 2 ^ 64
      → (read_local p m buf 2 cur ≡ a ∷ b ∷ [])
        × (read_local p m buf 2 (skip_bytes cur 2) ≡ c ∷ d ∷ [])
        × (skip_bytes (skip_bytes cur 2) 2 ≡ cur + 4)
        × At m buf (cur + 4) body
  read_tag m buf cur a b c d body h room =
      let (tag, rest) = At-append m buf cur (a ∷ b ∷ []) (c ∷ d ∷ body) h in
      let (kind, behind) = At-append m buf (cur + 2) (c ∷ d ∷ []) body rest in
      let at2 : skip_bytes cur 2 ≡ cur + 2 = omega arith in
      let at4 : cur + 2 + 2 ≡ cur + 4 = omega arith in
      (
        read_local-At m buf cur (a ∷ b ∷ []) tag,
        rw at2 (read_local-At m buf (cur + 2) (c ∷ d ∷ []) kind),
        omega arith,
        rw at4 at behind,
      )

module _ (p : Platform) (m : Mem) (buf cur : ℕ) where
  pub read_uint16-cursor : (read_uint16 p m buf cur).1 ≡ skip_bytes cur 2
  unfolding read_uint16
  read_uint16-cursor = refl

  pub read_uint32-cursor : (read_uint32 p m buf cur).1 ≡ skip_bytes cur 4
  unfolding read_uint32
  read_uint32-cursor = refl
