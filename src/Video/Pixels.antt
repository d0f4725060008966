-- ===== src/Video/Pixels.antt =====
-- Pixels in the frame buffer: what is written is read back, and each pixel has its own bytes.
use lappis.Base.{arith, inl, inr, refl, ℕ, ◌*◌, ◌+◌, ◌<◌, ◌^◌, ◌≡◌, ◌≢◌, ◌≤◌, ◌⊎◌}
use lappis.Machine.{Mem}
use lappis.Machine.Memory.{store}
use lappis.Video.{Color, height, pixel_index, set_pixel, width}

-- The pixel at a position on the screen, as its four bytes stand.
abbrev pub pixel_at : ℕ → Mem → ℕ → ℕ → Color
pixel_at fb m x y = record {
  red = m (fb + ((y * width + x) * 4 + 2));
  green = m (fb + ((y * width + x) * 4 + 1));
  blue = m (fb + ((y * width + x) * 4 + 0));
  alpha = m (fb + ((y * width + x) * 4 + 3));
}

pub record IsColor (c : Color) : Type 0 where
  pub red_byte : c.red < 2 ^ 8
  pub green_byte : c.green < 2 ^ 8
  pub blue_byte : c.blue < 2 ^ 8
  pub alpha_byte : c.alpha < 2 ^ 8

-- Four bytes from `fb + b * 4` on.
stored : ℕ → Mem → ℕ → Color → Mem
stored fb m b c =
    let m1 = store m (fb + (b * 4 + 2)) c.red in
    let m2 = store m1 (fb + (b * 4 + 1)) c.green in
    let m3 = store m2 (fb + (b * 4 + 0)) c.blue in store m3 (fb + (b * 4 + 3)) c.alpha

index_exact :
    (x y k : ℕ) → x < width → y < height → k < 4 → pixel_index x y k ≡ (y * width + x) * 4 + k
index_exact x y k x_in y_in small = omega arith

set_pixel-stored :
    (fb : ℕ) (m : Mem) (x y : ℕ) (c : Color)
    → x < width
    → y < height
    → set_pixel fb m x y c ≡ stored fb m (y * width + x) c
unfolding set_pixel stored
set_pixel-stored fb m x y c x_in y_in = rw (
  index_exact x y 0 x_in y_in (omega arith),
  index_exact x y 1 x_in y_in (omega arith),
  index_exact x y 2 x_in y_in (omega arith),
  index_exact x y 3 x_in y_in (omega arith),
)

-- Bytes of another pixel, and of none.
stored-other :
    (fb : ℕ) (m : Mem) (b : ℕ) (c : Color) (a : ℕ)
    → (a < fb + b * 4) ⊎ (fb + b * 4 + 4 ≤ a)
    → stored fb m b c a ≡ m a
unfolding stored store
stored-other fb m b c a out = ground arith

module _ (fb : ℕ) (m : Mem) (b : ℕ) (c : Color) (bytes : IsColor c) where
  stored-red : stored fb m b c (fb + (b * 4 + 2)) ≡ c.red
  unfolding stored store
  stored-red = let small = bytes.red_byte in ground arith

  stored-green : stored fb m b c (fb + (b * 4 + 1)) ≡ c.green
  unfolding stored store
  stored-green = let small = bytes.green_byte in ground arith

  stored-blue : stored fb m b c (fb + (b * 4 + 0)) ≡ c.blue
  unfolding stored store
  stored-blue = let small = bytes.blue_byte in ground arith

  stored-alpha : stored fb m b c (fb + (b * 4 + 3)) ≡ c.alpha
  unfolding stored store
  stored-alpha = let small = bytes.alpha_byte in ground arith

-- On the screen, `set_pixel` makes the pixel the color, and leaves every other pixel of the screen
-- and every byte outside the frame buffer as it was.
pub set_pixel_lem :
    (fb : ℕ) (m : Mem) (x y : ℕ) (c : Color)
    → IsColor c
    → x < width
    → y < height
    → (pixel_at fb (set_pixel fb m x y c) x y ≡ c)
      × ((x' y' : ℕ)
          → x' < width
          → y' < height
          → (x ≢ x') ⊎ (y ≢ y')
          → pixel_at fb (set_pixel fb m x y c) x' y' ≡ pixel_at fb m x' y')
      × ((a : ℕ) → (a < fb) ⊎ (fb + width * height * 4 ≤ a) → set_pixel fb m x y c a ≡ m a)
set_pixel_lem fb m x y c bytes x_in y_in =
    let b = y * width + x in
    rw (set_pixel-stored fb m x y c x_in y_in) (
      rw
          (
            stored-red fb m b c bytes,
            stored-green fb m b c bytes,
            stored-blue fb m b c bytes,
            stored-alpha fb m b c bytes,
          )
          refl,
      (λ x' y' x_in' y_in' apart.
          let b' = y' * width + x' in
          let ne : b' ≢ b = elim apart [ inl e ↦ omega arith | inr e ↦ omega arith ] in
          rw (
            stored-other fb m b c (fb + (b' * 4 + 2)) (away b b' 2 ne (omega arith)),
            stored-other fb m b c (fb + (b' * 4 + 1)) (away b b' 1 ne (omega arith)),
            stored-other fb m b c (fb + (b' * 4 + 0)) (away b b' 0 ne (omega arith)),
            stored-other fb m b c (fb + (b' * 4 + 3)) (away b b' 3 ne (omega arith)),
          )),
      λ a out.
          stored-other fb m b c a
            (elim out [ inl below ↦ inl (omega arith) | inr above ↦ inr (omega arith) ]),
    )
  where
    away :
        (b b' k : ℕ)
        → b' ≢ b
        → k < 4
        → (fb + (b' * 4 + k) < fb + b * 4) ⊎ (fb + b * 4 + 4 ≤ fb + (b' * 4 + k))
    away b b' k ne small = ground arith
