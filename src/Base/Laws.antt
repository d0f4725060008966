-- ===== src/Base/Laws.antt =====
-- Little-endian bytes of a number.
use Prim.Native.Nat.{ℕ, zero, suc, ◌/◌, ◌%◌, ◌^◌, ◌<◌}
use mathlib.Core.Path.{◌≡◌, refl, ap}
use mathlib.Core.List.{List, [], ◌∷◌}
use native.Mathlib.Omega.{arith}
use lappis.Base.Lists.{length, All}

-- The `n` bytes of `v`, least significant first.
abbrev pub le_bytes : ℕ → ℕ → List ℕ
le_bytes zero v = []
le_bytes (suc n) v = (v % 2 ^ 8) ∷ le_bytes n (v / 2 ^ 8)

pub length-le_bytes : (n v : ℕ) → length (le_bytes n v) ≡ n
length-le_bytes zero v = refl
length-le_bytes (suc n) v = ap suc (length-le_bytes n (v / 2 ^ 8))

pub All-le_bytes : (n v : ℕ) → All (λ b. b < 2 ^ 8) (le_bytes n v)
All-le_bytes zero v = tt
All-le_bytes (suc n) v = (omega arith, All-le_bytes n (v / 2 ^ 8))
