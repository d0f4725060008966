-- ===== src/Machine/Memory.antt =====
-- Byte memory: single writes, fills, copies, and what a range of addresses holds.
use lappis.Base.{
  All, List, [], ap, ap₂, arith, false, get_or, if◌then◌else◌, leb, length, ltb, refl, suc, sym,
  true, zero, ℕ, ◌%◌, ◌&&◌, ◌*◌, ◌++◌, ◌+◌, ◌-◌, ◌<◌, ◌==◌, ◌^◌, ◌∙◌, ◌∷◌, ◌≡◌, ◌≤◌,
}
use lappis.Machine.{Mem}

-- `*a = v`, for a byte.
unfoldable pub store : Mem → ℕ → ℕ → Mem
store m p v a = if a == p then v % 2 ^ 8 else m a

-- `for (i = 0; i < n; i++) p[i] = v;`
unfoldable pub fill : Mem → ℕ → ℕ → ℕ → Mem
fill m p zero v = m
fill m p (suc n) v = fill (store m p v) (p + 1) n v

-- The bytes of a list, from `p` on.
unfoldable pub store_list : Mem → ℕ → List ℕ → Mem
store_list m p [] = m
store_list m p (b ∷ bs) = store_list (store m p b) (p + 1) bs

-- The `n` bytes from `p` on.
abbrev pub bytes_at : Mem → ℕ → ℕ → List ℕ
bytes_at m p zero = []
bytes_at m p (suc n) = m p ∷ bytes_at m (p + 1) n

-- The list stands in memory at `p`.
abbrev pub Holds : Mem → ℕ → List ℕ → Type 0
Holds m p [] = Unit
Holds m p (b ∷ bs) = (m p ≡ b) × Holds m (p + 1) bs

-- Two memories agree on the `n` bytes from `p` on.
abbrev pub SameOn : Mem → Mem → ℕ → ℕ → Type 0
SameOn m m' p n = (a : ℕ) → p ≤ a → a < p + n → m' a ≡ m a

-- Two memories agree below `p`.
abbrev pub SameBelow : Mem → Mem → ℕ → Type 0
SameBelow m m' p = (a : ℕ) → a < p → m' a ≡ m a

pub fill_lem :
    (m : Mem) (p n v a : ℕ) → fill m p n v a ≡ (if leb p a && ltb a (p + n) then v % 2 ^ 8 else m a)
unfolding fill store
fill_lem m p zero v a = ground arith
fill_lem m p (suc n) v a = ground (arith, fill_lem (store m p v) (p + 1) n v a)

pub store_list_outside :
    (m : Mem) (p : ℕ) (bs : List ℕ) (a : ℕ)
    → (leb p a && ltb a (p + length bs)) ≡ false
    → store_list m p bs a ≡ m a
unfolding store_list store
store_list_outside m p [] a h = refl
store_list_outside m p (b ∷ bs) a h = ground (arith, store_list_outside (store m p b) (p + 1) bs a)

pub store_list_inside :
    (m : Mem) (p : ℕ) (bs : List ℕ) (i : ℕ)
    → i < length bs
    → store_list m p bs (p + i) ≡ get_or bs i 0 % 2 ^ 8
unfolding store_list store
store_list_inside m p [] i h = absurd (omega arith)
store_list_inside m p (b ∷ bs) zero h =
    ground (arith, store_list_outside (store m p b) (p + 1) bs (p + 0))
store_list_inside m p (b ∷ bs) (suc i) h =
    let shift : p + suc i ≡ p + 1 + i = omega arith in
    rw shift (store_list_inside (store m p b) (p + 1) bs i (omega arith))

pub length-bytes_at : (m : Mem) (p n : ℕ) → length (bytes_at m p n) ≡ n
length-bytes_at m p zero = refl
length-bytes_at m p (suc n) = ap suc (length-bytes_at m (p + 1) n)

pub bytes_at-eq_of_Holds :
    (m : Mem) (p : ℕ) (bs : List ℕ) → Holds m p bs → bytes_at m p (length bs) ≡ bs
bytes_at-eq_of_Holds m p [] h = refl
bytes_at-eq_of_Holds m p (b ∷ bs) h = ap₂ ◌∷◌ h.0 (bytes_at-eq_of_Holds m (p + 1) bs h.1)

pub Holds-append :
    (m : Mem) (p : ℕ) (xs ys : List ℕ)
    → Holds m p (xs ++ ys)
    → Holds m p xs × Holds m (p + length xs) ys
Holds-append m p [] ys h = let start : p + 0 ≡ p = omega arith in (tt, rw start h)
Holds-append m p (x ∷ xs) ys h =
    let (front, back) = Holds-append m (p + 1) xs ys h.1 in
    let shift : p + suc (length xs) ≡ p + 1 + length xs = omega arith in
    ((h.0, front), rw shift back)

pub Holds-same :
    (m m' : Mem) (p : ℕ) (bs : List ℕ) → SameOn m m' p (length bs) → Holds m p bs → Holds m' p bs
Holds-same m m' p [] same h = tt
Holds-same m m' p (b ∷ bs) same h = (
  same p (omega arith) (omega arith) ∙ h.0,
  Holds-same m m' (p + 1) bs (λ a lo hi. same a (omega arith) (omega arith)) h.1,
)

-- What was stored is there.
pub Holds-store_list :
    (m : Mem) (p : ℕ) (bs : List ℕ) → All (λ b. b < 2 ^ 8) bs → Holds (store_list m p bs) p bs
unfolding store_list store
Holds-store_list m p [] small = tt
Holds-store_list m p (b ∷ bs) small = (
  ground (arith, small.0, store_list_outside (store m p b) (p + 1) bs p),
  Holds-store_list (store m p b) (p + 1) bs small.1,
)

-- `m'` is `m` with the list written at `p`.
abbrev pub Written : Mem → ℕ → List ℕ → Mem → Type 0
Written m p bs m' =
    (a : ℕ) → m' a ≡ (if leb p a && ltb a (p + length bs) then get_or bs (a - p) 0 else m a)

get_or-cons : (b : ℕ) (bs : List ℕ) (i j : ℕ) → i ≡ suc j → get_or (b ∷ bs) i 0 ≡ get_or bs j 0
get_or-cons b bs i j e = rw e

get_or-head : (b : ℕ) (bs : List ℕ) (i : ℕ) → i ≡ 0 → get_or (b ∷ bs) i 0 ≡ b
get_or-head b bs i e = rw e

pub store_list-Written :
    (m : Mem) (p : ℕ) (bs : List ℕ) → All (λ b. b < 2 ^ 8) bs → Written m p bs (store_list m p bs)
unfolding store_list store
store_list-Written m p [] small a = ground arith
store_list-Written m p (b ∷ bs) small a = ground (
  arith,
  small.0,
  store_list-Written (store m p b) (p + 1) bs small.1 a,
  get_or-cons b bs (a - p) (a - (p + 1)),
  get_or-head b bs (a - p),
)

pub SameBelow-trans :
    (m m' m'' : Mem) (p : ℕ) → SameBelow m m' p → SameBelow m' m'' p → SameBelow m m'' p
SameBelow-trans m m' m'' p h k a below = k a below ∙ h a below

pub SameBelow-le : (m m' : Mem) (p q : ℕ) → q ≤ p → SameBelow m m' p → SameBelow m m' q
SameBelow-le m m' p q le h a below = h a (omega arith)

pub fill-SameBelow : (m : Mem) (p n v : ℕ) → SameBelow m (fill m p n v) p
fill-SameBelow m p n v a below = ground (arith, fill_lem m p n v a)

pub store_list-SameBelow : (m : Mem) (p : ℕ) (bs : List ℕ) → SameBelow m (store_list m p bs) p
store_list-SameBelow m p bs a below = ground (arith, store_list_outside m p bs a)

pub store_list-above :
    (m : Mem) (p : ℕ) (bs : List ℕ) (a : ℕ) → p + length bs ≤ a → store_list m p bs a ≡ m a
store_list-above m p bs a above = ground (arith, store_list_outside m p bs a)

-- Every cell is a byte.
abbrev pub IsBytes : Mem → Type 0
IsBytes m = (a : ℕ) → m a < 2 ^ 8

pub All-of_Holds :
    (m : Mem) (p : ℕ) (bs : List ℕ) → IsBytes m → Holds m p bs → All (λ b. b < 2 ^ 8) bs
All-of_Holds m p [] bytes h = tt
All-of_Holds m p (b ∷ bs) bytes h =
    (omega (arith, bytes p, h.0), All-of_Holds m (p + 1) bs bytes h.1)

pub store_list-append :
    (m : Mem) (p : ℕ) (xs ys : List ℕ)
    → store_list m p (xs ++ ys) ≡ store_list (store_list m p xs) (p + length xs) ys
unfolding store_list
store_list-append m p [] ys = ap (λ q. store_list m q ys) (omega arith)
store_list-append m p (x ∷ xs) ys =
    store_list-append (store m p x) (p + 1) xs ys
    ∙ ap (λ q. store_list (store_list (store m p x) (p + 1) xs) q ys) (omega arith)

pub store_list_one : (m : Mem) (p v : ℕ) → store_list m p (v ∷ []) ≡ store m p v
unfolding store_list
store_list_one m p v = refl

pub All-append {ℓ κ} :
    {A : Type ℓ} (P : A → Type κ) (xs ys : List A) → All P xs → All P ys → All P (xs ++ ys)
All-append P [] ys h k = k
All-append P (x ∷ xs) ys h k = (h.0, All-append P xs ys h.1 k)

pub All-left {ℓ κ} : {A : Type ℓ} (P : A → Type κ) (xs ys : List A) → All P (xs ++ ys) → All P xs
All-left P [] ys h = tt
All-left P (x ∷ xs) ys h = (h.0, All-left P xs ys h.1)

pub All-right {ℓ κ} : {A : Type ℓ} (P : A → Type κ) (xs ys : List A) → All P (xs ++ ys) → All P ys
All-right P [] ys h = h
All-right P (x ∷ xs) ys h = All-right P xs ys h.1

-- A little-endian number of `n` bytes, read from memory.
unfoldable pub load : Mem → ℕ → ℕ → ℕ
load m p zero = 0
load m p (suc n) = m p + 2 ^ 8 * load m (p + 1) n

store_byte : (m : Mem) (p b : ℕ) → IsBytes m → IsBytes (store m p b)
unfolding store
store_byte m p b bytes a = ground (arith, bytes a)

pub IsBytes-store_list : (m : Mem) (p : ℕ) (bs : List ℕ) → IsBytes m → IsBytes (store_list m p bs)
unfolding store_list
IsBytes-store_list m p [] bytes = bytes
IsBytes-store_list m p (b ∷ bs) bytes =
    IsBytes-store_list (store m p b) (p + 1) bs (store_byte m p b bytes)

Holds-of_bytes :
    (m : Mem) (p : ℕ) (bs : List ℕ)
    → ((i : ℕ) → i < length bs → m (p + i) ≡ get_or bs i 0)
    → Holds m p bs
Holds-of_bytes m p [] h = tt
Holds-of_bytes m p (b ∷ bs) h =
    let start : p + 0 ≡ p = omega arith in
    (
      ap m (sym start) ∙ h 0 (omega arith),
      Holds-of_bytes m (p + 1) bs (λ i lt.
          let shift : p + 1 + i ≡ p + suc i = omega arith in
          ap m shift ∙ h (suc i) (omega (arith, lt))),
    )

pub Holds-Written : (m m' : Mem) (p : ℕ) (bs : List ℕ) → Written m p bs m' → Holds m' p bs
Holds-Written m m' p bs written = Holds-of_bytes m' p bs λ i lt.
    let inside : (leb p (p + i) && ltb (p + i) (p + length bs)) ≡ true = ground (arith, lt) in
    let at : p + i - p ≡ i = omega arith in rw (written (p + i), inside, at) refl
