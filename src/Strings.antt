-- ===== src/Strings.antt =====
-- src/kernel/string.c: C strings in memory. `rounds` bounds the search for a terminator; `none`
-- means that none was found in as many rounds, or that a fixed local array was overrun.
pub mod Length
pub mod Equal
pub mod Decimal
pub mod Search
pub mod Append
use mathlib.Core.Option
use lappis.Base.{
  Bool, List, Option, [], add32, add64, codes, false, get_or, if◌then◌else◌, leb, ltb, none, not,
  replicate, set, some, sub64, suc, true, zero, ℕ, ◌!=◌, ◌%◌, ◌&&◌, ◌++◌, ◌+◌, ◌-◌, ◌/◌, ◌==◌, ◌^◌,
  ◌||◌, ◌∷◌,
}
use lappis.Machine.{Mem}
use lappis.Machine.Memory.{fill, store, store_list}

abbrev pub byte : ℕ → ℕ
byte v = v % 2 ^ 8

unfoldable pub is_print : ℕ → Bool
is_print c = leb b' ' c && leb c b'~'

unfoldable pub strlen_loop : ℕ → Mem → ℕ → ℕ → Option ℕ
strlen_loop zero m s len = none
strlen_loop (suc f) m s len =
    let rest = strlen_loop f m (s + 1) (add32 len 1) in if m s == 0 then some len else rest

unfoldable pub strlen : ℕ → Mem → ℕ → Option ℕ
unfolding strlen_loop
strlen rounds m s = strlen_loop rounds m s 0

-- `while (*dest) dest++;`
find_end : ℕ → Mem → ℕ → Option ℕ
find_end zero m dest = none
find_end (suc f) m dest =
    let rest = find_end f m (dest + 1) in if m dest == 0 then some dest else rest

-- `while (*src) *dest++ = *src++;` and the terminator.
copy_string : ℕ → Mem → ℕ → ℕ → Option Mem
copy_string zero m dest src = none
copy_string (suc f) m dest src =
    let rest = copy_string f (store m dest (m src)) (dest + 1) (src + 1) in
    if m src == 0 then some (store m dest 0) else rest

unfoldable pub strcat : ℕ → Mem → ℕ → ℕ → Option Mem
unfolding find_end copy_string
strcat rounds m dest src = Option.bind (find_end rounds m dest) (λ e. copy_string rounds m e src)

-- `strcat` from a string literal, which no other pointer reaches.
unfoldable pub strcat_text : ℕ → Mem → ℕ → List ℕ → Option Mem
unfolding find_end
strcat_text rounds m dest text =
    Option.map (λ e. store_list m e (text ++ 0 ∷ [])) (find_end rounds m dest)

unfoldable pub memset : Mem → ℕ → ℕ → ℕ → Mem
memset m dest val len = fill m dest len val

-- `i` is unsigned, so `i >= 0` holds always and `i--` wraps below 0.
unfoldable pub strrchr_loop : ℕ → Mem → ℕ → ℕ → ℕ → Option ℕ
strrchr_loop zero m str c i = none
strrchr_loop (suc f) m str c i =
    let rest = strrchr_loop f m str c (sub64 i 1) in if m (add64 str i) == c then some i else rest

unfoldable pub strrchr : ℕ → Mem → ℕ → ℕ → Option ℕ
unfolding strrchr_loop
strrchr rounds m str c = Option.bind (strlen rounds m str) (λ len. strrchr_loop rounds m str c len)

-- `for (int i = 0; i < n; i++)` over two strings, from `i` on, with the rounds left.
pub same_bytes : ℕ → Mem → ℕ → ℕ → Bool
same_bytes zero m a b = true
same_bytes (suc n) m a b = m a == m b && same_bytes n m (a + 1) (b + 1)

-- Both lengths are read again in every round of the source's loop; nothing is written in it.
unfoldable pub streq : ℕ → Mem → ℕ → ℕ → Option Bool
unfolding same_bytes
streq rounds m s1 s2 =
    if s1 == 0 || s2 == 0
    then some false
    else if s1 == s2
    then some true
    else Option.bind (strlen rounds m s1) λ n1.
      Option.bind (strlen rounds m s2)
        λ n2. some (if n1 != n2 then false else same_bytes n1 m s1 s2)

unfoldable pub streqn : Mem → ℕ → ℕ → ℕ → Bool
unfolding same_bytes
streqn m s1 s2 n =
    if s1 == 0 || s2 == 0 then false else if s1 == s2 then true else same_bytes n m s1 s2

-- The `offset` digits of `tmp`, last to first, at `str`.
pub write_back : ℕ → List ℕ → Mem → ℕ → Mem
write_back zero tmp m str = m
write_back (suc offset) tmp m str =
    write_back offset tmp (store m str (get_or tmp offset 0)) (str + 1)

-- A digit of base 16: `hdigit + '0'`, or `hdigit - 10 + 'a'`.
pub hex_digit : ℕ → ℕ
hex_digit d = if ltb d 10 then d + b'0' else d - 10 + b'a'

-- `while (num > 0) { tmp[offset++] = digit(num % base); num /= base; }`, where `tmp` has `size`
-- elements. A write behind `tmp` has no defined effect.
pub digits_loop : ℕ → ℕ → (ℕ → ℕ) → ℕ → ℕ → ℕ → List ℕ → Option (ℕ × List ℕ)
digits_loop size base digit zero num offset tmp = none
digits_loop size base digit (suc f) num offset tmp =
    let rest =
      digits_loop size base digit f (num / base) (byte (offset + 1))
        (set tmp offset (digit (num % base))) in
    if num == 0 then some (offset, tmp) else if ltb offset size then rest else none

abbrev pub decimal_digit : ℕ → ℕ
decimal_digit d = d + b'0'

-- An `int64_t` is its bit pattern.
abbrev pub is_negative : ℕ → Bool
is_negative num = leb (2 ^ 63) num

-- `-num`
abbrev pub negate : ℕ → ℕ
negate num = sub64 0 num

-- `-2147483648`
abbrev pub min_int : ℕ
min_int = 2 ^ 64 - 2 ^ 31

-- The digits of `num` behind the sign, and the terminator. The loops leave `offset` at 0.
itoa_digits : Mem → ℕ → ℕ → Option Mem
itoa_digits m num str =
    Option.map (λ (offset, tmp). store (write_back offset tmp m str) (str + offset) 0)
      (digits_loop 10 10 decimal_digit 64 num 0 (replicate 10 0))

pub itoa : ℕ → Mem → ℕ → ℕ → Option Mem
itoa rounds m num str =
    let magnitude = if is_negative num then negate num else num in
    if magnitude == min_int
    then strcat_text rounds m str (codes "-2147483648")
    else if magnitude == 0
    then strcat_text rounds m str (b'0' ∷ [])
    else if is_negative num
    then itoa_digits (store m str b'-') magnitude (str + 1)
    else itoa_digits m magnitude str

-- `while (num > 0)` of a negative number makes no round: `0` is written for it.
htox_digits : ℕ → Option (ℕ × List ℕ)
htox_digits num =
    if ltb 0 num && not (is_negative num)
    then digits_loop 8 16 hex_digit 64 num 0 (replicate 8 0)
    else some (1, set (replicate 8 0) 0 b'0')

-- `strlen(tmp)` counts the digits that were written, none of which is NUL. Eight of them leave no
-- terminator in `tmp`, and the count reads behind it.
pub htox : Mem → ℕ → ℕ → Bool → Option Mem
htox m num str prefix = Option.bind (htox_digits num) λ (offset, tmp).
    let m1 = if prefix then store (store m str b'0') (str + 1) b'x' else m in
    let str1 = if prefix then str + 2 else str in
    let odd = offset % 2 != 0 in
    let m2 = if odd then store m1 str1 b'0' else m1 in
    let str2 = if odd then str1 + 1 else str1 in
    if ltb offset 8 then some (store (write_back offset tmp m2 str2) (str2 + offset) 0) else none
