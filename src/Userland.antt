-- ===== src/Userland.antt =====
-- src/userland/userland.c: the string functions of the shell, the line that it reads, and its rounds.
pub mod Strip
pub mod Line
pub mod Shell
use mathlib.Core.Option
use lappis.Base.{
  Bool, List, Option, String, [], add64, false, if◌then◌else◌, none, not, some, suc, zero, ℕ, ◌!=◌,
  ◌++◌, ◌+◌, ◌-◌, ◌==◌, ◌||◌, ◌∷◌,
}
use lappis.Machine.{Mem}
use lappis.Machine.Memory.{bytes_at, fill, store, store_list}
use lappis.Strings.{same_bytes}

-- `strlen`, whose result has 64 bits.
strlen_loop : ℕ → Mem → ℕ → ℕ → Option ℕ
strlen_loop zero m s len = none
strlen_loop (suc f) m s len =
    let rest = strlen_loop f m (s + 1) (add64 len 1) in if m s == 0 then some len else rest

pub strlen : ℕ → Mem → ℕ → Option ℕ
strlen rounds m s = strlen_loop rounds m s 0

-- The characters that `strip` removes.
abbrev pub is_blank : ℕ → Bool
is_blank c = c == b' ' || c == 10 || c == 9

-- `for (i = strlen(s) - 1; i > 0; i--)`, from `i` on. A loop that reaches index 0 writes nothing.
pub strip_loop : Mem → ℕ → ℕ → ℕ → Mem
strip_loop m s kill zero = m
strip_loop m s kill (suc i) =
    let rest = strip_loop m s (suc i) i in
    if is_blank (m (s + suc i)) then rest else store m (s + kill) 0

-- The lengths are below 2 ^ 31; of the empty string, `i` starts at -1.
pub strip : ℕ → Mem → ℕ → Option Mem
strip rounds m s = Option.map (λ len. strip_loop m s len (len - 1)) (strlen rounds m s)

pub strcmp : ℕ → Mem → ℕ → ℕ → Option Bool
strcmp rounds m a b = Option.bind (strlen rounds m a) λ n1.
    Option.bind (strlen rounds m b) λ n2. some (if n1 != n2 then false else same_bytes n1 m a b)

-- `len` is signed, and not negative at the calls.
pub memset : Mem → ℕ → ℕ → ℕ → Mem
memset m p c len = fill m p len c

-- `get_line` over the characters that `sys_getch` delivers, with the index so far, and the characters
-- that it leaves. It is still waiting when they end before a NUL or the end of the line.
pub get_line_loop : List ℕ → Mem → ℕ → ℕ → Option (Mem × List ℕ)
get_line_loop [] m line i = none
get_line_loop (c ∷ typed) m line i =
    if c == 0 || c == 10
    then some (m, typed)
    else get_line_loop typed (store m (line + i) c) line (add64 i 1)

pub get_line : List ℕ → Mem → ℕ → Option (Mem × List ℕ)
get_line typed m line = get_line_loop typed m line 0

-- `sprintf` of src/userland/tinyprintf.c, its NUL included, for a format and a text.
abbrev pub Sprintf : Type 0
Sprintf = String → String → List ℕ

module _ (sprintf : Sprintf) (rounds printl readl pwd : ℕ) where
  -- What is printed for a line. The literal "pwd" stands at `pwd`.
  reply : Mem → Bool → Option (Mem × List ℕ)
  reply m same =
      if not same
      then some (m, [])
      else let m' = store_list m printl (sprintf "> %s\n" "/") in
        Option.map (λ len. (m', bytes_at m' printl len)) (strlen rounds m' printl)

  -- One round of `elf_userland`, over the characters typed: what it prints, and what is left.
  pub shell_round : List ℕ → Mem → Option (Mem × List ℕ × List ℕ)
  shell_round typed m =
      let cleared = memset (memset m printl 0 128) readl 0 128 in
      Option.bind (get_line typed cleared readl) λ (m1, unread).
        Option.bind (strip rounds m1 readl) λ m2.
          Option.bind (strcmp rounds m2 readl pwd)
            λ same. Option.map (λ (m', printed). (m', printed, unread)) (reply m2 same)

  -- The loop, which has no end, for a number of its rounds.
  pub shell_rounds : ℕ → List ℕ → Mem → Option (Mem × List ℕ × List ℕ)
  shell_rounds zero typed m = some (m, [], typed)
  shell_rounds (suc n) typed m = Option.bind (shell_round typed m) λ (m', printed, unread).
      Option.map (λ (m'', later, left). (m'', printed ++ later, left)) (shell_rounds n unread m')

  -- The greeting is printed from the local array `buf`.
  pub elf_userland : ℕ → ℕ → List ℕ → Mem → Option (Mem × List ℕ × List ℕ)
  elf_userland buf n typed m =
      let m' = store_list m buf (sprintf "Hello, %s!" "from userland") in
      Option.bind (strlen rounds m' buf) λ len.
        Option.map (λ (m'', later, left). (m'', bytes_at m' buf len ++ later, left))
          (shell_rounds n typed m')
