-- ===== src/Serial/Message.antt =====
-- The messages of the `debug` and `error` macros.
use lappis.Base.{All, List, String, [], codes, length, ℕ, ◌++◌, ◌+◌, ◌<◌, ◌^◌, ◌∷◌, ◌≡◌, ◌≤◌}
use lappis.Machine.{Machine, Platform}
use lappis.Serial.{serial_com1_port}
use lappis.Serial.Text.{sent_on}
use lappis.Strings.Decimal.Digits.{read_digits}
use lappis.Strings.Decimal.Itoa.{IsDecimal, decimal_value}
use lappis.Strings.Length.{IsCString, IsChar}
use lappis.Strings.Search.{Absent}

abbrev joined : List (List ℕ) → List ℕ
joined [] = []
joined (xs ∷ []) = xs
joined (xs ∷ ys ∷ rest) = xs ++ joined (ys ∷ rest)

-- A message, with the name of its file, of its function, its line number and its text.
abbrev pub message : List ℕ → List ℕ → List ℕ → List ℕ → List ℕ → List ℕ
message tag base func digits text = joined (
    tag
    ∷ (27 ∷ codes "[34m")
    ∷ base
    ∷ (27 ∷ codes "[0m")
    ∷ codes ":"
    ∷ (27 ∷ codes "[35m")
    ∷ func
    ∷ (27 ∷ codes "[0m")
    ∷ codes ":"
    ∷ (27 ∷ codes "[37m")
    ∷ digits
    ∷ (27 ∷ codes "[0m")
    ∷ codes " "
    ∷ text
    ∷ (10 ∷ [])
    ∷ [])

-- The file's path and the function's name stand below the local arrays, and the text fits.
pub record Placed (p : Platform) (buffer s_linenr filename func_name linenr : ℕ)
    (dirs base func : List ℕ) (m : Machine) : Type 0 where
  pub path : IsCString m.mem filename (dirs ++ b'/' ∷ base)
  pub last : Absent b'/' base
  pub name : IsCString m.mem func_name func
  pub base_chars : All IsChar base
  pub func_chars : All IsChar func
  pub path_below : filename + length (dirs ++ b'/' ∷ base) < buffer
  pub name_below : func_name + length func < buffer
  pub apart : buffer + 256 ≤ s_linenr
  pub addressable : s_linenr < 2 ^ 64
  pub path_short : length (dirs ++ b'/' ∷ base) < p.rounds
  pub path_small : length (dirs ++ b'/' ∷ base) < 2 ^ 32
  pub name_short : length func < p.rounds
  pub rounds : 256 ≤ p.rounds
  pub some_line : 0 < linenr
  pub line_small : linenr < 2 ^ 32

-- What a message leaves on COM1.
abbrev pub Logged :
    Platform → List ℕ → List ℕ → List ℕ → ℕ → String → List ℕ → Machine → Machine → Type 0
Logged p tag base func linenr format args m m' =
    (text : List ℕ) × (digits : List ℕ) × (p.format m.mem 256 format args ≡ text ++ 0 ∷ [])
    × All IsDecimal digits
    × (read_digits 10 decimal_value 0 digits ≡ linenr)
    × (sent_on serial_com1_port m'.trace
        ≡ sent_on serial_com1_port m.trace ++ message tag base func digits text)
