-- ===== src/Tests/Shell.antt =====
-- The shell's functions on short lines.
use lappis.Base.{List, [], arith, codes, inr, refl, some, ℕ, ◌++◌, ◌∷◌, ◌≡◌}
use lappis.Machine.{Mem}
use lappis.Machine.Memory.{store_list}
use lappis.Strings.Length.{IsCString, IsCString-stored}
use lappis.Userland.{Sprintf, elf_userland, get_line}
use lappis.Userland.Line.{IsLine, Line}
use lappis.Userland.Shell.{Transcript, all_typed, elf_userland_lem}
use lappis.Userland.Strip.{get_line_lem}

-- The literal, above the arrays as in the kernel: the program lies above its stack.
abbrev program_text : Mem
program_text = store_list (λ a. 0) 0x1000 (codes "pwd" ++ 0 ∷ [])

literal_stands : IsCString program_text 0x1000 (codes "pwd")
literal_stands = IsCString-stored (λ a. 0) 0x1000 (codes "pwd") (omega arith)

get_line_lem_example :
    get_line (b'l' ∷ b's' ∷ 10 ∷ b'x' ∷ []) program_text 64
    ≡ some (store_list program_text 64 (b'l' ∷ b's' ∷ []), b'x' ∷ [])
get_line_lem_example =
    get_line_lem program_text 64 (b'l' ∷ b's' ∷ []) 10 (b'x' ∷ [])
      ((omega arith, omega arith), ((omega arith, omega arith), tt)) (inr refl) (omega arith)

-- The format is left out of a text.
abbrev bare : Sprintf
bare format text = codes text ++ 0 ∷ []

abbrev pwd_line : Line
pwd_line = record { first = b'p'; middle = b'w' ∷ []; last = b'd'; blanks = b' ' ∷ [] }

abbrev ls_line : Line
ls_line = record { first = b'l'; middle = []; last = b's'; blanks = [] }

pwd_line-IsLine : IsLine pwd_line
pwd_line-IsLine = record {
  plain = omega arith;
  ink = refl;
  blanks = (refl, tt);
  short = omega arith;
}

ls_line-IsLine : IsLine ls_line
ls_line-IsLine = record { plain = omega arith; ink = refl; blanks = tt; short = omega arith }

elf_userland_lem_example :
    (m' : Mem) × (out : List ℕ) × (elf_userland bare 200 0x200 0x300 0x1000 0x100 2
        (all_typed (ls_line ∷ pwd_line ∷ []) ++ b'x' ∷ [])
        program_text
      ≡ some (m', codes "from userland" ++ out, b'x' ∷ []))
    × Transcript (codes "/") (ls_line ∷ pwd_line ∷ []) out
elf_userland_lem_example =
    elf_userland_lem bare 200 0x200 0x300 0x1000 (codes "/")
      (record { is = refl; chars = omega arith; short = omega arith }) (inr (omega arith))
      (inr (omega arith)) (omega arith) (omega arith) 0x100 (codes "from userland")
      (ls_line ∷ pwd_line ∷ []) (b'x' ∷ []) program_text refl (omega arith) (omega arith)
      (inr (omega arith)) (ls_line-IsLine, (pwd_line-IsLine, tt)) literal_stands
