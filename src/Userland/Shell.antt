-- ===== src/Userland/Shell.antt =====
-- The shell of src/userland/userland.c answers `pwd`, and nothing else.
use mathlib.Core.Option
use lappis.Base.{
  All, Bool-cases, List, [], ap, append_assoc, arith, codes, inl, inr, length, length-append, refl,
  some, suc, sym, true≢false, ℕ, ◌++◌, ◌+◌, ◌<◌, ◌^◌, ◌∙◌, ◌∷◌, ◌≡◌, ◌≢◌, ◌≤◌, ◌⊎◌,
}
use lappis.Machine.{Mem}
use lappis.Machine.Memory.{fill, fill_lem, store, store_list}
use lappis.Strings.Length.{IsCString, IsCString-same, IsChar}
use lappis.Userland.{Sprintf, elf_userland, memset, reply, shell_round, shell_rounds}
use lappis.Userland.Line.{
  All-chars, All-plain, Answers, Disjoint, Disjoint-IsOff, IsCString-zeroed, IsLine, Line,
  characters, fill_off, printed_text, store_list_off, store_off, text_of,
}
use lappis.Userland.Strip.{get_line_lem, strcmp_lem, strip_lem}

abbrev pub pwd_text : List ℕ
pwd_text = codes "pwd"

-- What a session prints: the answer for each line that is `pwd` but for blanks at its end, and
-- nothing for any other.
pub data Transcript (answer : List ℕ) : List Line → List ℕ → Type 0 where
  silent : Transcript answer [] []
  answered :
      {l : Line} {ls : List Line} {out : List ℕ}
      → text_of l ≡ pwd_text
      → Transcript answer ls out
      → Transcript answer (l ∷ ls) (answer ++ out)
  ignored :
      {l : Line} {ls : List Line} {out : List ℕ}
      → text_of l ≢ pwd_text
      → Transcript answer ls out
      → Transcript answer (l ∷ ls) out

-- The characters of a line, and the key that ends it.
abbrev pub typed : Line → List ℕ
typed l = characters l ++ 10 ∷ []

-- The keys of some lines, one behind the other.
abbrev pub all_typed : List Line → List ℕ
all_typed [] = []
all_typed (l ∷ ls) = typed l ++ all_typed ls

module _ (sprintf : Sprintf) (rounds printl readl pwd : ℕ) (answer : List ℕ)
    (answers : Answers sprintf answer) (off_print : Disjoint pwd printl)
    (off_read : Disjoint pwd readl) (enough : 128 < rounds) (int : rounds < 2 ^ 31) where
  -- What a round prints, and that the literal stays.
  record Round (l : Line) (unread : List ℕ) (m : Mem) : Type 0 where
    mem : Mem
    printed : List ℕ
    ran :
        shell_round sprintf rounds printl readl pwd (typed l ++ unread) m
        ≡ some (mem, printed, unread)
    literal : IsCString mem pwd pwd_text
    reply_is :
        ((text_of l ≡ pwd_text) × (printed ≡ answer)) ⊎ ((text_of l ≢ pwd_text) × (printed ≡ []))

  round_lem :
      (l : Line) (unread : List ℕ) (m : Mem)
      → IsLine l
      → IsCString m pwd pwd_text
      → Round l unread m
  unfolding shell_round reply memset store Option.bind Option.map
  round_lem l unread m h literal =
      let cleared = fill (fill m printl 128 0) readl 128 0 in
      let cs = characters l in
      let m1 = store_list cleared readl cs in
      let got =
        get_line_lem cleared readl cs 10 unread (All-plain cs h.plain) (inr refl)
          (omega (arith, h.short)) in
      let keys : typed l ++ unread ≡ cs ++ 10 ∷ unread = append_assoc cs (10 ∷ []) unread in
      let zeroed : cleared (readl + length cs) ≡ 0 =
        ground (arith, fill_lem (fill m printl 128 0) readl 128 0 (readl + length cs), h.short) in
      let line =
        IsCString-zeroed cleared readl (readl + length cs) cs (All-chars cs h.plain) refl zeroed in
      let (stripped, text) =
        strip_lem rounds m1 readl l.first l.last l.middle l.blanks line h.ink h.blanks
          (omega (arith, h.short, enough)) int in
      let m2 = store m1 (readl + suc (suc (length l.middle))) 0 in
      let sizes = length-append (text_of l) l.blanks in
      let sizes' = length-append l.middle (l.last ∷ []) in
      let kept : (a : ℕ) → pwd ≤ a → a < pwd + 4 → m2 a ≡ m a = λ a lo hi.
        let read = Disjoint-IsOff pwd readl a off_read lo hi in
        store_off m1 readl (suc (suc (length l.middle))) 0 a (omega (arith, h.short, sizes, sizes'))
          read
        ∙ store_list_off cleared readl cs a (omega (arith, h.short)) read
        ∙ fill_off (fill m printl 128 0) readl 0 a read
        ∙ fill_off m printl 0 a (Disjoint-IsOff pwd printl a off_print lo hi) in
      let lit2 =
        IsCString-same m m2 pwd pwd_text (λ a lo hi. kept a lo (omega (arith, hi))) literal in
      let (same, compared, decides) =
        strcmp_lem rounds m2 readl pwd (text_of l) pwd_text text lit2
          (
            omega (arith, h.short, enough, length-append (text_of l) l.blanks),
            omega (arith, enough),
          )
          int in
      let m3 = store_list m2 printl (answer ++ 0 ∷ []) in
      let (size, back) =
        printed_text rounds m2 printl answer answers.chars answers.short enough int in
      elim (Bool-cases same) [
        | inl said ↦ record {
          mem = m3;
          printed = answer;
          ran =
              rw (keys, got, stripped, compared, said, answers.is, size)
                (ap (λ bs. some (m3, bs, unread)) back);
          literal =
              IsCString-same m2 m3 pwd pwd_text
                (λ a lo hi.
                  store_list_off m2 printl (answer ++ 0 ∷ []) a
                    (omega (arith, length-append answer (0 ∷ []), answers.short))
                    (Disjoint-IsOff pwd printl a off_print lo (omega (arith, hi))))
                lit2;
          reply_is = inl (decides.0 said, refl);
        }
        | inr differs ↦ record {
          mem = m2;
          printed = [];
          ran = rw (keys, got, stripped, compared, differs) refl;
          literal = lit2;
          reply_is = inr ((λ e. true≢false (sym (decides.1 e) ∙ differs)), refl);
        }
      ]

  rounds_lem :
      (ls : List Line) (unread : List ℕ) (m : Mem)
      → All IsLine ls
      → IsCString m pwd pwd_text
      → (m' : Mem) × (out : List ℕ) × (shell_rounds sprintf rounds printl readl pwd
            (length ls)
            (all_typed ls ++ unread)
            m
          ≡ some (m', out, unread))
        × Transcript answer ls out
  unfolding shell_rounds Option.bind Option.map
  rounds_lem [] unread m h literal = (m, [], refl, silent)
  rounds_lem (l ∷ ls) unread m h literal =
      let r = round_lem l (all_typed ls ++ unread) m h.0 literal in
      let (m', out, ran, transcript) = rounds_lem ls unread r.mem h.1 r.literal in
      let keys = append_assoc (typed l) (all_typed ls) unread in
      elim r.reply_is [
        | inl (this, printed) ↦
            (m', answer ++ out, rw (keys, r.ran, ran, printed) refl, answered this transcript)
        | inr (other, printed) ↦
            (m', out, rw (keys, r.ran, ran, printed) refl, ignored other transcript)
      ]

  -- A session of `elf_userland` prints its greeting, and then the answer to each line that is `pwd`
  -- but for blanks at its end, in order, and nothing for any other line, and leaves unread what
  -- was typed behind the lines. Each line is shorter than its array, has no NUL, and has at least two
  -- characters before the blanks at its end; no array overlaps the literal, and sprintf makes texts
  -- that fit the arrays.
  pub elf_userland_lem :
      (buf : ℕ) (hello : List ℕ) (ls : List Line) (unread : List ℕ) (m : Mem)
      → sprintf "Hello, %s!" "from userland" ≡ hello ++ 0 ∷ []
      → All IsChar hello
      → length hello < 128
      → Disjoint pwd buf
      → All IsLine ls
      → IsCString m pwd pwd_text
      → (m' : Mem) × (out : List ℕ) × (elf_userland sprintf rounds printl readl pwd buf
            (length ls)
            (all_typed ls ++ unread)
            m
          ≡ some (m', hello ++ out, unread))
        × Transcript answer ls out
  unfolding elf_userland Option.bind Option.map
  elf_userland_lem buf hello ls unread m greeting chars short off_buf h literal =
      let m1 = store_list m buf (hello ++ 0 ∷ []) in
      let (size, back) = printed_text rounds m buf hello chars short enough int in
      let (m', out, ran, transcript) = rounds_lem ls unread m1 h (
        IsCString-same m m1 pwd pwd_text
          (λ a lo hi.
            store_list_off m buf (hello ++ 0 ∷ []) a
              (omega (arith, length-append hello (0 ∷ []), short))
              (Disjoint-IsOff pwd buf a off_buf lo (omega (arith, hi))))
          literal) in
      (m', out, rw (greeting, size, ran, back) refl, transcript)
