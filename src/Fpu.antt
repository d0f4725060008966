-- ===== src/Fpu.antt =====
-- src/kernel/fpu.c: the floating point unit. `cr4` is the control register.
use lappis.Base.{[], bit_or, ℕ, ◌∷◌}
use lappis.Machine.{Cmd, debug, emit, fldcw, mov_cr4, ok, ◌>>=◌, ◌>>◌}

abbrev pub read_cr4 : Cmd ℕ
read_cr4 m = ok m.cr4 m

abbrev pub write_cr4 : ℕ → Cmd (Unit {0})
write_cr4 value m = ok tt (record m { cr4 = value; trace = mov_cr4 value ∷ m.trace })

pub set_fpu_cw : ℕ → Cmd (Unit {0})
set_fpu_cw cw = emit (fldcw cw)

unfoldable pub enable_fpu : Cmd (Unit {0})
unfolding set_fpu_cw
enable_fpu = do
  debug "enable_fpu: enabling fpu" []
  cr4 ← read_cr4
  write_cr4 (bit_or cr4 0x200)
  set_fpu_cw 0x37F
  debug "enable_fpu: fpu enabled" []
