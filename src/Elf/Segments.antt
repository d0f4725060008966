-- ===== src/Elf/Segments.antt =====
-- src/kernel/elf2.c: the loops of `run_userland` over the section and program headers, and the copy
-- of the segment.
pub mod Enter
pub mod Phdr
pub mod Sections
pub mod Ready
pub mod Program
use lappis.Base.{[], add64, if◌then◌else◌, ltb, not, sub64, suc, zero, ℕ, ◌!=◌, ◌+◌, ◌==◌}
use lappis.Elf.{
  e_entry_at, e_phnum_at, e_phoff_at, e_shnum_at, e_shoff_at, field32, field64, note,
  parse_elf_header, sizeof_shdr,
}
use lappis.Heap.{malloc, null, userland_malloc, userland_memcpy}
use lappis.Machine.{
  Cmd, Platform, and_then, debug, entered, get_mem, pure, skip, stuck, ◌>>=◌, ◌>>◌,
}
use lappis.Machine.Memory.{load}
use lappis.Zip.Cursor.{read}

-- `enter_userland` of userland.asm, which ends in `sysret` and does not return.
abbrev pub enter_userland : ℕ → Cmd (Unit {0})
enter_userland entry_point m = entered entry_point m

module _ (p : Platform) where
  pub parse_program_segment_header : ℕ → ℕ → Cmd (ℕ × ℕ)
  parse_program_segment_header kernel_obj cur0 = do
    segment ← malloc sizeof_shdr
    (p_type, cur1) ← field32 p kernel_obj cur0 segment
    note "Segment type: %d" p_type
    (p_flags, cur2) ← field32 p kernel_obj cur1 (segment + 4)
    note "Segment flags: %d" p_flags
    (p_offset, cur3) ← field64 p kernel_obj cur2 (segment + 8)
    note "Segment offset: 0x%llx" p_offset
    (p_vaddr, cur4) ← field64 p kernel_obj cur3 (segment + 16)
    note "Segment virtual addr: 0x%llx" p_vaddr
    (p_paddr, cur5) ← field64 p kernel_obj cur4 (segment + 24)
    note "Segment physical addr: 0x%llx" p_paddr
    (p_filesz, cur6) ← field64 p kernel_obj cur5 (segment + 32)
    note "Segment size in file: 0x%llx" p_filesz
    (p_memsz, cur7) ← field64 p kernel_obj cur6 (segment + 40)
    note "Segment size in memory: 0x%llx" p_memsz
    (p_align, cur8) ← field64 p kernel_obj cur7 (segment + 48)
    note "Segment alignment: 0x%llx" p_align
    pure (segment, cur8)

  pub parse_section_header : ℕ → ℕ → Cmd (ℕ × ℕ)
  parse_section_header kernel_obj cur0 = do
    section_header ← malloc sizeof_shdr
    (sh_name, cur1) ← field32 p kernel_obj cur0 section_header
    note "Section name: %d" sh_name
    (sh_type, cur2) ← field32 p kernel_obj cur1 (section_header + 4)
    (sh_flags, cur3) ← field64 p kernel_obj cur2 (section_header + 8)
    (sh_addr, cur4) ← field64 p kernel_obj cur3 (section_header + 16)
    (sh_offset, cur5) ← field64 p kernel_obj cur4 (section_header + 24)
    (sh_size, cur6) ← field64 p kernel_obj cur5 (section_header + 32)
    (sh_link, cur7) ← field32 p kernel_obj cur6 (section_header + 40)
    (sh_info, cur8) ← field32 p kernel_obj cur7 (section_header + 44)
    (sh_addralign, cur9) ← field64 p kernel_obj cur8 (section_header + 48)
    (sh_entsize, cur10) ← field64 p kernel_obj cur9 (section_header + 56)
    pure (section_header, cur10)

  -- The loop over the section headers, which keeps none. `e_shnum` is read in every round.
  pub section_loop : ℕ → ℕ → ℕ → ℕ → ℕ → Cmd (Unit {0})
  section_loop zero kernel_obj header i cur = λ m. stuck
  section_loop (suc f) kernel_obj header i cur = do
    mem ← get_mem
    if not (ltb i (load mem (header + e_shnum_at) 2)) then skip else do
      (section_header, cur') ← parse_section_header kernel_obj cur
      section_loop f kernel_obj header (i + 1) cur'

  -- What is done with the first segment that is to be loaded.
  pub enter_segment : ℕ → ℕ → ℕ → Cmd (Unit {0})
  enter_segment kernel_obj header segment = do
    mem ← get_mem
    let p_filesz = load mem (segment + 32) 8
    let p_paddr = load mem (segment + 24) 8
    let pseg_cur = load mem (segment + 8) 8
    note "file size: 0x%llx" p_filesz
    note "pseg_cur: %d" pseg_cur
    kernel_code ← malloc p_filesz
    note "kernel_code: %p" kernel_code
    note "size: %p" p_filesz
    pseg_cur' ← read p kernel_obj p_filesz pseg_cur kernel_code
    note "pseg_cur: %d" pseg_cur'
    userland_code ← userland_malloc p_filesz
    dest ← userland_memcpy p userland_code kernel_code p_filesz
    mem' ← get_mem
    let entry = sub64 (load mem' (header + e_entry_at) 8) p_paddr
    note "kernel_code: %p" (add64 kernel_code entry)
    note "userland_code: %p" (add64 userland_code entry)
    enter_userland (add64 userland_code entry)

  -- The loop over the program headers: it ends at the first segment of type 1.
  pub segment_loop : ℕ → ℕ → ℕ → ℕ → ℕ → Cmd (Unit {0})
  segment_loop zero kernel_obj header i cur = λ m. stuck
  segment_loop (suc f) kernel_obj header i cur = do
    mem ← get_mem
    if not (ltb i (load mem (header + e_phnum_at) 2)) then skip else do
      (segment, cur') ← parse_program_segment_header kernel_obj cur
      mem' ← get_mem
      if load mem' segment 4 != 1
          then (do debug "not implemented!" []; segment_loop f kernel_obj header (i + 1) cur')
          else enter_segment kernel_obj header segment

  pub run_userland : ℕ → ℕ → Cmd (Unit {0})
  run_userland kernel_obj kernel_obj_size = do
    (header, cur) ← parse_elf_header p kernel_obj 0
    if header == null then debug "header is null" [] else do
      mem ← get_mem
      section_loop p.rounds kernel_obj header 0 (load mem (header + e_shoff_at) 8)
      mem' ← get_mem
      segment_loop p.rounds kernel_obj header 0 (load mem' (header + e_phoff_at) 8)
