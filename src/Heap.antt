-- ===== src/Heap.antt =====
-- src/kernel/heap.c: the bump allocators of the kernel and of userland.
pub mod Alloc
pub mod Sequence
pub mod Userland
use lappis.Base.{[], add64, if◌then◌else◌, leb, ltb, ℕ, ◌+◌, ◌∷◌}
use lappis.Machine.{
  Cmd, Machine, Platform, and_then, clac, emit, error, ok, pure, stac, stuck, user_copy, user_fill,
  ◌>>=◌, ◌>>◌,
}
use lappis.Machine.Memory.{fill, store_list}

abbrev pub null : ℕ
null = 0

abbrev pub page_size : ℕ
page_size = 0x200000

-- What `malloc` leaves behind when it succeeds.
abbrev pub after_malloc : ℕ → Machine → Machine
after_malloc size m = record m {
  mem = fill m.mem m.heap_current size 0;
  heap_current = add64 m.heap_current size;
}

-- `heap_current + size` is a 64-bit address, so it wraps. Where a sum that has wrapped passes the
-- test, the zeroing runs over the end of the heap into its guard page and does not come back.
unfoldable pub malloc : ℕ → Cmd ℕ
malloc size m =
    if leb m.heap_end (add64 m.heap_current size)
    then (error "Out of heap memory, cur: %p, size: %d, heap_end: %p"
            (m.heap_current ∷ size ∷ m.heap_end ∷ [])
          >> pure null)
        m
    else if ltb m.heap_end (m.heap_current + size)
    then stuck
    else ok m.heap_current (after_malloc size m)

unfoldable pub cpu_flags_set_ac : Cmd (Unit {0})
cpu_flags_set_ac = emit stac

unfoldable pub cpu_flags_clear_ac : Cmd (Unit {0})
cpu_flags_clear_ac = emit clac

-- The zeroing of the block, which SMAP checks, and the new `userland_heap_current`.
userland_take : ℕ → Cmd ℕ
userland_take size m = ok m.userland_heap_current (record m {
  mem = fill m.mem m.userland_heap_current size 0;
  userland_heap_current = add64 m.userland_heap_current size;
  trace = user_fill m.userland_heap_current size ∷ m.trace;
})

unfoldable pub userland_malloc : ℕ → Cmd ℕ
unfolding userland_take cpu_flags_set_ac cpu_flags_clear_ac
userland_malloc size m =
    if leb m.userland_heap_end (add64 m.userland_heap_current size)
    then (error "Out of userland heap memory" [] >> pure null) m
    else if ltb m.userland_heap_end (m.userland_heap_current + size)
    then stuck
    else (do cpu_flags_set_ac; ptr ← userland_take size; cpu_flags_clear_ac; pure ptr) m

module _ (p : Platform) where
  -- `memcpy(destination, source, size)`, which returns its destination.
  unfoldable pub memcpy : ℕ → ℕ → ℕ → Cmd ℕ
  memcpy destination source size m =
      ok destination (record m { mem = store_list m.mem destination (p.copied m.mem source size) })

  -- The copy that SMAP checks.
  unfoldable pub copy_user : ℕ → ℕ → ℕ → Cmd ℕ
  copy_user destination source size m =
      memcpy destination source size
        (record m { trace = user_copy destination source size ∷ m.trace })

  unfoldable pub userland_memcpy : ℕ → ℕ → ℕ → Cmd ℕ
  unfolding copy_user memcpy cpu_flags_set_ac cpu_flags_clear_ac
  userland_memcpy destination source size = do
    cpu_flags_set_ac
    ret ← copy_user destination source size
    cpu_flags_clear_ac
    pure ret

  abbrev pub heap_start_addr : ℕ
  heap_start_addr = p.kernel_data + 0x100000

  abbrev pub userland_heap_start_addr : ℕ
  userland_heap_start_addr = p.userland + page_size + 0x100000

  unfoldable pub init_heap : Cmd (Unit {0})
  init_heap m = ok tt (record m {
    heap_start = heap_start_addr;
    heap_end = p.kernel_data_end;
    heap_current = heap_start_addr;
  })

  unfoldable pub init_userland_heap : Cmd (Unit {0})
  init_userland_heap m = ok tt (record m {
    userland_heap_start = userland_heap_start_addr;
    userland_heap_end = p.userland_end;
    userland_heap_current = userland_heap_start_addr;
  })
