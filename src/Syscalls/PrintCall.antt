-- ===== src/Syscalls/PrintCall.antt =====
-- `sys_print_new` sends the program's bytes to the second serial port.
use lappis.Base.{
  All, List, [], ap, append-nil, arith, inl, inr, length, refl, ℕ, ◌++◌, ◌+◌, ◌<◌, ◌^◌, ◌∙◌, ◌∷◌,
  ◌≡◌, ◌≤◌, ◌⊎◌,
}
use lappis.Heap.{copy_user, cpu_flags_clear_ac, cpu_flags_set_ac, memcpy, userland_memcpy}
use lappis.Heap.Alloc.{IsHeap, malloc_lem}
use lappis.Heap.Userland.{MemcpyCopies}
use lappis.Machine.{
  Machine, Platform, Returns, Returns-bind, Returns-mono, and_then, clac, get_mem, stac, user_copy,
  ◌>>=◌,
}
use lappis.Machine.Memory.{
  Holds, Holds-same, Holds-store_list, SameBelow, Written, bytes_at, bytes_at-eq_of_Holds,
  store_list, store_list-SameBelow, store_list-Written,
}
use lappis.Serial.{debug_buffer, serial_com2_port}
use lappis.Serial.Text.{debug_buffer-Sends, sent_on}
use lappis.Serial.Wait.{sent}
use lappis.Syscalls.{sys_print_new}

-- Where the bytes were copied to: a block of the heap, or, where it has no room, address 0.
abbrev pub CopiedTo : List ℕ → Machine → Machine → Type 0
CopiedTo bs m m' =
    ((m.heap_current + length bs < m.heap_end) × SameBelow m.mem m'.mem m.heap_current)
    ⊎ ((m.heap_end ≤ m.heap_current + length bs) × Written m.mem 0 bs m'.mem)

module _ (p : Platform) (copies : MemcpyCopies p) (pos : 0 < p.rounds) where
  -- The copy to `k_p`, and the loop over it.
  copied_and_sent :
      (k_p u_str : ℕ) (bs : List ℕ) (m : Machine)
      → Holds m.mem u_str bs
      → All (λ b. b < 2 ^ 8) bs
      → Returns
          (λ _ m'.
            (m'.mem ≡ store_list m.mem k_p bs)
            × (sent_on serial_com2_port m'.trace ≡ sent_on serial_com2_port m.trace ++ bs))
          (and_then
            (userland_memcpy p k_p u_str (length bs) m)
            λ dest. get_mem >>= λ mem. debug_buffer p (bytes_at mem k_p (length bs)))
  unfolding userland_memcpy copy_user memcpy cpu_flags_set_ac cpu_flags_clear_ac
  copied_and_sent k_p u_str bs m held bytes =
      let copied =
        copies.delivers m.mem u_str (length bs) ∙ bytes_at-eq_of_Holds m.mem u_str bs held in
      let mem = store_list m.mem k_p bs in
      let back = bytes_at-eq_of_Holds mem k_p bs (Holds-store_list m.mem k_p bs bytes) in
      let before = sent_on serial_com2_port m.trace in
      rw (copied, back)
        (Returns-mono
          (debug_buffer-Sends p mem bs pos bytes
            (record m {
              mem = mem;
              trace = clac ∷ user_copy k_p u_str (length bs) ∷ stac ∷ m.trace;
            })
            refl)
          λ _ m' (same, sent). (
            same,
            sent
                ∙ ap (λ q. q ++ bs)
                    (append-nil ((before ++ []) ++ [])
                      ∙ append-nil (before ++ [])
                      ∙ append-nil before),
          ))

  -- A program's text goes out on COM2, byte for byte, whether or not the heap has room for it. Where
  -- it has room, nothing below the free part of the heap changes. Where it has none, the text is
  -- written over the first bytes of memory, from address 0 on, since the block is not checked. The
  -- text stands above the heap, and memcpy copies.
  pub sys_print_new_lem :
      (u_str : ℕ) (bs : List ℕ) (m : Machine)
      → IsHeap m
      → m.heap_end ≤ u_str
      → m.heap_end + length bs < 2 ^ 64
      → Holds m.mem u_str bs
      → All (λ b. b < 2 ^ 8) bs
      → Returns
          (λ _ m'.
            (sent_on serial_com2_port m'.trace ≡ sent_on serial_com2_port m.trace ++ bs)
            × CopiedTo bs m m')
          (sys_print_new p u_str (length bs) m)
  unfolding sys_print_new
  sys_print_new_lem u_str bs m heap above small held bytes =
      Returns-bind (malloc_lem (length bs) heap (omega (arith, heap.below_end, small)))
        λ k_p m1 out. elim out [
          | inl got ↦ rw got.start (
              Returns-mono
                (copied_and_sent m.heap_current u_str bs m1
                  (Holds-same m.mem m1.mem u_str bs
                    (λ a lo hi. ground (arith, got.contents a, got.start, got.fits)) held)
                  bytes)
                λ _ m' (mem, sent). (
                  sent ∙ ap (λ t. sent_on serial_com2_port t ++ bs) got.trace,
                  inl (
                    got.fits,
                    rw mem λ a lt.
                        (store_list-SameBelow m1.mem m.heap_current bs a lt
                          ∙ ground (arith, got.contents a, got.start)),
                  ),
                ))
          | inr refused ↦
              rw (refused.null_result, refused.unchanged)
                (Returns-mono (copied_and_sent 0 u_str bs _ held bytes) λ _ m' (mem, sent). (
                  sent ∙ ap (λ q. q ++ bs) (append-nil (sent_on serial_com2_port m.trace)),
                  inr (refused.full, rw mem (store_list-Written m.mem 0 bs bytes)),
                ))
        ]
