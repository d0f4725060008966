-- ===== src/Idt/Timer.antt =====
-- `sleep` and the interrupts that end it.
use lappis.Base.{
  List, [], ap, arith, if◌then◌else◌, inl, inr, length, ltb, ltb-cases, lt→ltb, refl, suc, zero, ℕ,
  ◌+◌, ◌-◌, ◌<◌, ◌∙◌, ◌∷◌, ◌≡◌, ◌≤◌, ◌⊎◌,
}
use lappis.Idt.{Halt, Interrupt, handle_all, other_irq, sleep, sleep_loop, timer_handler, timer_irq}
use lappis.Machine.{Machine, hlt, ok, out_byte, stuck}
use lappis.Machine.Ports.{outb}
use lappis.Pic.{pic_send_eoi}

-- How many of the interrupts are the timer's.
abbrev pub timers : List Interrupt → ℕ
timers [] = 0
timers (timer_irq ∷ irqs) = 1 + timers irqs
timers (other_irq handler ∷ irqs) = timers irqs

abbrev pub ticks : List Halt → ℕ
ticks [] = 0
ticks (r ∷ halts) = timers r.before + timers (r.wake ∷ r.after) + ticks halts

abbrev pub take_halts : ℕ → List Halt → List Halt
take_halts zero halts = []
take_halts (suc n) [] = []
take_halts (suc n) (r ∷ halts) = r ∷ take_halts n halts

-- The machine behind the handlers: the timer's acknowledges both interrupt controllers.
abbrev pub handled : List Interrupt → Machine → Machine
handled [] m = m
handled (timer_irq ∷ irqs) m =
    handled irqs (record m { trace = out_byte 0x20 0x20 ∷ out_byte 0xA0 0x20 ∷ m.trace })
handled (other_irq handler ∷ irqs) m = handled irqs (handler m)

-- The machine behind one `hlt` for each round.
abbrev pub halted : List Halt → Machine → Machine
halted [] m = m
halted (r ∷ halts) m =
    let m1 = handled r.before m in
    halted halts (handled (r.wake ∷ r.after) (record m1 { trace = hlt ∷ m1.trace }))

handle_all_lem :
    (irqs : List Interrupt) (c : ℕ) (m : Machine)
    → handle_all irqs c m ≡ ok (c - timers irqs) (handled irqs m)
unfolding handle_all timer_handler pic_send_eoi outb
handle_all_lem [] c m = ap (λ n. ok n m) (omega arith)
handle_all_lem (timer_irq ∷ irqs) c m =
    let less : (if ltb 0 c then c - 1 else c) ≡ c - 1 = ground arith in
    rw less (
      handle_all_lem irqs (c - 1) _
      ∙ ap
          (λ n.
            ok n (
              handled irqs
                (record m { trace = out_byte 0x20 0x20 ∷ out_byte 0xA0 0x20 ∷ m.trace })))
          (omega arith))
handle_all_lem (other_irq handler ∷ irqs) c m = handle_all_lem irqs c (handler m)

-- `n` is the least number of rounds whose interrupts bring the countdown from `c` to 0.
pub record LeastHalts (c : ℕ) (halts : List Halt) (n : ℕ) : Type 0 where
  pub within : n ≤ length halts
  pub enough : c ≤ ticks (take_halts n halts)
  pub fewest : (k : ℕ) → k < n → ticks (take_halts k halts) < c

loop_step :
    (r : Halt) (halts : List Halt) (c : ℕ) (m : Machine)
    → 0 < c
    → sleep_loop (r ∷ halts) c m
      ≡ sleep_loop halts (c - timers r.before - timers (r.wake ∷ r.after)) (halted (r ∷ []) m)
unfolding sleep_loop
loop_step r halts c m pos =
    let m1 = handled r.before m in
    rw
      (
        lt→ltb 0 c pos,
        handle_all_lem r.before c m,
        handle_all_lem (r.wake ∷ r.after) (c - timers r.before)
            (record m1 { trace = hlt ∷ m1.trace }),
      )
      refl

sleep_loop_lem :
    (halts : List Halt) (c : ℕ) (m : Machine)
    → c ≤ ticks halts
    → (n : ℕ) × LeastHalts c halts n × (sleep_loop halts c m ≡ ok 0 (halted (take_halts n halts) m))
unfolding sleep_loop
sleep_loop_lem [] c m le =
    let none_left : c ≡ 0 = omega (arith, le) in
    (
      0,
      record {
        within = omega arith;
        enough = omega (arith, le);
        fewest = λ k lt. absurd (omega (arith, lt));
      },
      rw none_left refl,
    )
sleep_loop_lem (r ∷ halts) c m le = elim (ltb-cases 0 c) [
  | inl (t, pos) ↦
      let t1 = timers r.before in
      let t2 = timers (r.wake ∷ r.after) in
      let (n, least, ran) =
        sleep_loop_lem halts (c - t1 - t2) (halted (r ∷ []) m) (omega (arith, le)) in
      (
        suc n,
        record {
          within = omega (arith, least.within);
          enough = omega (arith, least.enough);
          fewest = λ k lt. fewest n least pos k lt;
        },
        loop_step r halts c m pos ∙ ran,
      )
  | inr (t, none_left) ↦ (
    0,
    record {
      within = omega arith;
      enough = omega (arith, none_left);
      fewest = λ k lt. absurd (omega (arith, lt));
    },
    rw t (ap (λ n. ok n m) (omega (arith, none_left))),
  )
]
  where
    fewest :
        (n : ℕ)
        → LeastHalts (c - timers r.before - timers (r.wake ∷ r.after)) halts n
        → 0 < c
        → (k : ℕ) → k < suc n
        → ticks (take_halts k (r ∷ halts)) < c
    fewest n least pos zero lt = pos
    fewest n least pos (suc k) lt = omega (arith, least.fewest k (omega (arith, lt)))

sleep_loop-stuck :
    (halts : List Halt) (c : ℕ) (m : Machine) → ticks halts < c → sleep_loop halts c m ≡ stuck
unfolding sleep_loop
sleep_loop-stuck [] c m lt = rw (lt→ltb 0 c (omega (arith, lt)))
sleep_loop-stuck (r ∷ halts) c m lt =
    loop_step r halts c m (omega (arith, lt))
    ∙ sleep_loop-stuck halts (c - timers r.before - timers (r.wake ∷ r.after)) (halted (r ∷ []) m)
        (omega (arith, lt))

-- Whatever interrupts arrive and when: where at least `ms` of them are the timer's, `sleep` ends with
-- the countdown at 0, behind the least number of halts whose interrupts bring these `ms` ticks, those
-- before the first test included, and all interrupts up to there are handled, once each and in their
-- order. Where fewer are, it does not end. The interrupts to come are a finite list, and the other
-- handlers leave `countdown` alone.
pub sleep_lem :
    (armed : List Interrupt) (halts : List Halt) (ms : ℕ) (m : Machine)
    → ((ms ≤ timers armed + ticks halts)
        × ((n : ℕ) × LeastHalts (ms - timers armed) halts n
            × (sleep armed halts ms m ≡ ok 0 (halted (take_halts n halts) (handled armed m)))))
      ⊎ ((timers armed + ticks halts < ms) × (sleep armed halts ms m ≡ stuck))
unfolding sleep
sleep_lem armed halts ms m =
    let start = handle_all_lem armed ms m in
    elim (ltb-cases (timers armed + ticks halts) ms) [
      | inl (t, few) ↦ inr (
        few,
        rw start
            (sleep_loop-stuck halts (ms - timers armed) (handled armed m) (omega (arith, few))),
      )
      | inr (t, enough) ↦ inl (
        enough,
        rw start
            (sleep_loop_lem halts (ms - timers armed) (handled armed m) (omega (arith, enough))),
      )
    ]
