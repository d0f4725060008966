-- ===== src/Mandel/Escape.antt =====
-- `mandel` finds the first escape of the orbit.
use lappis.Base.{
  Bool, Bool-cases, ap, arith, false, inl, inr, ltb-cases, refl, suc, true, zero, ℕ, ◌+◌, ◌-◌, ◌<◌,
  ◌^◌, ◌∙◌, ◌≡◌, ◌⊎◌,
}
use lappis.Mandel.{Doubles, iterations, mandel, mandel_loop, no_escape}

-- Complex numbers over any operations on doubles, written as the C orders the operations: the
-- square of a + bi is (a² - b²) + (ab·2)i.
module _ {ℓ} {W : Type ℓ} (d : Doubles W) where
  abbrev pub square : W × W → W × W
  square (a, b) = (d.minus (d.times a a) (d.times b b), d.times (d.times a b) (d.of_nat 2))

  abbrev pub add : W × W → W × W → W × W
  add (a, b) (a', b') = (d.plus a a', d.plus b b')

  abbrev pub norm : W × W → W
  norm (a, b) = d.plus (d.times a a) (d.times b b)

module _ {ℓ} {W : Type ℓ} (d : Doubles W) (cr ci : W) where
  -- The orbit of 0 under z ↦ z² + c.
  abbrev pub orbit : ℕ → W × W
  orbit zero = (d.of_nat 0, d.of_nat 0)
  orbit (suc n) = add d (square d (orbit n)) (cr, ci)

  -- The point behind round `i` is further from 0 than 2.
  abbrev pub escapes : ℕ → Bool
  escapes i = d.greater (norm d (orbit (suc i))) (d.of_nat 4)

  abbrev pub FirstEscape : ℕ → Type 0
  FirstEscape i = (escapes i ≡ true) × ((j : ℕ) → j < i → escapes j ≡ false)

  loop_lem :
      (left i : ℕ)
      → ((j : ℕ) → j < i → escapes j ≡ false)
      → ((n : ℕ) × (mandel_loop d left i cr ci (orbit i).0 (orbit i).1 ≡ n)
          × (n < i + left)
          × FirstEscape n)
        ⊎ ((mandel_loop d left i cr ci (orbit i).0 (orbit i).1 ≡ no_escape)
            × ((j : ℕ) → j < i + left → escapes j ≡ false))
  unfolding mandel_loop
  loop_lem zero i before = inr (refl, λ j lt. before j (omega (arith, lt)))
  loop_lem (suc left) i before = elim (Bool-cases (escapes i)) [
    | inl out ↦ inl (i, rw out refl, omega arith, (out, before))
    | inr inside ↦
        let so_far : (j : ℕ) → j < suc i → escapes j ≡ false = λ j lt. elim (ltb-cases j i) [
          | inl (t, below) ↦ before j below
          | inr (t, le) ↦ let at : j ≡ i = omega arith in ap escapes at ∙ inside
        ] in
        let shift : i + suc left ≡ suc i + left = omega arith in
        let one : i + 1 ≡ suc i = omega arith in
        rw (inside, shift, one) (loop_lem left (suc i) so_far)
  ]

  -- `mandel` returns the first of the twenty rounds behind which the squared distance from 0 of the
  -- orbit of 0 under z² + c is above 4, and -1 if it is behind none of them, whatever the arithmetic
  -- of a double is.
  pub mandel_lem :
      ((n : ℕ) × (mandel d cr ci ≡ n) × (n < 20) × FirstEscape n)
      ⊎ ((mandel d cr ci ≡ 2 ^ 32 - 1) × ((j : ℕ) → j < 20 → escapes j ≡ false))
  unfolding mandel
  mandel_lem = loop_lem iterations 0 (λ j lt. absurd (omega (arith, lt)))
