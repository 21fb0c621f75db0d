-- ===== src/Rk23s/Exact.antt =====
-- RK23SSolver::Step on y0' = 1, y1' = y0, in exact arithmetic.
use odeclient_server.Base.Lists.{HasSize, if◌then◌else◌, ◌≡◌, ◌∙◌, refl, sym, ap, [], ◌∷◌}
use odeclient_server.Base.Outcome.{Outcome, Yields-value, ok}
use odeclient_server.Base.Double.{max, min, Double, lit, ◌+◌, ◌*◌, ◌/◌, lt}
use odeclient_server.Base.Ring.{plus_times, times_one}
use odeclient_server.Base.Field.{
  FieldLaws, ne_times, quotient_plus, quotient_times, quotient_self, quotient_cancel,
}
use odeclient_server.Vectors.{multiply_scalar_by_vector as mul, add_vectors}
use odeclient_server.Solver.{accepted, rejected}
use odeclient_server.Solver.Parabola.{parabola, exact, stage, weighted, gathered, first_stage}
use odeclient_server.Rk23s.{
  ratio, min_scale, max_scale, combine, compute_error, step, p1, p2, p3, beta21, beta31, beta32,
}
use odeclient_server.Rk23s.Step.{compute_error-Yields}

module _ {ℓ} {W : Type ℓ} ⦃d : Double W⦄ where
  -- The first components of the points of the second and of the third stage.
  abbrev pub second_node : W → W → W
  second_node x h = x + beta21 * (h * lit 1 0)

  abbrev pub third_node : W → W → W
  third_node x h = x + (beta31 * (h * lit 1 0) + beta32 * (h * lit 1 0))

  -- What `computeError` comes to on the three stages.
  abbrev pub error_at : W → W → W → Outcome W
  error_at x h tolerance =
      compute_error (stage h x) (stage h (second_node x h)) (stage h (third_node x h)) h tolerance

module _ {ℓ} {W : Type ℓ} ⦃d : Double W⦄ (field : FieldLaws W) where
  -- The weights sum to 1.
  weights : p1 {W = W} + (p2 + p3) ≡ lit 1 0
  weights =
      let ne4 = ne_times field 2 2 field.two_ne field.two_ne in
      let ne8 = ne_times field 2 4 field.two_ne ne4 in
      ap (λ r. p1 + r) (quotient_plus field 15 9 32 ∙ quotient_cancel field 8 3 4 ne8 ne4)
      ∙ quotient_plus field 1 3 4
      ∙ quotient_self field 4 ne4

  -- The weights times the nodes sum to 1/2.
  moment : p2 {W = W} * beta21 + p3 * (beta31 + beta32) ≡ lit 1 0 / lit 2 0
  moment =
      let ne4 = ne_times field 2 2 field.two_ne field.two_ne in
      let ne32 = ne_times field 8 4 (ne_times field 2 4 field.two_ne ne4) ne4 in
      let ne48 = ne_times field 16 3 (ne_times field 4 4 ne4 ne4) field.three_ne in
      ap (λ r. p2 * beta21 + p3 * r) (quotient_plus field 1 1 3)
      ∙ ap (λ r. r + p3 * (lit 2 0 / lit 3 0)) (quotient_times field 15 32 2 3 ne32 field.three_ne)
      ∙ ap (λ r. lit 30 0 / lit 96 0 + r) (quotient_times field 9 32 2 3 ne32 field.three_ne)
      ∙ quotient_plus field 30 18 96
      ∙ quotient_cancel field 48 1 2 ne48 field.two_ne

  combine-exact :
      (x y h : W)
      → combine (x ∷ y ∷ []) (stage h x) (stage h (second_node x h)) (stage h (third_node x h))
        ≡ ok (exact x y h)
  unfolding combine mul add_vectors
  combine-exact x y h =
      let ring = field.ring in
      let s = h * lit 1 0 in
      let first : x + (p1 * s + (p2 * s + p3 * s)) ≡ x + h =
        ap (λ r. x + r)
          (ap (λ r. p1 * s + r) (sym (plus_times ring p2 p3 s))
            ∙ sym (plus_times ring p1 (p2 + p3) s)
            ∙ ap (λ r. r * s) weights
            ∙ ring.one_times s
            ∙ times_one ring h) in
      let third : p3 * (h * (x + (beta31 * s + beta32 * s)))
          ≡ p3 * (h * x) + (p3 * (beta31 + beta32)) * (h * h) =
        ap (λ r. p3 * (h * (x + r))) (sym (plus_times ring beta31 beta32 s))
        ∙ weighted ring h x p3 (beta31 + beta32) in
      let second : p1 * (h * x)
            + (p2 * (h * (x + beta21 * s)) + p3 * (h * (x + (beta31 * s + beta32 * s))))
          ≡ h * x + (lit 1 0 / lit 2 0) * (h * h) =
        ap (λ r. p1 * (h * x) + (r + p3 * (h * (x + (beta31 * s + beta32 * s)))))
          (weighted ring h x p2 beta21)
        ∙ ap (λ r. p1 * (h * x) + ((p2 * (h * x) + (p2 * beta21) * (h * h)) + r)) third
        ∙ ap (λ r. p1 * (h * x) + r)
            (gathered ring h x p2 p3 (p2 * beta21) (p3 * (beta31 + beta32)))
        ∙ first_stage ring h x p1 (p2 + p3) (p2 * beta21 + p3 * (beta31 + beta32))
        ∙ ap (λ r. r * (h * x) + (p2 * beta21 + p3 * (beta31 + beta32)) * (h * h)) weights
        ∙ ap (λ r. r + (p2 * beta21 + p3 * (beta31 + beta32)) * (h * h)) (ring.one_times (h * x))
        ∙ ap (λ r. h * x + r * (h * h)) moment in
      rw (first, second) refl

  -- In exact arithmetic, on y0' = 1, y1' = y0, `computeError` of RK23SSolver returns an error, and
  -- `Step` either accepts, where the error is not above the tolerance, and leads to (x + h, y + h x
  -- + h^2 / 2), the solution after h, or rejects; both scale h by the factor of the error. Exact
  -- arithmetic is that +, * and / meet the laws of a field in which 2 and 3 are not 0 and the
  -- integer literals are sums of ones.
  pub rk23s_step-exact :
      (t x y h tolerance : W)
      → (error : W) × (error_at x h tolerance ≡ ok error)
        × (step parabola t (x ∷ y ∷ []) h tolerance ≡ (
            if lt tolerance error
            then ok (rejected (h * max (ratio tolerance error) min_scale))
            else ok (accepted (exact x y h) (h * min (ratio tolerance error) max_scale))))
  unfolding step mul add_vectors
  rk23s_step-exact t x y h tolerance =
      let (error, e, _) = Yields-value (compute_error-Yields 2 _ _ _ h tolerance two two two) in
      (error, e, rw (e, combine-exact x y h) refl)
    where
      two : {a b : W} → HasSize 2 (a ∷ b ∷ [])
      two = record { sized = refl }
