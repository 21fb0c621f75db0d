-- ===== src/Steks/Exact.antt =====
-- STEKSSolver::Step on y0' = 1, y1' = y0, in exact arithmetic.
use odeclient_server.Base.Lists.{ℕ, HasSize, if◌then◌else◌, ◌≡◌, ◌≢◌, ◌∙◌, refl, sym, ap, [], ◌∷◌}
use odeclient_server.Base.Outcome.{Yields-value, ok}
use odeclient_server.Base.Double.{Double, lit, ◌+◌, ◌*◌, ◌/◌, lt, negate}
use odeclient_server.Base.Ring.{plus_times, times_one, plus_interchange, zero_plus}
use odeclient_server.Base.Field.{
  FieldLaws, ne_times, quotient_plus, quotient_times, quotient_self, quotient_cancel,
}
use odeclient_server.Vectors.{multiply_scalar_by_vector as mul, add_vectors}
use odeclient_server.Solver.{accepted, rejected}
use odeclient_server.Solver.Parabola.{
  parabola, exact, stage, two_nodes, weighted, gathered, first_stage,
}
use odeclient_server.Steks.{Stages, scale, stages, combine, compute_error, step}
use odeclient_server.Steks.Step.{compute_error-Yields}

-- Decimal literals of one digit after the point are tenths, and 5 is not 0.
pub record TenthLaws {ℓ} (W : Type ℓ) ⦃d : Double W⦄ : Type ℓ where
  pub tenth : (m : ℕ) → lit {W = W} m 1 ≡ lit m 0 / lit 10 0
  pub five_ne : lit {W = W} 5 0 ≢ lit 0 0

module _ {ℓ} {W : Type ℓ} ⦃d : Double W⦄ where
  -- The five stages from (x, y).
  abbrev pub stages_at : W → W → Stages W
  stages_at x h = record {
    k1 = stage h x;
    k2 = stage h (x + (lit 1 0 / lit 3 0) * (h * lit 1 0));
    k3 = stage h (x + (lit 1 0 / lit 6 0) * (h * lit 1 0) + (lit 1 0 / lit 6 0) * (h * lit 1 0));
    k4 = stage h (x + (lit 1 0 / lit 2 0) * (h * lit 1 0));
    k5 = stage h (x + lit 1 0 * (h * lit 1 0));
  }

module _ {ℓ} {W : Type ℓ} ⦃d : Double W⦄ (field : FieldLaws W) (tenths : TenthLaws W) where
  ne4 : lit {W = W} 4 0 ≢ lit 0 0
  ne4 = ne_times field 2 2 field.two_ne field.two_ne

  ne6 : lit {W = W} 6 0 ≢ lit 0 0
  ne6 = ne_times field 2 3 field.two_ne field.three_ne

  half : lit {W = W} 5 1 ≡ lit 1 0 / lit 2 0
  half = tenths.tenth 5 ∙ quotient_cancel field 5 1 2 tenths.five_ne field.two_ne

  half_more : lit {W = W} 15 1 ≡ lit 5 1 + lit 1 0
  half_more =
      tenths.tenth 15
      ∙ quotient_cancel field 5 3 2 tenths.five_ne field.two_ne
      ∙ sym (quotient_plus field 1 2 2)
      ∙ ap (λ r. lit 1 0 / lit 2 0 + r) (quotient_self field 2 field.two_ne)
      ∙ ap (λ r. r + lit 1 0) (sym half)

  -- The node of the fourth stage, and that of the fifth.
  fourth_node : lit {W = W} 1 0 / lit 8 0 + lit 3 0 / lit 8 0 ≡ lit 1 0 / lit 2 0
  fourth_node = quotient_plus field 1 3 8 ∙ quotient_cancel field 4 1 2 ne4 field.two_ne

  fifth_node : lit {W = W} 5 1 + negate (lit 15 1) + lit 2 0 ≡ lit 1 0
  fifth_node =
      let ring = field.ring in
      ap (λ r. lit 5 1 + negate r + lit 2 0) half_more
      ∙ ap (λ r. lit 5 1 + negate (lit 5 1 + lit 1 0) + r) (field.lit_plus 1 1)
      ∙ plus_interchange ring (lit 5 1) (negate (lit 5 1 + lit 1 0)) (lit 1 0) (lit 1 0)
      ∙ sym (ring.plus_assoc (lit 5 1 + lit 1 0) (negate (lit 5 1 + lit 1 0)) (lit 1 0))
      ∙ ap (λ r. r + lit 1 0) (ring.plus_negate (lit 5 1 + lit 1 0))
      ∙ zero_plus ring (lit 1 0)

  -- The weights sum to 1.
  weights : lit {W = W} 1 0 / lit 6 0 + (lit 2 0 / lit 3 0 + lit 1 0 / lit 6 0) ≡ lit 1 0
  weights =
      ap (λ r. lit 1 0 / lit 6 0 + (r + lit 1 0 / lit 6 0))
        (sym (quotient_cancel field 2 2 3 field.two_ne field.three_ne))
      ∙ ap (λ r. lit 1 0 / lit 6 0 + r) (quotient_plus field 4 1 6)
      ∙ quotient_plus field 1 5 6
      ∙ quotient_self field 6 ne6

  -- The weights times the nodes sum to 1/2.
  moment :
      (lit {W = W} 2 0 / lit 3 0) * (lit 1 0 / lit 2 0) + (lit 1 0 / lit 6 0) * lit 1 0
      ≡ lit 1 0 / lit 2 0
  moment =
      ap (λ r. r + (lit 1 0 / lit 6 0) * lit 1 0)
        (quotient_times field 2 3 1 2 field.three_ne field.two_ne)
      ∙ ap (λ r. lit 2 0 / lit 6 0 + r) (times_one field.ring (lit 1 0 / lit 6 0))
      ∙ quotient_plus field 2 1 6
      ∙ quotient_cancel field 3 1 2 field.three_ne field.two_ne

  -- The point of the fourth stage, and that of the fifth.
  fourth_point :
      (x h : W)
      → x + (lit 1 0 / lit 8 0) * (h * lit 1 0) + (lit 3 0 / lit 8 0) * (h * lit 1 0)
        ≡ x + (lit 1 0 / lit 2 0) * (h * lit 1 0)
  fourth_point x h =
      two_nodes field.ring h x (lit 1 0 / lit 8 0) (lit 3 0 / lit 8 0)
      ∙ ap (λ r. x + r * (h * lit 1 0)) fourth_node

  fifth_point :
      (x h : W)
      → x + lit 5 1 * (h * lit 1 0) + negate (lit 15 1) * (h * lit 1 0) + lit 2 0 * (h * lit 1 0)
        ≡ x + lit 1 0 * (h * lit 1 0)
  fifth_point x h =
      ap (λ r. r + lit 2 0 * (h * lit 1 0)) (two_nodes field.ring h x (lit 5 1) (negate (lit 15 1)))
      ∙ two_nodes field.ring h x (lit 5 1 + negate (lit 15 1)) (lit 2 0)
      ∙ ap (λ r. x + r * (h * lit 1 0)) fifth_node

  stages-exact : (t x y h : W) → stages parabola t (x ∷ y ∷ []) h ≡ ok (stages_at x h)
  unfolding stages mul add_vectors
  stages-exact t x y h = rw (fourth_point x h, fifth_point x h) refl

  combine-exact : (x y h : W) → combine (x ∷ y ∷ []) (stages_at x h) ≡ ok (exact x y h)
  unfolding combine mul add_vectors
  combine-exact x y h =
      let ring = field.ring in
      let s = h * lit 1 0 in
      let p1 = lit 1 0 / lit 6 0 in
      let p4 = lit 2 0 / lit 3 0 in
      let half = lit 1 0 / lit 2 0 in
      let first : x + p1 * s + (p4 * s + p1 * s) ≡ x + h =
        ring.plus_assoc x (p1 * s) (p4 * s + p1 * s)
        ∙ ap (λ r. x + r)
            (ap (λ r. p1 * s + r) (sym (plus_times ring p4 p1 s))
              ∙ sym (plus_times ring p1 (p4 + p1) s)
              ∙ ap (λ r. r * s) weights
              ∙ ring.one_times s
              ∙ times_one ring h) in
      let second : p1 * (h * x) + (p4 * (h * (x + half * s)) + p1 * (h * (x + lit 1 0 * s)))
          ≡ h * x + half * (h * h) =
        ap (λ r. p1 * (h * x) + (r + p1 * (h * (x + lit 1 0 * s)))) (weighted ring h x p4 half)
        ∙ ap (λ r. p1 * (h * x) + ((p4 * (h * x) + (p4 * half) * (h * h)) + r))
            (weighted ring h x p1 (lit 1 0))
        ∙ ap (λ r. p1 * (h * x) + r) (gathered ring h x p4 p1 (p4 * half) (p1 * lit 1 0))
        ∙ first_stage ring h x p1 (p4 + p1) (p4 * half + p1 * lit 1 0)
        ∙ ap (λ r. r * (h * x) + (p4 * half + p1 * lit 1 0) * (h * h)) weights
        ∙ ap (λ r. r + (p4 * half + p1 * lit 1 0) * (h * h)) (ring.one_times (h * x))
        ∙ ap (λ r. h * x + r * (h * h)) moment in
      rw
        (
          first,
          ring.plus_assoc y (p1 * (h * x))
              (p4 * (h * (x + half * s)) + p1 * (h * (x + lit 1 0 * s))),
          second,
        )
        refl

  -- In exact arithmetic, on y0' = 1, y1' = y0, `computeError` of STEKSSolver returns an error, and
  -- `Step` either accepts, where the error is not above the tolerance, and leads to (x + h, y + h x
  -- + h^2 / 2), the solution after h, or rejects; both scale h by the factor of the error. Exact
  -- arithmetic is that +, * and / meet the laws of a field in which 2, 3 and 5 are not 0, the
  -- integer literals are sums of ones, and the literals with one digit after the point are tenths.
  pub steks_step-exact :
      (t x y h tolerance : W)
      → (error : W) × (compute_error (stages_at x h) h tolerance ≡ ok error)
        × (step parabola t (x ∷ y ∷ []) h tolerance ≡ (
            if lt tolerance error
            then ok (rejected (h * scale tolerance error))
            else ok (accepted (exact x y h) (h * scale tolerance error))))
  unfolding step
  steks_step-exact t x y h tolerance =
      let (error, e, _) = Yields-value (
        compute_error-Yields 2 (stages_at x h) h tolerance
          (record { s1 = two; s2 = two; s3 = two; s4 = two; s5 = two })) in
      (error, e, rw (stages-exact t x y h, e, combine-exact x y h) refl)
    where
      two : {a b : W} → HasSize 2 (a ∷ b ∷ [])
      two = record { sized = refl }
