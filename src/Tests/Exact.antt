-- ===== src/Tests/Exact.antt =====
-- Steps of the solvers on y0' = 1, y1' = y0, in the integers modulo 7.
use odeclient_server.Base.Lists.{if◌then◌else◌, ℕ, ◌≤◌, inl, inr, ◌≡◌, refl, [], ◌∷◌}
use odeclient_server.Base.Outcome.{Yields, ok}
use odeclient_server.Base.Double.{lit, lt, ◌*◌, max, min}
use odeclient_server.Solver.{accepted, rejected}
use odeclient_server.Base.Mod7.{Mod7, r0, r1, r2, r3, r4, r5, r6, mod7_double}
use odeclient_server.Base.Mod7.Ring.{mod7-RingLaws}
use odeclient_server.Base.Mod7.Field.{mod7-FieldLaws}
use odeclient_server.Vectors
use odeclient_server.Solver.Parabola.{parabola, exact}
use odeclient_server.Dispd
use odeclient_server.Dispd.{SchemeParams, Stepped}
use odeclient_server.Tests.Robertson.{mod7-IsIrreflexive}
use odeclient_server.Disps
use odeclient_server.Disps.{disps23}
use odeclient_server.Disps.Sizes.{IsVariant}
use odeclient_server.Rk2
use odeclient_server.Rk23s
use odeclient_server.Steks
use odeclient_server.Steks.Exact.{TenthLaws}

disps23-IsVariant : IsVariant {W = Mod7} disps23
disps23-IsVariant = record { stages = inl refl; weights = refl; enough = inr (inl refl) }

do_one_step-quadrature_example :
    Yields
      (λ r. r.0 ≡ Disps.Quadrature.quadrature r1 r2 r3 3 disps23.p)
      (Disps.Stages.do_one_step parabola r0 (r1 ∷ r2 ∷ []) r3 disps23)
do_one_step-quadrature_example =
    Disps.Quadrature.do_one_step-quadrature mod7-RingLaws r1 r2 r3 r0 disps23 disps23-IsVariant

rk2_step-tries : Rk2.Step.Tries parabola r0 (r1 ∷ r2 ∷ []) r6 r3 (exact r1 r2 r3, r1)
unfolding Rk2.trial Vectors.add_vectors Vectors.multiply_scalar_by_vector Vectors.subtract_vectors
    Vectors.norm
rk2_step-tries = Rk2.Step.settled refl refl

rk2_step-IsOnSolution_example :
    Rk2.Exact.IsOnSolution r0 r1 r2 r6 (exact r1 r2 r3, r1)
    × ((enough : ℕ) × ((fuel : ℕ)
          → enough ≤ fuel
          → Rk2.step parabola fuel r0 (r1 ∷ r2 ∷ []) r3 r6 ≡ ok (exact r1 r2 r3, r1)))
rk2_step-IsOnSolution_example =
    Rk2.Exact.rk2_step-IsOnSolution mod7-FieldLaws r0 r1 r2 r3 r6 rk2_step-tries

rk23s_step-exact_example :
    (error : Mod7) × (Rk23s.Exact.error_at r1 r3 r6 ≡ ok error)
    × (Rk23s.step parabola r0 (r1 ∷ r2 ∷ []) r3 r6 ≡ (
        if lt r6 error
        then ok (rejected (r3 * max (Rk23s.ratio r6 error) Rk23s.min_scale))
        else ok (accepted (exact r1 r2 r3) (r3 * min (Rk23s.ratio r6 error) Rk23s.max_scale))))
rk23s_step-exact_example = Rk23s.Exact.rk23s_step-exact mod7-FieldLaws r0 r1 r2 r3 r6

mod7-TenthLaws : TenthLaws Mod7
mod7-TenthLaws = record {
  tenth = λ m. mod7-RingLaws.times_comm r5 (lit m 0);
  five_ne = λ e. absurd cc;
}

steks_step-exact_example :
    (error : Mod7) × (Steks.compute_error (Steks.Exact.stages_at r1 r3) r3 r6 ≡ ok error)
    × (Steks.step parabola r0 (r1 ∷ r2 ∷ []) r3 r6 ≡ (
        if lt r6 error
        then ok (rejected (r3 * Steks.scale r6 error))
        else ok (accepted (exact r1 r2 r3) (r3 * Steks.scale r6 error))))
steks_step-exact_example = Steks.Exact.steks_step-exact mod7-FieldLaws mod7-TenthLaws r0 r1 r2 r3 r6

abbrev scheme : SchemeParams Mod7
scheme = record { p1 = r1; p2 = r2; p3 = r3; g = r4 }

dispd_step-EndsAt_example :
    Dispd.Quadrature.EndsAt r3 scheme r0 r1 r2 r4
      (Dispd.step parabola r3 scheme r0 (r1 ∷ r2 ∷ []) r3 r4)
dispd_step-EndsAt_example =
    Dispd.Quadrature.dispd_step-EndsAt mod7-RingLaws mod7-IsIrreflexive refl r3 scheme r0 r1 r2 r3
      r4

-- The step returns, so the statement above is about a point.
dispd_step_returns :
    (r : Stepped Mod7) × (Dispd.step parabola r3 scheme r0 (r1 ∷ r2 ∷ []) r3 r4 ≡ ok r)
unfolding Dispd.step Dispd.step_from Dispd.pass Dispd.compute_k_terms Dispd.compute_aprime
    Dispd.accurate_pass Dispd.compute_addouble_prime Dispd.stable_pass Dispd.compute_v
    Dispd.max_ratio Dispd.should_switch_to_scheme_b Vectors.norm Vectors.add_vectors
    Vectors.multiply_scalar_by_vector Vectors.subtract_vectors
dispd_step_returns = (_, refl)
