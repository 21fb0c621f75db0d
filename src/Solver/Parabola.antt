-- ===== src/Solver/Parabola.antt =====
-- The system y0' = 1, y1' = y0, on which the formulas of the solvers are tried: from (x, y) its
-- solution after the time h is (x + h, y + h x + h^2 / 2).
use odeclient_server.Base.Lists.{◌≡◌, ◌∙◌, sym, ap, List, [], ◌∷◌, refl, arith}
use odeclient_server.Base.Outcome.{ok, throw, undefined, yields}
use odeclient_server.Base.Double.{Double, lit, ◌+◌, ◌*◌, ◌/◌}
use odeclient_server.Base.Ring.{RingLaws, plus_interchange, times_one, plus_times, times_left_comm}
use odeclient_server.Solver.{OdeFunction, IsSystem}

module _ {ℓ} {W : Type ℓ} ⦃d : Double W⦄ where
  abbrev pub parabola : OdeFunction W
  parabola t [] = throw undefined
  parabola t (x ∷ _) = ok (lit 1 0 ∷ x ∷ [])

  pub parabola-IsSystem : IsSystem {W = W} 2 parabola
  parabola-IsSystem t [] s = absurd (omega (arith, s.sized))
  parabola-IsSystem t (x ∷ _) s = yields (record { sized = refl })

  -- The solution.
  abbrev pub exact : W → W → W → List W
  exact x y h = (x + h) ∷ (y + (h * x + (lit 1 0 / lit 2 0) * (h * h))) ∷ []

  -- A stage at a point with the first component `a`.
  abbrev pub stage : W → W → List W
  stage h a = (h * lit 1 0) ∷ (h * a) ∷ []

  module _ (ring : RingLaws W) (h x : W) where
    -- Two stages before a point.
    pub two_nodes :
        (a b : W) → x + a * (h * lit 1 0) + b * (h * lit 1 0) ≡ x + (a + b) * (h * lit 1 0)
    two_nodes a b =
        ring.plus_assoc x (a * (h * lit 1 0)) (b * (h * lit 1 0))
        ∙ ap (λ r. x + r) (sym (plus_times ring a b (h * lit 1 0)))

    -- A weight times a stage with the node c.
    pub weighted : (p c : W) → p * (h * (x + c * (h * lit 1 0))) ≡ p * (h * x) + (p * c) * (h * h)
    weighted p c =
        rw (times_one ring h, ring.times_plus h x (c * h), ring.times_plus p (h * x) (h * (c * h)))
          (ap (λ r. p * (h * x) + p * r) (times_left_comm ring h c h)
            ∙ ap (λ r. p * (h * x) + r) (sym (ring.times_assoc p c (h * h))))

    -- Two parts of a sum of weighted stages.
    pub gathered :
        (p s q m : W)
        → (p * (h * x) + q * (h * h)) + (s * (h * x) + m * (h * h))
          ≡ (p + s) * (h * x) + (q + m) * (h * h)
    gathered p s q m =
        rw (plus_times ring p s (h * x), plus_times ring q m (h * h))
          (plus_interchange ring (p * (h * x)) (q * (h * h)) (s * (h * x)) (m * (h * h)))

    pub first_stage :
        (p s m : W) → p * (h * x) + (s * (h * x) + m * (h * h)) ≡ (p + s) * (h * x) + m * (h * h)
    first_stage p s m =
        rw (plus_times ring p s (h * x))
          (sym (ring.plus_assoc (p * (h * x)) (s * (h * x)) (m * (h * h))))
