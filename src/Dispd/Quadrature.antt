-- ===== src/Dispd/Quadrature.antt =====
-- DISPDSolver::Step on y0' = 1, y1' = y0, in exact arithmetic.
use Prim.Native.Nat.{◌*◌ as times}
use odeclient_server.Base.Lists.{
  ℕ, ◌≡◌, Bool-cases, inl, inr, ◌||◌, ◌∙◌, refl, sym, ap, List, [], ◌∷◌, Bool, true, false,
  if◌then◌else◌,
}
use odeclient_server.Base.Outcome.{
  Outcome, ok, throw, Error, runtime_error, Post, returns, Post-bind, Post-ok,
}
use odeclient_server.Base.Double.{Double, lit, lt, pow, ◌+◌, ◌*◌, ◌/◌, IsIrreflexive}
use odeclient_server.Base.Ring.{RingLaws, plus_times, times_one}
use odeclient_server.Vectors.{multiply_scalar_by_vector as mul, add_vectors, subtract_vectors}
use odeclient_server.Solver.Parabola.{
  parabola, parabola-IsSystem, stage, two_nodes, weighted, gathered, first_stage,
}
use odeclient_server.Invariants.{Any, anything}
use odeclient_server.Dispd.{
  SchemeParams, KTerms, Stepped, Pass, retry, taken, compute_aprime, compute_addouble_prime,
  compute_v, compute_k_terms, stable_pass, accurate_pass, pass, step, min_scale, max_scale,
}
use odeclient_server.Dispd.Step.{TakenBy, StepEnds, took, failed, dispd_step-StepEnds}

Post-if {ℓ μ} :
    {A : Type ℓ} {P : A → Type μ} {E : Error → Type 0} (c : Bool) {r s : Outcome A}
    → Post P E r
    → Post P E s
    → Post P E (if c then r else s)
Post-if true p q = p
Post-if false p q = q

module _ {ℓ} {W : Type ℓ} ⦃d : Double W⦄ where
  -- The sum of the weights, and the sum of the weights times the nodes.
  abbrev pub sum : SchemeParams W → W
  sum s = s.p1 + (s.p2 + s.p3)

  abbrev pub moment : SchemeParams W → W
  moment s = s.p2 * (lit 2 0 / lit 3 0) + s.p3 * (lit 1 0 / lit 3 0 + lit 1 0 / lit 3 0)

  -- Where a step of size h from (x, y) leads.
  abbrev pub arrives : SchemeParams W → W → W → W → List W
  arrives s x y h = (x + sum s * h) ∷ (y + (sum s * (h * x) + moment s * (h * h))) ∷ []

  -- A pass that takes a step leads there.
  abbrev Arrives : SchemeParams W → W → W → W → Pass W → Type ℓ
  Arrives s x y h (retry h') = Unit
  Arrives s x y h (taken y' h') = y' ≡ arrives s x y h

  abbrev k_terms : W → W → KTerms W
  k_terms x h = record {
    k1 = stage h x;
    k2 = stage h (x + (lit 2 0 / lit 3 0) * (h * lit 1 0));
    k3 = stage h (x + (lit 1 0 / lit 3 0 + lit 1 0 / lit 3 0) * (h * lit 1 0));
  }

  module _ (ring : RingLaws W) (q : W) (scheme : SchemeParams W) (x y h : W) where
    k_terms-eq : (t : W) → compute_k_terms parabola q t (x ∷ y ∷ []) h ≡ ok (k_terms x h)
    unfolding compute_k_terms mul add_vectors
    k_terms-eq t = rw (two_nodes ring h x (lit 1 0 / lit 3 0) (lit 1 0 / lit 3 0)) refl

    first :
        let s = h * lit 1 0 in
        x + (scheme.p1 * s + (scheme.p2 * s + scheme.p3 * s)) ≡ x + sum scheme * h
    first =
        ap (λ r. x + r)
          (ap (λ r. scheme.p1 * (h * lit 1 0) + r)
              (sym (plus_times ring scheme.p2 scheme.p3 (h * lit 1 0)))
            ∙ sym (plus_times ring scheme.p1 (scheme.p2 + scheme.p3) (h * lit 1 0))
            ∙ ap (λ r. sum scheme * r) (times_one ring h))

    second :
        let s = h * lit 1 0 in
        scheme.p1 * (h * x)
          + (scheme.p2 * (h * (x + (lit 2 0 / lit 3 0) * s))
              + scheme.p3 * (h * (x + (lit 1 0 / lit 3 0 + lit 1 0 / lit 3 0) * s)))
        ≡ sum scheme * (h * x) + moment scheme * (h * h)
    second =
        let a = lit 2 0 / lit 3 0 in
        let b = lit 1 0 / lit 3 0 + lit 1 0 / lit 3 0 in
        rw (weighted ring h x scheme.p2 a, weighted ring h x scheme.p3 b)
          (ap (λ r. scheme.p1 * (h * x) + r)
              (gathered ring h x scheme.p2 scheme.p3 (scheme.p2 * a) (scheme.p3 * b))
            ∙ first_stage ring h x scheme.p1 (scheme.p2 + scheme.p3) (moment scheme))

    stable_pass-Arrives :
        (attempts : ℕ) (tolerance a_prime sn vn : W)
        → Post (Arrives scheme x y h) Any (
            stable_pass parabola q attempts h tolerance a_prime sn vn
              (k_terms x h)
              (arrives scheme x y h))
    unfolding stable_pass
    stable_pass-Arrives attempts tolerance a_prime sn vn =
        Post-bind (anything (compute_v (k_terms x h))) λ v _.
          elim (Bool-cases (
            lt (lit 18 0 / pow q (lit attempts 0)) v
            || lt (tolerance / pow q (lit (times 2 attempts) 0)) a_prime)) [
              | inl big ↦ rw big (returns tt)
              | inr fine ↦ rw fine (returns refl)
            ]

    accurate_pass-Arrives :
        (attempts : ℕ) (t tolerance a_prime sn : W)
        → Post (Arrives scheme x y h) Any (
            accurate_pass parabola q scheme attempts t
              (x ∷ y ∷ [])
              h
              tolerance
              a_prime
              sn
              (k_terms x h))
    unfolding accurate_pass compute_addouble_prime mul add_vectors subtract_vectors
    accurate_pass-Arrives attempts t tolerance a_prime sn =
        rw (first, second)
          (Post-if _ (returns tt) (stable_pass-Arrives attempts tolerance a_prime sn _))

    pass-Arrives :
        (attempts : ℕ) (t tolerance : W)
        → Post
            (Arrives scheme x y h)
            Any
            (pass parabola q scheme attempts t (x ∷ y ∷ []) h tolerance)
    unfolding pass compute_aprime mul subtract_vectors
    pass-Arrives attempts t tolerance =
        rw (k_terms-eq t) (Post-if _ (returns tt) (accurate_pass-Arrives attempts t tolerance _ _))

  -- `Step` returns a step that one of its ten passes took, and the point that this pass arrives at, or
  -- throws after the tenth.
  pub data EndsAt (q : W) (scheme : SchemeParams W) (t x y tolerance : W)
      : Outcome (Stepped W) → Type ℓ where
    arrived :
        {r : Stepped W} (b : TakenBy parabola q 2 scheme t (x ∷ y ∷ []) tolerance r)
        → r.y ≡ arrives scheme x y b.h
        → EndsAt q scheme t x y tolerance (ok r)
    gave_up : EndsAt q scheme t x y tolerance (throw (runtime_error "Step adaptation failed"))

  -- In exact arithmetic, where `<` is irreflexive and 5 is not below 0.2, DISPDSolver::Step on
  -- y0' = 1, y1' = y0 throws "Step adaptation failed" after ten passes, or one of them, at a size h,
  -- takes (x, y) to (x + s h, y + s h x + m h^2), where s is the sum of the weights of the scheme and
  -- m the sum of the weights times the nodes of the stages. Exact arithmetic is that + and * meet the
  -- laws of a commutative ring.
  pub dispd_step-EndsAt :
      RingLaws W
      → IsIrreflexive W
      → lt {W = W} max_scale min_scale ≡ false
      → (q : W) (scheme : SchemeParams W) (t x y h tolerance : W)
      → EndsAt q scheme t x y tolerance (step parabola q scheme t (x ∷ y ∷ []) h tolerance)
  dispd_step-EndsAt ring irreflexive order q scheme t x y h tolerance = go _ (
      dispd_step-StepEnds parabola q 2 parabola-IsSystem irreflexive order scheme t (x ∷ y ∷ []) h
        tolerance (record { sized = refl }))
    where
      go :
          (r : Outcome (Stepped W))
          → StepEnds parabola q 2 scheme t (x ∷ y ∷ []) tolerance r
          → EndsAt q scheme t x y tolerance r
      go _ (took b) =
          arrived b
            (Post-ok (rw b.passes at (pass-Arrives ring q scheme x y b.h b.attempts t tolerance)))
      go _ failed = gave_up
