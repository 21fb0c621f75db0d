-- ===== src/Dispd/Step.antt =====
-- DISPDSolver::Step and the functions that it calls: exceptions, dimensions and the ten attempts.
use Prim.Native.Nat.{◌+◌ as plus}
use odeclient_server.Base.Lists.{
  ℕ, zero, suc, ◌≡◌, ◌<◌, refl, List, [], ◌∷◌, length, HasSize, false, Bool-cases, inl, inr, arith,
  ◌||◌,
}
use odeclient_server.Base.Outcome.{
  Outcome, ok, throw, runtime_error, Yields, yields, Yields-value, Yields-bind,
}
use odeclient_server.Base.Double.{Double, lit, ◌/◌, pow, lt, IsIrreflexive, Scaled, clamp-Scaled}
use odeclient_server.Vectors.Laws.{add-Yields, subtract-Yields, multiply_scalar-HasSize}
use odeclient_server.Solver.{OdeFunction, IsSystem}
use odeclient_server.Dispd.{
  SchemeParams, KTerms, Stepped, Pass, retry, taken, compute_aprime, compute_addouble_prime,
  max_ratio, compute_v, min_scale, max_scale, rescheme, compute_k_terms, slack, stable_pass,
  accurate_pass, pass, step_from, step,
}

pub record IsSized {ℓ} {W : Type ℓ} (n : ℕ) (k : KTerms W) : Type ℓ where
  pub s1 : HasSize n k.k1
  pub s2 : HasSize n k.k2
  pub s3 : HasSize n k.k3

module _ {ℓ} {W : Type ℓ} ⦃d : Double W⦄ where
  max_ratio-Yields :
      (k1 k2 k3 : List W) (acc : W)
      → length k2 ≡ length k1
      → length k3 ≡ length k1
      → Yields (λ _. Unit {0}) (max_ratio k1 k2 k3 acc)
  unfolding max_ratio
  max_ratio-Yields [] k2 k3 acc p q = yields tt
  max_ratio-Yields (_ ∷ k1) [] k3 acc p q = absurd (omega arith)
  max_ratio-Yields (_ ∷ k1) (b ∷ k2) [] acc p q = absurd (omega arith)
  max_ratio-Yields (a ∷ k1) (b ∷ k2) (c ∷ k3) acc p q =
      max_ratio-Yields k1 k2 k3 _ (omega arith) (omega arith)

  compute_v-Yields : (n : ℕ) (k : KTerms W) → IsSized n k → Yields (λ _. Unit {0}) (compute_v k)
  unfolding compute_v
  compute_v-Yields n k z =
      Yields-bind
        (max_ratio-Yields k.k1 k.k2 k.k3 (lit 0 0) (omega (arith, z.s1.sized, z.s2.sized))
          (omega (arith, z.s1.sized, z.s3.sized)))
        λ _ _. yields tt

  compute_aprime-Yields :
      (n : ℕ) (scheme : SchemeParams W) {k1 k2 : List W}
      → HasSize n k1
      → HasSize n k2
      → Yields (λ _. Unit {0}) (compute_aprime scheme k1 k2)
  unfolding compute_aprime
  compute_aprime-Yields n scheme s1 s2 = Yields-bind (subtract-Yields n s2 s1) λ _ _. yields tt

  compute_addouble_prime-Yields :
      (n : ℕ) (scheme : SchemeParams W) (h : W) {k1 y_next : List W}
      → HasSize n k1
      → HasSize n y_next
      → Yields (λ _. Unit {0}) (compute_addouble_prime scheme h k1 y_next)
  unfolding compute_addouble_prime
  compute_addouble_prime-Yields n scheme h s1 s =
      Yields-bind (subtract-Yields n (multiply_scalar-HasSize n h s) s1) λ _ _. yields tt

  -- A step that a pass takes has `n` numbers and scales the size of the pass by a factor from 0.2 to
  -- 5.
  abbrev pub Passes : ℕ → W → Pass W → Type ℓ
  Passes n h (retry h') = Unit
  Passes n h (taken y h') = Scaled min_scale max_scale h h' × HasSize n y

  module _ (f : OdeFunction W) (q : W) (n : ℕ) (scheme : SchemeParams W) (t : W) (y : List W)
      (tolerance : W) where
    -- The step that one of the passes took, at its own size, and the scheme that follows it.
    pub record TakenBy (r : Stepped W) : Type ℓ where
      pub attempts : ℕ
      pub within : attempts < 10
      pub h : W
      pub passes : pass f q scheme attempts t y h tolerance ≡ ok (taken r.y r.h)
      pub scaled : Scaled min_scale max_scale h r.h
      pub size : HasSize n r.y
      pub next : r.scheme ≡ rescheme scheme r.h tolerance

    -- `Step` returns a step that one of its ten passes took, or throws after the tenth.
    pub data StepEnds : Outcome (Stepped W) → Type ℓ where
      took : {r : Stepped W} → TakenBy r → StepEnds (ok r)
      failed : StepEnds (throw (runtime_error "Step adaptation failed"))

  module _ (f : OdeFunction W) (q : W) (n : ℕ) (system : IsSystem n f)
      (irreflexive : IsIrreflexive W) (order : lt {W = W} max_scale min_scale ≡ false) where
    compute_k_terms-Yields :
        (t : W) (y : List W) (h : W) → HasSize n y → Yields (IsSized n) (compute_k_terms f q t y h)
    unfolding compute_k_terms
    compute_k_terms-Yields t y h s = Yields-bind (system t y s) λ f1 e1.
        let k1 = multiply_scalar-HasSize n h e1 in
        Yields-bind (add-Yields n s (multiply_scalar-HasSize n _ k1)) λ y2 s2.
          Yields-bind (system _ y2 s2) λ f2 e2.
            let k2 = multiply_scalar-HasSize n h e2 in
            Yields-bind (add-Yields n s (multiply_scalar-HasSize n _ k1)) λ y31 s31.
              Yields-bind (add-Yields n s31 (multiply_scalar-HasSize n _ k2)) λ y3 s3.
                Yields-bind (system _ y3 s3)
                  λ f3 e3. yields (record { s1 = k1; s2 = k2; s3 = multiply_scalar-HasSize n h e3 })

    stable_pass-Passes :
        (attempts : ℕ) (h tolerance a_prime sn vn : W) (k : KTerms W) (y_next : List W)
        → IsSized n k
        → HasSize n y_next
        → Yields (Passes n h) (stable_pass f q attempts h tolerance a_prime sn vn k y_next)
    unfolding stable_pass
    stable_pass-Passes attempts h tolerance a_prime sn vn k y_next z s =
        Yields-bind (compute_v-Yields n k z) λ v _.
          elim (Bool-cases (
            lt (lit 18 0 / pow q (lit attempts 0)) v
            || lt (tolerance / pow q (lit (Prim.Native.Nat.◌*◌ 2 attempts) 0)) a_prime)) [
              | inl big ↦ rw big (yields tt)
              | inr fine ↦
                  rw fine (yields (clamp-Scaled irreflexive h _ min_scale max_scale order, s))
            ]

    accurate_pass-Passes :
        (scheme : SchemeParams W) (attempts : ℕ) (t : W) (y : List W) (h tolerance a_prime sn : W)
        (k : KTerms W)
        → HasSize n y
        → IsSized n k
        → Yields (Passes n h) (accurate_pass f q scheme attempts t y h tolerance a_prime sn k)
    unfolding accurate_pass
    accurate_pass-Passes scheme attempts t y h tolerance a_prime sn k s z =
        Yields-bind
          (add-Yields n (multiply_scalar-HasSize n _ z.s2) (multiply_scalar-HasSize n _ z.s3))
          λ k23 s23. Yields-bind (add-Yields n (multiply_scalar-HasSize n _ z.s1) s23) λ k123 s123.
            Yields-bind (add-Yields n s s123) λ y_next s_next.
              Yields-bind (system _ y_next s_next) λ f_next e_next.
                Yields-bind
                  (compute_addouble_prime-Yields n scheme h z.s1
                    (multiply_scalar-HasSize n h e_next))
                  λ add_prime _.
                    elim (Bool-cases (lt (slack f q tolerance attempts add_prime) (lit 0 0))) [
                      | inl big ↦ rw big (yields tt)
                      | inr fine ↦
                          rw fine
                            (stable_pass-Passes attempts h tolerance a_prime sn _ k y_next z s_next)
                    ]

    pass-Passes :
        (scheme : SchemeParams W) (attempts : ℕ) (t : W) (y : List W) (h tolerance : W)
        → HasSize n y
        → Yields (Passes n h) (pass f q scheme attempts t y h tolerance)
    unfolding pass
    pass-Passes scheme attempts t y h tolerance s =
        Yields-bind (compute_k_terms-Yields t y h s) λ k z.
          Yields-bind (compute_aprime-Yields n scheme z.s1 z.s2) λ a_prime _.
            elim (Bool-cases (lt (slack f q tolerance attempts a_prime) (lit 0 0))) [
              | inl big ↦ rw big (yields tt)
              | inr fine ↦
                  rw fine (accurate_pass-Passes scheme attempts t y h tolerance a_prime _ k s z)
            ]

    step_from-StepEnds :
        (left attempts : ℕ) (scheme : SchemeParams W) (t : W) (y : List W) (h tolerance : W)
        → plus attempts left ≡ 10
        → HasSize n y
        → StepEnds f q n scheme t y tolerance (step_from f q left attempts scheme t y h tolerance)
    unfolding step_from
    step_from-StepEnds zero attempts scheme t y h tolerance e s = failed
    step_from-StepEnds (suc left) attempts scheme t y h tolerance e s =
        let (p, passes, sized) = Yields-value (pass-Passes scheme attempts t y h tolerance s) in
        rw passes (
          go p passes sized
            (λ h'. step_from-StepEnds left (suc attempts) scheme t y h' tolerance (omega arith) s))
      where
        go :
            (p : Pass W)
            → pass f q scheme attempts t y h tolerance ≡ ok p
            → Passes n h p
            → ((h' : W)
                → StepEnds f q n scheme t y tolerance
                    (step_from f q left (suc attempts) scheme t y h' tolerance))
            → StepEnds f q n scheme t y tolerance (elim p [
              | retry h' ↦ step_from f q left (suc attempts) scheme t y h' tolerance
              | taken y' h' ↦ ok (record { y = y'; h = h'; scheme = rescheme scheme h' tolerance })
            ])
        go (retry h') passes sized rest = rest h'
        go (taken y' h') passes (scaled, size) rest = took (record {
          attempts = attempts;
          within = omega arith;
          h = h;
          passes = passes;
          scaled = scaled;
          size = size;
          next = refl;
        })

    -- For a system of `n` equations `Step` ends: it returns a step that one of its ten passes took
    -- from the point it was given, its size scaled by a factor from 0.2 to 5, or throws "Step
    -- adaptation failed".
    pub dispd_step-StepEnds :
        (scheme : SchemeParams W) (t : W) (y : List W) (h tolerance : W)
        → HasSize n y
        → StepEnds f q n scheme t y tolerance (step f q scheme t y h tolerance)
    unfolding step
    dispd_step-StepEnds scheme t y h tolerance s =
        step_from-StepEnds 10 0 scheme t y h tolerance refl s
