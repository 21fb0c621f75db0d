-- ===== src/DispsOld/Steps.antt =====
-- DISPSSolver_old::DoStep against DISPSSolver::DoOneStep.
use odeclient_server.Base.Lists.{
  ℕ, suc, ◌≡◌, ◌⊎◌, ◌∙◌, refl, ap, inl, inr, List, [], ◌∷◌, All, HasSize, length, true, ◌==◌, arith,
}
use odeclient_server.Base.Outcome.{Outcome, ok, throw, out_of_fuel, ◌>>=◌, Yields, yields}
use odeclient_server.Base.Double.{Double, lit, ◌+◌, ◌*◌}
use odeclient_server.Solver.{OdeFunction, IsSystem}
use odeclient_server.Disps.{DispsVariant, at, add, mul}
use odeclient_server.Disps.Sizes.{add-Yields, mul-HasSize}
use odeclient_server.Disps.Stages.{combine, step3_stage, step5_stage, step6_stage, do_one_step}
use odeclient_server.DispsOld.{
  add_old, mul_old, combine_old, step3_old, step5_old, step6_old, do_step,
}

-- Two chains of calls that agree on a first call, which returns, and then on what follows.
bind-eq {ℓ κ ν} :
    {A : Type ℓ} {C : Type κ} {P : A → Type ν} {r r' : Outcome A} (k' k : A → Outcome C)
    → Yields P r
    → r' ≡ r
    → ((a : A) → P a → k' a ≡ k a)
    → (r' >>= k') ≡ (r >>= k)
bind-eq k' k (yields {a} h) e same = ap (λ r. r >>= k') e ∙ same a h

-- The same where what is compared with goes on with `j`.
bind-eq_then {ℓ κ μ ν} :
    {A : Type ℓ} {B : Type κ} {C : Type μ} {P : A → Type ν} {r r' : Outcome A} (k' : A → Outcome C)
    (k : A → Outcome B) (j : B → Outcome C)
    → Yields P r
    → r' ≡ r
    → ((a : A) → P a → k' a ≡ (k a >>= j))
    → (r' >>= k') ≡ (r >>= k >>= j)
bind-eq_then k' k j (yields {a} h) e same = ap (λ r. r >>= k') e ∙ same a h

module _ {ℓ} {W : Type ℓ} ⦃d : Double W⦄ (n : ℕ) where
  add_old-add : {a b : List W} → HasSize n a → HasSize n b → add_old a b ≡ add a b
  unfolding add_old add
  add_old-add {a} {b} s s' =
      let e : (length a == length b) ≡ true = ground (arith, s.sized, s'.sized) in rw e

  combine_old-combine :
      (y p : List W) (ks : List (List W)) (i : ℕ)
      → HasSize n y
      → All (HasSize n) ks
      → combine_old y p ks i ≡ combine y p ks i
  unfolding combine_old combine mul_old mul
  combine_old-combine y p [] i s a = refl
  combine_old-combine y p (k ∷ ks) i s (sk, a) =
      same (at p i) λ y' s'. combine_old-combine y' p ks (suc i) s' a
    where
      same :
          (weight : Outcome W)
          → ((y' : List W) → HasSize n y' → combine_old y' p ks (suc i) ≡ combine y' p ks (suc i))
          → (weight >>= λ w. add_old y (mul_old w k) >>= λ y'. combine_old y' p ks (suc i))
            ≡ (weight >>= λ w. add y (mul w k) >>= λ y'. combine y' p ks (suc i))
      same (ok w) rest =
          bind-eq _ _ (add-Yields n s (mul-HasSize n w sk)) (add_old-add s (mul-HasSize n w sk))
            rest
      same (throw e) rest = refl
      same out_of_fuel rest = refl

  abbrev with_stages : List (List W) → List W → Outcome (List W × List (List W))
  with_stages ks y = ok (y, ks)

  finish :
      (y p : List W) (ks : List (List W))
      → HasSize n y
      → All (HasSize n) ks
      → combine_old y p ks 0 ≡ (combine y p ks 0 >>= with_stages ks >>= λ r. ok r.0)
  finish y p ks s a = combine_old-combine y p ks 0 s a ∙ again (combine y p ks 0)
    where
      again : (r : Outcome (List W)) → r ≡ (r >>= with_stages ks >>= λ q. ok q.0)
      again (ok y') = refl
      again (throw e) = refl
      again out_of_fuel = refl

  adds {κ} :
      {B : Type κ} {C : Type ℓ} {a b : List W} (k' : List W → Outcome C) (k : List W → Outcome B)
      (j : B → Outcome C)
      → HasSize n a
      → HasSize n b
      → ((c : List W) → HasSize n c → k' c ≡ (k c >>= j))
      → (add_old a b >>= k') ≡ (add a b >>= k >>= j)
  adds k' k j s s' = bind-eq_then k' k j (add-Yields n s s') (add_old-add s s')

  module _ (f : OdeFunction W) (system : IsSystem n f) (one : (x : W) → lit 1 0 * x ≡ x) where
    step3_old-step3 :
        (t : W) (y : List W) (h : W) (p : List W)
        → HasSize n y
        → step3_old f t y h p ≡ (step3_stage f t y h p >>= λ r. ok r.0)
    unfolding step3_old step3_stage mul_old mul
    step3_old-step3 t y h p s = bind-eq_then _ _ _ (system t y s) refl λ f1 s1.
        let k1 = mul-HasSize n h s1 in
        adds _ _ _ s (mul-HasSize n _ k1) λ y2 z2. bind-eq_then _ _ _ (system _ y2 z2) refl λ f2 s2.
          let k2 = mul-HasSize n h s2 in
          adds _ _ _ s (mul-HasSize n _ k1) λ y31 z31. adds _ _ _ z31 (mul-HasSize n _ k2) λ y3 z3.
            bind-eq_then _ _ _ (system _ y3 z3) (ap (λ x. f (t + x) y3) (one h))
              λ f3 s3. finish y p _ s (k1, (k2, (mul-HasSize n h s3, tt)))

    step5_old-step5 :
        (t : W) (y : List W) (h : W) (p : List W)
        → HasSize n y
        → step5_old f t y h p ≡ (step5_stage f t y h p >>= λ r. ok r.0)
    unfolding step5_old step5_stage mul_old mul
    step5_old-step5 t y h p s = bind-eq_then _ _ _ (system t y s) refl λ f1 s1.
        let k1 = mul-HasSize n h s1 in
        adds _ _ _ s (mul-HasSize n _ k1) λ y2 z2. bind-eq_then _ _ _ (system _ y2 z2) refl λ f2 s2.
          let k2 = mul-HasSize n h s2 in
          adds _ _ _ s (mul-HasSize n _ k1) λ y31 z31. adds _ _ _ z31 (mul-HasSize n _ k2) λ y3 z3.
            bind-eq_then _ _ _ (system _ y3 z3) refl λ f3 s3.
              let k3 = mul-HasSize n h s3 in
              adds _ _ _ s (mul-HasSize n _ k1) λ y41 z41.
                adds _ _ _ z41 (mul-HasSize n _ k3) λ y4 z4.
                  bind-eq_then _ _ _ (system _ y4 z4) refl λ f4 s4.
                    let k4 = mul-HasSize n h s4 in
                    adds _ _ _ s (mul-HasSize n _ k1) λ y51 z51.
                      adds _ _ _ z51 (mul-HasSize n _ k3) λ y53 z53.
                        adds _ _ _ z53 (mul-HasSize n _ k4) λ y5 z5.
                          bind-eq_then _ _ _ (system _ y5 z5) (ap (λ x. f (t + x) y5) (one h))
                            λ f5 s5. finish y p _ s (k1, (k2, (k3, (k4, (mul-HasSize n h s5, tt)))))

    step6_old-step6 :
        (t : W) (y : List W) (h : W) (p : List W)
        → HasSize n y
        → step6_old f t y h p ≡ (step6_stage f t y h p >>= λ r. ok r.0)
    unfolding step6_old step6_stage mul_old mul
    step6_old-step6 t y h p s = bind-eq_then _ _ _ (system t y s) refl λ f1 s1.
        let k1 = mul-HasSize n h s1 in
        adds _ _ _ s (mul-HasSize n _ k1) λ y2 z2. bind-eq_then _ _ _ (system _ y2 z2) refl λ f2 s2.
          let k2 = mul-HasSize n h s2 in
          adds _ _ _ s (mul-HasSize n _ k2) λ y3 z3.
            bind-eq_then _ _ _ (system _ y3 z3) refl λ f3 s3.
              let k3 = mul-HasSize n h s3 in
              adds _ _ _ s (mul-HasSize n _ k3) λ y4 z4.
                bind-eq_then _ _ _ (system _ y4 z4) refl λ f4 s4.
                  let k4 = mul-HasSize n h s4 in
                  adds _ _ _ s (mul-HasSize n _ k1) λ y51 z51.
                    adds _ _ _ z51 (mul-HasSize n _ k4) λ y5 z5.
                      bind-eq_then _ _ _ (system _ y5 z5) refl λ f5 s5.
                        let k5 = mul-HasSize n h s5 in
                        adds _ _ _ s k5 λ y6 z6. bind-eq_then _ _ _ (system _ y6 z6) refl λ f6 s6.
                          finish y p _ s (k1, (k2, (k3, (k4, (k5, (mul-HasSize n h s6, tt))))))

    -- On a system of `n` equations, at a point of `n` numbers, with 3, 5 or 6 stages, the old solver
    -- steps to the point of the new one. `1.0 * x` is `x`.
    pub do_step-do_one_step :
        (t : W) (y : List W) (h : W) (v : DispsVariant W)
        → HasSize n y
        → (v.stages ≡ 3) ⊎ ((v.stages ≡ 5) ⊎ (v.stages ≡ 6))
        → do_step f t y h (record { stages = v.stages; p = v.p })
          ≡ (do_one_step f t y h v >>= λ r. ok r.0)
    unfolding do_step do_one_step
    do_step-do_one_step t y h v s stages = elim stages [
      | inl e ↦ rw e (step3_old-step3 t y h v.p s)
      | inr (inl e) ↦ rw e (step5_old-step5 t y h v.p s)
      | inr (inr e) ↦ rw e (step6_old-step6 t y h v.p s)
    ]
