-- ===== src/Disps/Sizes.antt =====
-- DISPSSolver.cpp: the variants that the constructor makes, and the steps and controls on them.
use Prim.Native.Nat.{◌+◌ as plus}
use odeclient_server.Base.Lists.{
  ℕ, zero, suc, ◌≡◌, ◌⊎◌, ◌≤◌, ◌<◌, refl, inl, inr, List, [], ◌∷◌, length, All, HasSize, true,
  Bool-cases, arith, ◌==◌, length-map,
}
use odeclient_server.Base.Outcome.{◌>>=◌, ok, Yields, yields, Yields-bind}
use odeclient_server.Base.Double.{Double, ◌+◌, ◌*◌, lt}
use odeclient_server.Vectors.Laws.{length-zip_with}
use odeclient_server.Solver.{OdeFunction, IsSystem}
use odeclient_server.Disps.{DispsVariant, at, add, mul, subtract}
use odeclient_server.Disps.Stages.{combine, step3_stage, step5_stage, step6_stage, do_one_step}
use odeclient_server.Disps.Control.{control1st_order, control2nd_order, control3rd_order, control}

-- A variant that `DoOneStep` and the controls can work with: 3, 5 or 6 stages, a weight for each,
-- and at least 4 of them for the control of the third order.
pub record IsVariant {ℓ} {W : Type ℓ} (v : DispsVariant W) : Type 0 where
  pub stages : (v.stages ≡ 3) ⊎ ((v.stages ≡ 5) ⊎ (v.stages ≡ 6))
  pub weights : length v.p ≡ v.stages
  pub enough : (v.order ≡ 1) ⊎ ((v.order ≡ 2) ⊎ (4 ≤ v.stages))

-- What a step gives for `n` equations: the next point, and a vector for each stage.
pub record IsStep {ℓ} {W : Type ℓ} (n stages : ℕ) (r : List W × List (List W)) : Type 0 where
  pub size : HasSize n r.0
  pub count : length r.1 ≡ stages
  pub sizes : All (HasSize n) r.1

-- `xs[i]`, with what holds of each element.
pub at-Yields {ℓ κ} :
    {A : Type ℓ} (P : A → Type κ) (xs : List A) (i : ℕ)
    → All P xs
    → i < length xs
    → Yields P (at xs i)
at-Yields P [] i a h = absurd (omega arith)
at-Yields P (x ∷ xs) zero a h = yields a.0
at-Yields P (x ∷ xs) (suc i) a h = at-Yields P xs i a.1 (omega arith)

All-units {ℓ} : {A : Type ℓ} (xs : List A) → All (λ _. Unit {0}) xs
All-units [] = tt
All-units (x ∷ xs) = (tt, All-units xs)

module _ {ℓ} {W : Type ℓ} ⦃d : Double W⦄ where
  pub add-Yields : (n : ℕ) {a b : List W} → HasSize n a → HasSize n b → Yields (HasSize n) (add a b)
  unfolding add
  add-Yields n {a} {b} s s' =
      let e : (length a == length b) ≡ true = ground (arith, s.sized, s'.sized) in
      rw e (
        yields (record {
          sized = omega (
            arith,
            length-zip_with (λ x y. x + y) a b (omega (arith, s.sized, s'.sized)),
            s.sized,
          );
        }))

  subtract-Yields :
      (n : ℕ) {a b : List W} → HasSize n a → HasSize n b → Yields (λ _. Unit {0}) (subtract a b)
  unfolding subtract
  subtract-Yields n {a} {b} s s' =
      let e : (length a == length b) ≡ true = ground (arith, s.sized, s'.sized) in rw e (yields tt)

  pub mul-HasSize : (n : ℕ) (alpha : W) {v : List W} → HasSize n v → HasSize n (mul alpha v)
  unfolding mul
  mul-HasSize n alpha {v} s = record {
    sized = omega (arith, length-map (λ x. alpha * x) v, s.sized);
  }

  combine-Yields :
      (n : ℕ) (y p : List W) (ks : List (List W)) (i : ℕ)
      → HasSize n y
      → All (HasSize n) ks
      → plus i (length ks) ≤ length p
      → Yields (HasSize n) (combine y p ks i)
  unfolding combine
  combine-Yields n y p [] i s a h = yields s
  combine-Yields n y p (k ∷ ks) i s (sk, a) h =
      Yields-bind (at-Yields (λ _. Unit {0}) p i (All-units p) (omega arith)) λ weight _.
        Yields-bind (add-Yields n s (mul-HasSize n weight sk))
          λ y' s'. combine-Yields n y' p ks (suc i) s' a (omega arith)

  finish-IsStep :
      (n m : ℕ) (y p : List W) (ks : List (List W))
      → HasSize n y
      → All (HasSize n) ks
      → length ks ≡ m
      → length p ≡ m
      → Yields (IsStep n m) (combine y p ks 0 >>= λ y'. ok (y', ks))
  finish-IsStep n m y p ks s sizes count e =
      Yields-bind (combine-Yields n y p ks 0 s sizes (omega arith))
        λ y' s'. yields (record { size = s'; count = count; sizes = sizes })

  module _ (f : OdeFunction W) (n : ℕ) (system : IsSystem n f) where
    -- Each step gives a point and its stages, all of `n` numbers.
    step3-IsStep :
        (t : W) (y : List W) (h : W) (p : List W)
        → HasSize n y
        → length p ≡ 3
        → Yields (IsStep n 3) (step3_stage f t y h p)
    unfolding step3_stage
    step3-IsStep t y h p s e = Yields-bind (system t y s) λ f1 s1.
        let k1 = mul-HasSize n h s1 in
        Yields-bind (add-Yields n s (mul-HasSize n _ k1)) λ y2 z2.
          Yields-bind (system _ y2 z2) λ f2 s2.
            let k2 = mul-HasSize n h s2 in
            Yields-bind (add-Yields n s (mul-HasSize n _ k1)) λ y31 z31.
              Yields-bind (add-Yields n z31 (mul-HasSize n _ k2)) λ y3 z3.
                Yields-bind (system _ y3 z3)
                  λ f3 s3. finish-IsStep n _ y p _ s (k1, (k2, (mul-HasSize n h s3, tt))) refl e

    step5-IsStep :
        (t : W) (y : List W) (h : W) (p : List W)
        → HasSize n y
        → length p ≡ 5
        → Yields (IsStep n 5) (step5_stage f t y h p)
    unfolding step5_stage
    step5-IsStep t y h p s e = Yields-bind (system t y s) λ f1 s1.
        let k1 = mul-HasSize n h s1 in
        Yields-bind (add-Yields n s (mul-HasSize n _ k1)) λ y2 z2.
          Yields-bind (system _ y2 z2) λ f2 s2.
            let k2 = mul-HasSize n h s2 in
            Yields-bind (add-Yields n s (mul-HasSize n _ k1)) λ y31 z31.
              Yields-bind (add-Yields n z31 (mul-HasSize n _ k2)) λ y3 z3.
                Yields-bind (system _ y3 z3) λ f3 s3.
                  let k3 = mul-HasSize n h s3 in
                  Yields-bind (add-Yields n s (mul-HasSize n _ k1)) λ y41 z41.
                    Yields-bind (add-Yields n z41 (mul-HasSize n _ k3)) λ y4 z4.
                      Yields-bind (system _ y4 z4) λ f4 s4.
                        let k4 = mul-HasSize n h s4 in
                        Yields-bind (add-Yields n s (mul-HasSize n _ k1)) λ y51 z51.
                          Yields-bind (add-Yields n z51 (mul-HasSize n _ k3)) λ y53 z53.
                            Yields-bind (add-Yields n z53 (mul-HasSize n _ k4)) λ y5 z5.
                              Yields-bind (system _ y5 z5) λ f5 s5.
                                finish-IsStep n _ y p _ s
                                  (k1, (k2, (k3, (k4, (mul-HasSize n h s5, tt))))) refl e

    step6-IsStep :
        (t : W) (y : List W) (h : W) (p : List W)
        → HasSize n y
        → length p ≡ 6
        → Yields (IsStep n 6) (step6_stage f t y h p)
    unfolding step6_stage
    step6-IsStep t y h p s e = Yields-bind (system t y s) λ f1 s1.
        let k1 = mul-HasSize n h s1 in
        Yields-bind (add-Yields n s (mul-HasSize n _ k1)) λ y2 z2.
          Yields-bind (system _ y2 z2) λ f2 s2.
            let k2 = mul-HasSize n h s2 in
            Yields-bind (add-Yields n s (mul-HasSize n _ k2)) λ y3 z3.
              Yields-bind (system _ y3 z3) λ f3 s3.
                let k3 = mul-HasSize n h s3 in
                Yields-bind (add-Yields n s (mul-HasSize n _ k3)) λ y4 z4.
                  Yields-bind (system _ y4 z4) λ f4 s4.
                    let k4 = mul-HasSize n h s4 in
                    Yields-bind (add-Yields n s (mul-HasSize n _ k1)) λ y51 z51.
                      Yields-bind (add-Yields n z51 (mul-HasSize n _ k4)) λ y5 z5.
                        Yields-bind (system _ y5 z5) λ f5 s5.
                          let k5 = mul-HasSize n h s5 in
                          Yields-bind (add-Yields n s k5) λ y6 z6.
                            Yields-bind (system _ y6 z6) λ f6 s6.
                              finish-IsStep n _ y p _ s
                                (k1, (k2, (k3, (k4, (k5, (mul-HasSize n h s6, tt)))))) refl e

    pub do_one_step-IsStep :
        (t : W) (y : List W) (h : W) (v : DispsVariant W)
        → HasSize n y
        → IsVariant v
        → Yields (IsStep n v.stages) (do_one_step f t y h v)
    unfolding do_one_step
    do_one_step-IsStep t y h v s w = elim w.stages [
      | inl e ↦ rw e (step3-IsStep t y h v.p s (omega (arith, w.weights, e)))
      | inr (inl e) ↦ rw e (step5-IsStep t y h v.p s (omega (arith, w.weights, e)))
      | inr (inr e) ↦ rw e (step6-IsStep t y h v.p s (omega (arith, w.weights, e)))
    ]

  module _ (n : ℕ) (ks : List (List W)) (sizes : All (HasSize n) ks) (h tolerance : W) where
    pub control-Yields :
        (v : DispsVariant W)
        → IsVariant v
        → length ks ≡ v.stages
        → Yields (λ _. Unit {0}) (control v ks h tolerance)
    unfolding control control1st_order control2nd_order control3rd_order
    control-Yields v w e = elim (Bool-cases (v.order == 1)) [
      | inl o ↦ rw o (
          Yields-bind (stage 0 (ground (arith, w.stages, e))) λ k1 s1.
            Yields-bind (stage 1 (ground (arith, w.stages, e)))
              λ k2 s2. Yields-bind (subtract-Yields n s2 s1) λ diff _. yields tt)
      | inr o ↦ elim (Bool-cases (v.order == 2)) [
        | inl o2 ↦
            rw (o, o2)
              (Yields-bind (stage 0 (ground (arith, w.stages, e))) λ k1 s1.
                Yields-bind (stage 2 (ground (arith, w.stages, e))) λ k3 s3.
                  Yields-bind (stage 1 (ground (arith, w.stages, e)))
                    λ k2 s2. Yields-bind (subtract-Yields n s3 s2) λ diff _. yields tt)
        | inr o2 ↦
            rw (o, o2)
              (Yields-bind (stage 0 (ground (arith, w.stages, e))) λ k1 s1.
                Yields-bind (stage 1 (ground (arith, w.stages, e))) λ k2 s2.
                  Yields-bind (stage 3 (ground (arith, w.enough, e))) λ k4 s4.
                    Yields-bind (stage 2 (ground (arith, w.stages, e)))
                      λ k3 s3. Yields-bind (subtract-Yields n s4 s3) λ diff _. yields tt)
      ]
    ]
      where
        stage : (i : ℕ) → i < length ks → Yields (HasSize n) (at ks i)
        stage i lt = at-Yields (HasSize n) ks i sizes lt
