-- ===== src/Rk23s/Step.antt =====
-- RK23SSolver::Step and computeError.
use odeclient_server.Base.Lists.{
  ℕ, ◌≡◌, refl, List, [], ◌∷◌, length, HasSize, false, Bool-cases, inl, inr, arith,
}
use odeclient_server.Base.Outcome.{Yields, yields, Yields-bind}
use odeclient_server.Base.Double.{
  Double, lit, ◌*◌, lt, min, max, IsIrreflexive, lt-max_right, lt-min_right,
}
use odeclient_server.Vectors.Laws.{add-Yields, subtract-Yields, multiply_scalar-HasSize}
use odeclient_server.Solver.{OdeFunction, Attempt, accepted, rejected, IsSystem}
use odeclient_server.Rk23s.{
  stability, compute_error, combine, ratio, min_scale, max_scale, finish, step,
}

module _ {ℓ} {W : Type ℓ} ⦃d : Double W⦄ where
  stability-Yields :
      (k1 k2 k3 : List W) (acc : W)
      → length k2 ≡ length k1
      → length k3 ≡ length k1
      → Yields (λ _. Unit {0}) (stability k1 k2 k3 acc)
  unfolding stability
  stability-Yields [] k2 k3 acc p q = yields tt
  stability-Yields (_ ∷ k1) [] k3 acc p q = absurd (omega arith)
  stability-Yields (_ ∷ k1) (b ∷ k2) [] acc p q = absurd (omega arith)
  stability-Yields (a ∷ k1) (b ∷ k2) (c ∷ k3) acc p q =
      stability-Yields k1 k2 k3 _ (omega arith) (omega arith)

  pub compute_error-Yields :
      (n : ℕ) (k1 k2 k3 : List W) (h tolerance : W)
      → HasSize n k1
      → HasSize n k2
      → HasSize n k3
      → Yields (λ _. Unit {0}) (compute_error k1 k2 k3 h tolerance)
  unfolding compute_error
  compute_error-Yields n k1 k2 k3 h tolerance s1 s2 s3 =
      Yields-bind (subtract-Yields n s2 s1) λ diff _.
        Yields-bind (stability-Yields k1 k2 k3 (lit 0 0) (omega arith) (omega arith))
          λ stable _. yields tt

  combine-Yields :
      (n : ℕ) {y k1 k2 k3 : List W}
      → HasSize n y
      → HasSize n k1
      → HasSize n k2
      → HasSize n k3
      → Yields (HasSize n) (combine y k1 k2 k3)
  unfolding combine
  combine-Yields n s s1 s2 s3 =
      Yields-bind (add-Yields n (multiply_scalar-HasSize n _ s2) (multiply_scalar-HasSize n _ s3))
        λ k23 s23.
          Yields-bind (add-Yields n (multiply_scalar-HasSize n _ s1) s23)
            λ k123 s123. add-Yields n s s123

  -- An accepted step keeps the dimension and scales `h` by at most 5; a rejected one scales it by at
  -- least 0.2.
  abbrev pub Settles : ℕ → W → Attempt W → Type ℓ
  Settles n h (accepted y' h') =
      (factor : W) × (h' ≡ h * factor) × (lt max_scale factor ≡ false) × HasSize n y'
  Settles n h (rejected h') = (factor : W) × (h' ≡ h * factor) × (lt factor min_scale ≡ false)

  finish-Settles :
      IsIrreflexive W
      → (n : ℕ) (y : List W) (h tolerance error : W) (k1 k2 k3 : List W) → HasSize n y
      → HasSize n k1
      → HasSize n k2
      → HasSize n k3
      → Yields (Settles n h) (finish y h tolerance error k1 k2 k3)
  finish-Settles irreflexive n y h tolerance error k1 k2 k3 s s1 s2 s3 =
      elim (Bool-cases (lt tolerance error)) [
        | inl above ↦
            rw above
              (yields (max (ratio tolerance error) min_scale, refl, lt-max_right irreflexive _ _))
        | inr within ↦ rw within (
            Yields-bind (combine-Yields n s s1 s2 s3) λ y' s'.
              yields
                (min (ratio tolerance error) max_scale, refl, lt-min_right irreflexive _ _, s'))
      ]

  module _ (f : OdeFunction W) where
    -- For a system of `n` equations `Step` throws nothing but its own rejection, and `Settles` holds
    -- of how it ends.
    pub rk23s_step-Settles :
        IsIrreflexive W
        → (n : ℕ) → IsSystem n f
        → (t : W) (y : List W) (h tolerance : W) → HasSize n y
        → Yields (Settles n h) (step f t y h tolerance)
    unfolding step
    rk23s_step-Settles irreflexive n system t y h tolerance s = Yields-bind (system t y s) λ f1 s1.
        let k1 = multiply_scalar-HasSize n h s1 in
        Yields-bind (add-Yields n s (multiply_scalar-HasSize n _ k1)) λ y2 sy2.
          Yields-bind (system _ y2 sy2) λ f2 s2.
            let k2 = multiply_scalar-HasSize n h s2 in
            Yields-bind
              (add-Yields n (multiply_scalar-HasSize n _ k1) (multiply_scalar-HasSize n _ k2))
              λ k12 s12. Yields-bind (add-Yields n s s12) λ y3 sy3.
                Yields-bind (system _ y3 sy3) λ f3 s3.
                  let k3 = multiply_scalar-HasSize n h s3 in
                  Yields-bind (compute_error-Yields n _ _ _ h tolerance k1 k2 k3)
                    λ error _. finish-Settles irreflexive n y h tolerance error _ _ _ s k1 k2 k3
