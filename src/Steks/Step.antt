-- ===== src/Steks/Step.antt =====
-- STEKSSolver::Step and computeError.
use odeclient_server.Base.Lists.{
  ℕ, ◌≡◌, List, [], ◌∷◌, length, HasSize, false, Bool-cases, inl, inr, arith,
}
use odeclient_server.Base.Outcome.{Yields, yields, Yields-bind}
use odeclient_server.Base.Double.{Double, lit, lt, IsIrreflexive, Scaled, clamp-Scaled}
use odeclient_server.Vectors.Laws.{add-Yields, subtract-Yields, multiply_scalar-HasSize}
use odeclient_server.Solver.{OdeFunction, Attempt, accepted, rejected, IsSystem}
use odeclient_server.Steks.{
  Stages, stability, compute_error, combine, min_scale, max_scale, finish, stages, step,
}

-- Each stage has `n` components.
pub record IsSized {ℓ} {W : Type ℓ} (n : ℕ) (s : Stages W) : Type ℓ where
  pub s1 : HasSize n s.k1
  pub s2 : HasSize n s.k2
  pub s3 : HasSize n s.k3
  pub s4 : HasSize n s.k4
  pub s5 : HasSize n s.k5

module _ {ℓ} {W : Type ℓ} ⦃d : Double W⦄ where
  stability-Yields :
      (k1 k2 k3 : List W) (acc : W)
      → length k2 ≡ length k1
      → length k3 ≡ length k1
      → Yields (λ _. Unit {0}) (stability k1 k2 k3 acc)
  unfolding stability
  stability-Yields [] k2 k3 acc p q = yields tt
  stability-Yields (_ ∷ k1) [] k3 acc p q = absurd (omega arith)
  stability-Yields (_ ∷ k1) (b ∷ k2) [] acc p q = absurd (omega arith)
  stability-Yields (a ∷ k1) (b ∷ k2) (c ∷ k3) acc p q =
      stability-Yields k1 k2 k3 _ (omega arith) (omega arith)

  pub compute_error-Yields :
      (n : ℕ) (s : Stages W) (h tolerance : W)
      → IsSized n s
      → Yields (λ _. Unit {0}) (compute_error s h tolerance)
  unfolding compute_error
  compute_error-Yields n s h tolerance z =
      Yields-bind
        (add-Yields n (multiply_scalar-HasSize n _ z.s1) (multiply_scalar-HasSize n _ z.s3))
        λ a sa. Yields-bind (add-Yields n (multiply_scalar-HasSize n _ z.s4) z.s5) λ b sb.
          Yields-bind (subtract-Yields n sa sb) λ c _.
            Yields-bind
              (stability-Yields s.k1 s.k2 s.k3 (lit 0 0) (omega (arith, z.s1.sized, z.s2.sized))
                (omega (arith, z.s1.sized, z.s3.sized)))
              λ _ _. yields tt

  combine-Yields :
      (n : ℕ) {y : List W} (s : Stages W)
      → HasSize n y
      → IsSized n s
      → Yields (HasSize n) (combine y s)
  unfolding combine
  combine-Yields n s size z =
      Yields-bind (add-Yields n size (multiply_scalar-HasSize n _ z.s1)) λ left l.
        Yields-bind
          (add-Yields n (multiply_scalar-HasSize n _ z.s4) (multiply_scalar-HasSize n _ z.s5))
          λ right r. add-Yields n l r

  -- On acceptance and on rejection alike `h` is scaled by a factor from 0.2 to 5; an accepted step
  -- keeps the dimension.
  abbrev pub Settles : ℕ → W → Attempt W → Type ℓ
  Settles n h (accepted y' h') = Scaled min_scale max_scale h h' × HasSize n y'
  Settles n h (rejected h') = Scaled min_scale max_scale h h'

  finish-Settles :
      IsIrreflexive W
      → lt {W = W} max_scale min_scale ≡ false
      → (n : ℕ) (y : List W) (h tolerance error : W) (s : Stages W) → HasSize n y
      → IsSized n s
      → Yields (Settles n h) (finish y h tolerance error s)
  finish-Settles irreflexive order n y h tolerance error s size z =
      let bounds = clamp-Scaled irreflexive h _ min_scale max_scale order in
      elim (Bool-cases (lt tolerance error)) [
        | inl above ↦ rw above (yields bounds)
        | inr within ↦
            rw within (Yields-bind (combine-Yields n s size z) λ y' s'. yields (bounds, s'))
      ]

  module _ (f : OdeFunction W) where
    stages-Yields :
        (n : ℕ)
        → IsSystem n f
        → (t : W) (y : List W) (h : W) → HasSize n y
        → Yields (IsSized n) (stages f t y h)
    unfolding stages
    stages-Yields n system t y h s = Yields-bind (system t y s) λ f1 e1.
        let k1 = multiply_scalar-HasSize n h e1 in
        Yields-bind (add-Yields n s (multiply_scalar-HasSize n _ k1)) λ y2 sy2.
          Yields-bind (system _ y2 sy2) λ f2 e2.
            let k2 = multiply_scalar-HasSize n h e2 in
            Yields-bind (add-Yields n s (multiply_scalar-HasSize n _ k1)) λ y31 sy31.
              Yields-bind (add-Yields n sy31 (multiply_scalar-HasSize n _ k2)) λ y3 sy3.
                Yields-bind (system _ y3 sy3) λ f3 e3.
                  let k3 = multiply_scalar-HasSize n h e3 in
                  Yields-bind (add-Yields n s (multiply_scalar-HasSize n _ k1)) λ y41 sy41.
                    Yields-bind (add-Yields n sy41 (multiply_scalar-HasSize n _ k3)) λ y4 sy4.
                      Yields-bind (system _ y4 sy4) λ f4 e4.
                        let k4 = multiply_scalar-HasSize n h e4 in
                        Yields-bind (add-Yields n s (multiply_scalar-HasSize n _ k1)) λ y51 sy51.
                          Yields-bind (add-Yields n sy51 (multiply_scalar-HasSize n _ k3))
                            λ y53 sy53.
                              Yields-bind (add-Yields n sy53 (multiply_scalar-HasSize n _ k4))
                                λ y5 sy5. Yields-bind (system _ y5 sy5) λ f5 e5. yields (record {
                                  s1 = k1;
                                  s2 = k2;
                                  s3 = k3;
                                  s4 = k4;
                                  s5 = multiply_scalar-HasSize n h e5;
                                })

    -- For a system of `n` equations `Step` throws nothing but its own rejection, and `Settles` holds
    -- of how it ends.
    pub steks_step-Settles :
        IsIrreflexive W
        → lt {W = W} max_scale min_scale ≡ false
        → (n : ℕ) → IsSystem n f
        → (t : W) (y : List W) (h tolerance : W) → HasSize n y
        → Yields (Settles n h) (step f t y h tolerance)
    unfolding step
    steks_step-Settles irreflexive order n system t y h tolerance size =
        Yields-bind (stages-Yields n system t y h size) λ s z.
          Yields-bind (compute_error-Yields n s h tolerance z)
            λ error _. finish-Settles irreflexive order n y h tolerance error s size z
