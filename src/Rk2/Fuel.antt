-- ===== src/Rk2/Fuel.antt =====
-- RK2Solver::Step with more fuel.
use odeclient_server.Base.Lists.{ℕ, zero, suc, ◌≤◌, refl, inl, inr, List, arith}
use odeclient_server.Base.Double.{Double, le}
use odeclient_server.Base.Fuel.{Extends, Extends-same, Extends-bind, Extends-if}
use odeclient_server.Solver.{OdeFunction, Run}
use odeclient_server.Rk2.{trial, step, round}

module _ {ℓ} {W : Type ℓ} ⦃d : Double W⦄ (f : OdeFunction W) where
  step-Extends :
      (n m : ℕ)
      → n ≤ m
      → (t : W) (y : List W) (h tolerance : W)
      → Extends (step f n t y h tolerance) (step f m t y h tolerance)
  unfolding step
  step-Extends zero m more t y h tolerance = inl refl
  step-Extends (suc n) zero more t y h tolerance = absurd (omega arith)
  step-Extends (suc n) (suc m) more t y h tolerance = Extends-same (trial f t y h) λ r.
      Extends-if (le r.error tolerance) (inr refl) (step-Extends n m (omega arith) t y _ tolerance)

  pub round-Extends :
      (n m : ℕ)
      → n ≤ m
      → (t_end tolerance : W) (s : Run W)
      → Extends (round f n t_end tolerance s) (round f m t_end tolerance s)
  unfolding round
  round-Extends n m more t_end tolerance s =
      Extends-bind (step-Extends n m more s.t s.y _ tolerance) λ r. inr refl
