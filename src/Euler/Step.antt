-- ===== src/Euler/Step.antt =====
-- EulerSolver::Step: what a trial step returns.
use odeclient_server.Base.Lists.{
  inr, inl, Bool-cases, length, ℕ, ◌≡◌, refl, List, [], ◌∷◌, HasSize, true, false, arith,
}
use odeclient_server.Base.Outcome.{Yields-value, ok, Yields, yields}
use odeclient_server.Base.Double.{Double, lit, ◌+◌, ◌*◌, lt}
use odeclient_server.Vectors.{multiply_scalar_by_vector, add_vectors}
use odeclient_server.Vectors.Laws.{add-Yields, multiply_scalar-HasSize}
use odeclient_server.Solver.{IsSystem, OdeFunction, Attempt, accepted, rejected}
use odeclient_server.Euler.{step, local_error, grow, shrink}

module _ {ℓ} {W : Type ℓ} ⦃d : Double W⦄ where
  local_error-Yields :
      (h : W) (y f_next f_curr : List W) (error : W)
      → length f_next ≡ length y
      → length f_curr ≡ length y
      → Yields (λ _. Unit {0}) (local_error h y f_next f_curr error)
  unfolding local_error
  local_error-Yields h [] f_next f_curr error p q = yields tt
  local_error-Yields h (_ ∷ y) [] f_curr error p q = absurd (omega arith)
  local_error-Yields h (_ ∷ y) (a ∷ f_next) [] error p q = absurd (omega arith)
  local_error-Yields h (_ ∷ y) (a ∷ f_next) (b ∷ f_curr) error p q =
      local_error-Yields h y f_next f_curr _ (omega arith) (omega arith)

  module _ (f : OdeFunction W) where
    -- An accepted step: its slope, its error, the point that it moves to and the next step size.
    pub record IsAccepted (n : ℕ) (t : W) (y : List W) (h tolerance : W) (y' : List W) (h' : W)
        : Type ℓ where
      pub slope : List W
      pub slope_eq : f t y ≡ ok slope
      pub moved : add_vectors y (multiply_scalar_by_vector h slope) ≡ ok y'
      pub f_next : List W
      pub next_eq : f (t + h) y' ≡ ok f_next
      pub error : W
      pub error_eq : local_error h y f_next slope (lit 0 0) ≡ ok error
      pub within : lt tolerance error ≡ false
      pub scaled : h' ≡ h * grow tolerance error
      pub size : HasSize n y'

    -- A rejected step: the local error is above the tolerance, and `h` is scaled down.
    pub record IsRejected (t : W) (y : List W) (h tolerance h' : W) : Type ℓ where
      pub slope : List W
      pub slope_eq : f t y ≡ ok slope
      pub y_temp : List W
      pub moved : add_vectors y (multiply_scalar_by_vector h slope) ≡ ok y_temp
      pub f_next : List W
      pub next_eq : f (t + h) y_temp ≡ ok f_next
      pub error : W
      pub error_eq : local_error h y f_next slope (lit 0 0) ≡ ok error
      pub above : lt tolerance error ≡ true
      pub scaled : h' ≡ h * shrink tolerance error

    abbrev pub Settles : ℕ → W → List W → W → W → Attempt W → Type ℓ
    Settles n t y h tolerance (accepted y' h') = IsAccepted n t y h tolerance y' h'
    Settles n t y h tolerance (rejected h') = IsRejected t y h tolerance h'

    -- For a system of `n` equations and a point of `n` numbers `Step` throws nothing but its own
    -- rejection. Its error is the largest of |0.5 h d| over the components d of the difference of
    -- the slopes at (t + h, y + h f(t, y)) and at (t, y): where it is not above the tolerance,
    -- `Step` accepts the point y + h f(t, y) and scales `h` by the growth factor, and where it is,
    -- `Step` rejects and scales `h` by the shrinking factor.
    pub euler_step-Settles :
        (n : ℕ)
        → IsSystem n f
        → (t : W) (y : List W) (h tolerance : W) → HasSize n y
        → Yields (Settles n t y h tolerance) (step f t y h tolerance)
    unfolding step
    euler_step-Settles n system t y h tolerance size =
        let (slope, slope_eq, s1) = Yields-value (system t y size) in
        let (y', moved, s2) = Yields-value (add-Yields n size (multiply_scalar-HasSize n h s1)) in
        let (next, next_eq, s3) = Yields-value (system (t + h) y' s2) in
        let (error, error_eq, _) =
          Yields-value (local_error-Yields h y next slope (lit 0 0) (omega arith) (omega arith)) in
        rw (slope_eq, moved, next_eq, error_eq)
          (yields (elim (Bool-cases (lt tolerance error)) [
            | inl above ↦ rw above (record {
              slope = slope;
              slope_eq = slope_eq;
              y_temp = y';
              moved = moved;
              f_next = next;
              next_eq = next_eq;
              error = error;
              error_eq = error_eq;
              above = above;
              scaled = refl;
            })
            | inr within ↦ rw within (record {
              slope = slope;
              slope_eq = slope_eq;
              moved = moved;
              f_next = next;
              next_eq = next_eq;
              error = error;
              error_eq = error_eq;
              within = within;
              scaled = refl;
              size = s2;
            })
          ]))
