-- ===== src/Dispf/StepA.antt =====
-- DISPFSolver::StepDISPFA.
pub mod Keeps
use odeclient_server.Base.Lists.{ℕ, zero, suc, List, ◌&&◌, length, if◌then◌else◌}
use odeclient_server.Base.Outcome.{Outcome, ok, out_of_fuel, ◌>>=◌}
use odeclient_server.Base.Double.{Double, lit, ◌+◌, ◌-◌, ◌*◌, ◌/◌, log, pow, lt, eq, min}
use odeclient_server.Solver.{OdeFunction}
use odeclient_server.Dispf.{
  Config, Members, dispfb, Stepped, p72, ca1a, q, lnq, max_double, at, dot, stad_scalar, points,
  set_column, scale_column, max_over, end_error, calc_vn, shrink, grow, stages,
}
use odeclient_server.Dispf.Stability.{control_stability}

-- What the first stage leaves: the step size and the matrix.
pub record Started {ℓ} (W : Type ℓ) : Type ℓ where
  pub h : W
  pub k : List (List W)

module _ {ℓ} {W : Type ℓ} ⦃d : Double W⦄ where
  -- `k[i][1] - k[i][0]`.
  unfoldable pub first_difference : List W → Outcome W
  first_difference row = do k1 ← at row 1; k0 ← at row 0; ok (k1 - k0)

  -- `(error != 0.0) ? scale * log(bound / error) : MAXDOUBLE`.
  abbrev pub log_ratio : W → W → W → W
  log_ratio scale bound error =
      if eq error (lit 0 0) then max_double else scale * log (bound / error)

  abbrev pub switch_a : Config W → W → W → W → Members W → Members W
  switch_a config vn rn vn1 s =
      if config.variable_order && lt (pow q (min vn rn) * vn1) (lit 285 1)
      then record s { current_method = dispfb }
      else s

  module _ (f : OdeFunction W) where
    -- The first `while (true)`: the stage 2 and its error.
    unfoldable pub start_a : ℕ → W → List W → W → W → List (List W) → Outcome (Started W)
    start_a zero t y h tolerance k = out_of_fuel
    start_a (suc fuel) t y h tolerance k = points (stad_scalar 1) y k >>= λ y0.
        f (t + lit 25 2 * h) y0 >>= λ f_stage. set_column 1 h (length y) f_stage k >>= λ k'.
        max_over first_difference (length y) k' (lit 0 0) >>= λ largest.
        let an = largest * ca1a in
        let factor = shrink tolerance an in
        let again = scale_column factor (length y) k' >>= λ k''.
        start_a fuel t y (h * factor) tolerance k'' in
        if lt tolerance an then again else ok (record { h = h; k = k' })

  module _ (f : OdeFunction W) (config : Config W) where
    -- From the acceptance of the point `y'` on.
    unfoldable pub accept_a :
        W → List W → List W → W → W → W → List W → List (List W) → Members W → Outcome (Stepped W)
    accept_a t y y' h tolerance an1 f_end k s = do
      vn1 ← calc_vn k
      let vn = log_ratio (lit 5 1 * lnq) tolerance an1
      let rn = log_ratio lnq (lit 72 0) vn1
      let h' = h * grow tolerance an1
      k' ← set_column 0 h' (length y) f_end k
      s' ← control_stability f config 40 (lit 72 0) (t + h) y' h' (record s { k = k' })
      ok (record { y = y'; h = h'; members = switch_a config vn rn vn1 s' })

    -- `StepDISPFA`, with `inner` fuel for its loop and `fuel` for its calls of itself.
    unfoldable pub step_dispfa : ℕ → ℕ → W → List W → W → W → Members W → Outcome (Stepped W)
    step_dispfa inner zero t y h tolerance s = out_of_fuel
    step_dispfa inner (suc fuel) t y h0 tolerance s = start_a f inner t y h0 tolerance s.k >>= λ r.
        stages f 4 2 t y r.h (length y) r.k >>= λ k. points (dot 6 (lit 0 0) p72) y k >>= λ y'.
        f (t + r.h) y' >>= λ f_end. end_error r.h (length y) f_end k (lit 0 0) >>= λ largest.
        let an1 = largest * ca1a in
        let factor = shrink tolerance an1 in
        let retry = scale_column factor (length y) k >>= λ k'.
        step_dispfa inner fuel t y (r.h * factor) tolerance (record s { k = k' }) in
        let accept = accept_a t y y' r.h tolerance an1 f_end k s in
        if lt tolerance an1 then retry else accept
