-- ===== src/Dispf/StepB.antt =====
-- DISPFSolver::StepDISPFB.
pub mod Keeps
pub mod Counter
use odeclient_server.Base.Lists.{ℕ, zero, suc, List, ◌&&◌, length, if◌then◌else◌}
use odeclient_server.Base.Outcome.{Outcome, ok, out_of_fuel, ◌>>=◌}
use odeclient_server.Base.Double.{Double, lit, ◌+◌, ◌*◌, ◌/◌, pow, lt, le, min}
use odeclient_server.Solver.{OdeFunction}
use odeclient_server.Dispf.{
  Config, Members, dispfa, dispfc, Stepped, p28, ca1b, d_coef, q, lnq, at, dot, points, set_column,
  scale_column, max_over, end_error, calc_vn, shrink, grow, stages,
}
use odeclient_server.Dispf.Stability.{control_stability}
use odeclient_server.Dispf.StepA.{Started, first_difference, log_ratio}
use odeclient_server.Dispf.StepC.{cn1}

module _ {ℓ} {W : Type ℓ} ⦃d : Double W⦄ where
  -- `(1.0 / 4.0) * k[i][0]`.
  unfoldable pub quarter : List W → Outcome W
  quarter row = do k0 ← at row 0; ok (lit 1 0 / lit 4 0 * k0)

  abbrev pub switch_b : Config W → W → W → W → W → W → W → Members W → Members W
  switch_b config tolerance vn rn vn1 an1 error s =
      let qn1 = pow q vn in
      let qn2 = pow q (min vn rn) in
      if config.variable_order
      then (if lt (lit 285 1) (qn1 * vn1) && le (pow qn2 (lit 2 0) * an1) tolerance
          then record s { current_method = dispfa }
          else if le qn1 (lit 36 1) && le (pow qn2 (lit 6 0) * error) tolerance
          then record s { current_method = dispfc }
          else s)
      else s

  module _ (f : OdeFunction W) where
    -- The first `while (true)`: the stage 2 and its error.
    unfoldable pub start_b : ℕ → W → List W → W → W → List (List W) → Outcome (Started W)
    start_b zero t y h tolerance k = out_of_fuel
    start_b (suc fuel) t y h tolerance k = points quarter y k >>= λ y0.
        f (t + lit 25 2 * h) y0 >>= λ f_stage. set_column 1 h (length y) f_stage k >>= λ k'.
        max_over first_difference (length y) k' (lit 0 0) >>= λ largest.
        let an = largest * (ca1b * d_coef) in
        let factor = shrink tolerance an in
        let again = scale_column factor (length y) k' >>= λ k''.
        start_b fuel t y (h * factor) tolerance k'' in
        if lt tolerance an then again else ok (record { h = h; k = k' })

  module _ (f : OdeFunction W) (config : Config W) where
    -- From the acceptance of the point `y'` on: the stability control stands twice.
    unfoldable pub accept_b :
        W → List W → List W → W → W → W → List W → List (List W) → Members W → Outcome (Stepped W)
    accept_b t y y' h tolerance an1 f_end k s = do
      error ← cn1 (length y) k
      vn1 ← calc_vn k
      let vn = log_ratio (lit 5 1 * lnq) tolerance an1
      let rn = log_ratio lnq (lit 285 1) vn1
      let h' = h * grow tolerance an1
      k' ← set_column 0 h' (length y) f_end k
      s1 ← control_stability f config 40 (lit 285 1) (t + h) y' h' (record s { k = k' })
      s2 ←
          control_stability f config 40 (lit 285 1) (t + h) y' h'
            (switch_b config tolerance vn rn vn1 an1 error s1)
      ok (record { y = y'; h = h'; members = s2 })

    -- `StepDISPFB`, with `inner` fuel for its loop and `fuel` for its calls of itself.
    unfoldable pub step_dispfb : ℕ → ℕ → W → List W → W → W → Members W → Outcome (Stepped W)
    step_dispfb inner zero t y h tolerance s = out_of_fuel
    step_dispfb inner (suc fuel) t y h0 tolerance s = start_b f inner t y h0 tolerance s.k >>= λ r.
        stages f 4 2 t y r.h (length y) r.k >>= λ k. points (dot 6 (lit 0 0) p28) y k >>= λ y'.
        f (t + r.h) y' >>= λ f_end. end_error r.h (length y) f_end k (lit 0 0) >>= λ largest.
        let an1 = largest * (ca1b * d_coef) in
        let factor = shrink tolerance an1 in
        let retry = scale_column factor (length y) k >>= λ k'.
        step_dispfb inner fuel t y (r.h * factor) tolerance (record s { k = k' }) in
        let accept = accept_b t y y' r.h tolerance an1 f_end k s in
        if lt tolerance an1 then retry else accept
