-- ===== src/Dispf/StepC.antt =====
-- DISPFSolver::StepDISPFC. `t` is the copy that `Step` has, so its final value is not returned.
pub mod Keeps
use odeclient_server.Base.Lists.{ℕ, zero, suc, List, ◌&&◌, length, if◌then◌else◌}
use odeclient_server.Base.Outcome.{Outcome, ok, out_of_fuel, ◌>>=◌}
use odeclient_server.Base.Double.{Double, lit, ◌+◌, ◌*◌, ◌/◌, lt, le}
use odeclient_server.Solver.{OdeFunction}
use odeclient_server.Dispf.{
  Config, Members, dispfb, Stepped, p36, p_difference, ca1b, d_coef, dot, points, set_column,
  scale_column, max_over, end_error, calc_vn, shrink, grow, stages,
}
use odeclient_server.Dispf.Stability.{control_stability}

module _ {ℓ} {W : Type ℓ} ⦃d : Double W⦄ where
  -- `Cn1`.
  unfoldable pub cn1 : ℕ → List (List W) → Outcome W
  cn1 n k = do
    largest ← max_over (dot 6 (lit 0 0) p_difference) n k (lit 0 0)
    ok (largest * (lit 17 0 / lit 24 0))

  abbrev pub switch_c : Config W → W → W → W → Members W → Members W
  switch_c config tolerance vn an1 s =
      if config.variable_order && (lt (lit 36 1) vn && le an1 tolerance)
      then record s { current_method = dispfb }
      else s

  module _ (f : OdeFunction W) (config : Config W) where
    -- From the new approximation on.
    unfoldable pub finish_c : W → List W → W → W → List (List W) → Members W → Outcome (Stepped W)
    finish_c t y h tolerance k s = do
      y' ← points (dot 6 (lit 0 0) p36) y k
      ff ← f (t + h) y'
      largest ← end_error h (length y) ff k (lit 0 0)
      let an1 = largest * (ca1b * d_coef)
      vn ← calc_vn k
      s' ← control_stability f config 34 (lit 72 0) (t + h) y' h (record s { k = k })
      ok (record {
        y = y';
        h = h * grow tolerance an1;
        members = switch_c config tolerance vn an1 s';
      })

    -- `while (true)`, from the column 0 of `k`.
    unfoldable pub loop_c : ℕ → W → List W → W → W → List (List W) → Members W → Outcome (Stepped W)
    loop_c zero t y h tolerance k s = out_of_fuel
    loop_c (suc fuel) t y h tolerance k s = stages f 5 1 t y h (length y) k >>= λ k'.
        cn1 (length y) k' >>= λ error.
        let factor = shrink tolerance error in
        let again = scale_column factor (length y) k' >>= λ k''.
        loop_c fuel t y (h * factor) tolerance k'' s in
        let accept = finish_c t y h tolerance k' s in if lt tolerance error then again else accept

    unfoldable pub step_dispfc : ℕ → W → List W → W → W → Members W → Outcome (Stepped W)
    step_dispfc fuel t y h tolerance s = do
      ff ← f t y
      k ← set_column 0 h (length y) ff s.k
      loop_c fuel t y h tolerance k s
