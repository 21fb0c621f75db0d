-- ===== src/Dispf/Stability.antt =====
-- The stability control that ends each of the three steps, and the counter `vnBreakCount`.
use Prim.Native.Nat.{◌+◌ as plus}
use odeclient_server.Base.Lists.{ℕ, List, Bool, true, not, ◌&&◌, ltb, if◌then◌else◌}
use odeclient_server.Base.Outcome.{Outcome, ok, ◌>>=◌}
use odeclient_server.Base.Double.{Double, lit, ◌*◌, ◌/◌, lt, eq}
use odeclient_server.Solver.{OdeFunction}
use odeclient_server.Dispf.{Config, Members}
use odeclient_server.Dispf.Jacobian.{estimate_jacobian_eigenvalue}

module _ {ℓ} {W : Type ℓ} ⦃d : Double W⦄ where
  -- `lambda_est != 0.0 && (h * lambda_est) / interval < GAMMA`.
  abbrev pub is_stiff : W → W → W → W → Bool
  is_stiff gamma interval h lambda_est =
      not (eq lambda_est (lit 0 0)) && lt ((h * lambda_est) / interval) gamma

  -- The counter goes up, and the jump is set where it is then above `limit`; or it is reset.
  abbrev pub count_break : ℕ → Bool → Members W → Members W
  count_break limit stiff s =
      if stiff
      then record s {
        vn_break_count = plus s.vn_break_count 1;
        jump_to_radau5 = if ltb limit (plus s.vn_break_count 1) then true else s.jump_to_radau5;
      }
      else record s { vn_break_count = 0 }

  module _ (f : OdeFunction W) (config : Config W) where
    abbrev pub measure_stability : ℕ → W → W → List W → W → Members W → Outcome (Members W)
    measure_stability limit interval t y h s = do
      lambda_est ← estimate_jacobian_eigenvalue f config.jacobian_method t y
      ok (count_break limit (is_stiff config.gamma interval h lambda_est) s)

    -- `if (stabilityControlEnabled) { … }`.
    unfoldable pub control_stability : ℕ → W → W → List W → W → Members W → Outcome (Members W)
    control_stability limit interval t y h s =
        if config.stability_control_enabled then measure_stability limit interval t y h s else ok s
