-- ===== src/Euler.antt =====
-- Server/src/odesolvers-lib/src/EulerSolver.cpp and include/EulerSolver.hpp.
pub mod Step
pub mod Solve
use odeclient_server.Base.Lists.{ℕ, List, [], ◌∷◌, Bool, if◌then◌else◌}
use odeclient_server.Base.Outcome.{Outcome, ok, throw, undefined, ◌>>=◌}
use odeclient_server.Base.Loop.{Flow, again, stop, loop}
use odeclient_server.Base.Double.{Double, lit, ◌+◌, ◌-◌, ◌*◌, ◌/◌, fabs, sqrt, lt, le, max, min}
use odeclient_server.Vectors.{multiply_scalar_by_vector, add_vectors}
use odeclient_server.Storage.{Storage, add}
use odeclient_server.Solver.{OdeFunction, Attempt, accepted, rejected, catch_runtime_error, Run}

module _ {ℓ} {W : Type ℓ} ⦃d : Double W⦄ where
  abbrev pub safety_factor : W
  safety_factor = lit 9 1

  abbrev pub max_factor : W
  max_factor = lit 2 0

  abbrev pub min_factor : W
  min_factor = lit 2 1

  -- `for (i = 0; i < y.size(); ++i)` over the two derivatives.
  unfoldable pub local_error : W → List W → List W → List W → W → Outcome W
  local_error h [] f_next f_curr error = ok error
  local_error h (_ ∷ y) (a ∷ f_next) (b ∷ f_curr) error =
      local_error h y f_next f_curr (max error (fabs (lit 5 1 * h * (a - b))))
  local_error h (_ ∷ y) _ _ error = throw undefined

  -- The factors by which `Step` scales `h` on rejection and on acceptance.
  abbrev pub shrink : W → W → W
  shrink tolerance error = max (safety_factor * sqrt (tolerance / error)) min_factor

  abbrev pub grow : W → W → W
  grow tolerance error = min (safety_factor * sqrt (tolerance / (error + lit 1 12))) max_factor

  abbrev pub adapt : W → List W → W → W → Attempt W
  adapt tolerance y_temp h error =
      if lt tolerance error
      then rejected (h * shrink tolerance error)
      else accepted y_temp (h * grow tolerance error)

  abbrev pub settle : Run W → Attempt W → Flow (Run W)
  settle s (accepted y_new h_attempt) =
      let t' = s.t + h_attempt in
      again (record { t = t'; y = y_new; h = h_attempt; storage = add s.storage t' y_new })
  settle s (rejected h_attempt) = again (record s { h = h_attempt * lit 5 1 })

  module _ (f : OdeFunction W) where
    unfoldable pub step : W → List W → W → W → Outcome (Attempt W)
    step t y h tolerance = do
      slope ← f t y
      y_temp ← add_vectors y (multiply_scalar_by_vector h slope)
      f_curr ← f t y
      f_next ← f (t + h) y_temp
      error ← local_error h y f_next f_curr (lit 0 0)
      ok (adapt tolerance y_temp h error)

    -- One round of `while (t < tEnd)`.
    unfoldable pub round : W → W → Run W → Outcome (Flow (Run W))
    round t_end tolerance s =
        let h_attempt = min s.h (t_end - s.t) in
        let tried = catch_runtime_error h_attempt (step s.t s.y h_attempt tolerance) in
        if le h_attempt (lit 0 0) then ok (stop s) else tried >>= λ a. ok (settle s a)

    -- The first rounds of `Solve`.
    unfoldable pub solve : ℕ → W → W → List W → W → Storage W → W → Outcome (Flow (Run W))
    unfolding round
    solve rounds step_size t0 y0 t_end storage tolerance =
        loop rounds (λ s. lt s.t t_end) (round t_end tolerance)
          (record { t = t0; y = y0; h = step_size; storage = add storage t0 y0 })
