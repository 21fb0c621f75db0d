-- ===== src/Rk2.antt =====
-- Server/src/odesolvers-lib/src/RK2Solver.cpp and include/RK2Solver.hpp. `Step` throws nothing of
-- its own: it tries again until the error is within the tolerance.
pub mod Step
pub mod Solve
pub mod Fuel
pub mod Exact
use odeclient_server.Base.Lists.{ℕ, zero, suc, List, if◌then◌else◌}
use odeclient_server.Base.Outcome.{Outcome, ok, out_of_fuel, ◌>>=◌}
use odeclient_server.Base.Loop.{Flow, again, stop, loop}
use odeclient_server.Base.Double.{Double, lit, ◌+◌, ◌-◌, ◌*◌, ◌/◌, pow, lt, le, max, min, clamp}
use odeclient_server.Vectors.{multiply_scalar_by_vector as mul, add_vectors, subtract_vectors, norm}
use odeclient_server.Storage.{Storage, add}
use odeclient_server.Solver.{OdeFunction, Run}

-- What one pass of `while (true)` computes: the next point and the error of it.
pub record Trial {ℓ} (W : Type ℓ) : Type ℓ where
  pub y_next : List W
  pub error : W

module _ {ℓ} {W : Type ℓ} ⦃d : Double W⦄ where
  abbrev pub b21 : W
  b21 = lit 2 0 / lit 3 0

  abbrev pub p1 : W
  p1 = lit 1 0 / lit 4 0

  abbrev pub p2 : W
  p2 = lit 3 0 / lit 4 0

  abbrev pub safety_factor : W
  safety_factor = lit 9 1

  abbrev pub max_factor : W
  max_factor = lit 5 0

  abbrev pub min_factor : W
  min_factor = lit 2 1

  abbrev pub factor : W → W → W
  factor tolerance error = safety_factor * pow (tolerance / error) (lit 1 0 / lit 3 0)

  module _ (f : OdeFunction W) where
    unfoldable pub trial : W → List W → W → Outcome (Trial W)
    trial t y h = do
      f1 ← f t y
      let k1 = mul h f1
      y2 ← add_vectors y (mul b21 k1)
      f2 ← f t y2
      let k2 = mul h f2
      k12 ← add_vectors (mul p1 k1) (mul p2 k2)
      y_next ← add_vectors y k12
      f_next ← f (t + h) y_next
      let hf_next = mul h f_next
      diff1 ← subtract_vectors k2 k1
      diff2 ← subtract_vectors hf_next k1
      ok (record { y_next = y_next; error = max (norm diff1 / lit 4 0) (norm diff2 / lit 6 0) })

    -- The new values of the references `y` and `h`. The fuel bounds the passes of `while (true)`.
    unfoldable pub step : ℕ → W → List W → W → W → Outcome (List W × W)
    step zero t y h tolerance = out_of_fuel
    step (suc fuel) t y h tolerance = trial t y h >>= λ r.
        let retry = step fuel t y (h * max (factor tolerance r.error) min_factor) tolerance in
        if le r.error tolerance
        then ok (r.y_next, h * clamp (factor tolerance r.error) min_factor max_factor)
        else retry

    abbrev pub settle : Run W → List W × W → Flow (Run W)
    settle s (y, h_current) =
        let t' = s.t + h_current in
        again (record { t = t'; y = y; h = h_current; storage = add s.storage t' y })

    -- One round of `while (t < tEnd)`.
    unfoldable pub round : ℕ → W → W → Run W → Outcome (Flow (Run W))
    round fuel t_end tolerance s =
        step fuel s.t s.y (min s.h (t_end - s.t)) tolerance >>= λ r. ok (settle s r)

    -- The first rounds of `Solve`, with fuel for each call of `Step`.
    unfoldable pub solve : ℕ → ℕ → W → W → List W → W → Storage W → W → Outcome (Flow (Run W))
    unfolding round
    solve fuel rounds step_size t0 y0 t_end storage tolerance =
        loop rounds (λ s. lt s.t t_end) (round fuel t_end tolerance)
          (record { t = t0; y = y0; h = step_size; storage = add storage t0 y0 })
