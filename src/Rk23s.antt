-- ===== src/Rk23s.antt =====
-- Server/src/odesolvers-lib/src/RK23SSolver.cpp and include/RK23SSolver.hpp.
pub mod Step
pub mod Solve
pub mod Exact
use odeclient_server.Base.Lists.{ℕ, List, [], ◌∷◌, if◌then◌else◌}
use odeclient_server.Base.Outcome.{Outcome, ok, throw, undefined, ◌>>=◌}
use odeclient_server.Base.Loop.{Flow, again, stop, loop}
use odeclient_server.Base.Double.{Double, lit, ◌+◌, ◌-◌, ◌*◌, ◌/◌, fabs, pow, lt, max, min}
use odeclient_server.Vectors.{multiply_scalar_by_vector as mul, add_vectors, subtract_vectors, norm}
use odeclient_server.Storage.{Storage, add}
use odeclient_server.Solver.{OdeFunction, Attempt, accepted, rejected, catch_runtime_error, Run}

module _ {ℓ} {W : Type ℓ} ⦃d : Double W⦄ where
  abbrev pub alpha2 : W
  alpha2 = lit 2 0 / lit 3 0

  abbrev pub alpha3 : W
  alpha3 = lit 2 0 / lit 3 0

  abbrev pub beta21 : W
  beta21 = lit 2 0 / lit 3 0

  abbrev pub beta31 : W
  beta31 = lit 1 0 / lit 3 0

  abbrev pub beta32 : W
  beta32 = lit 1 0 / lit 3 0

  abbrev pub p1 : W
  p1 = lit 1 0 / lit 4 0

  abbrev pub p2 : W
  p2 = lit 15 0 / lit 32 0

  abbrev pub p3 : W
  p3 = lit 9 0 / lit 32 0

  abbrev pub g : W
  g = lit 1 0 / lit 16 0

  abbrev pub safety : W
  safety = lit 9 1

  abbrev pub min_scale : W
  min_scale = lit 2 1

  abbrev pub max_scale : W
  max_scale = lit 5 0

  -- `if (fabs(denominator) < 1e-12) denominator = 1e-12`.
  abbrev pub away_from_zero : W → W
  away_from_zero denominator = if lt (fabs denominator) (lit 1 12) then lit 1 12 else denominator

  -- The loop of `computeError` over `k1.size()`.
  unfoldable pub stability : List W → List W → List W → W → Outcome W
  stability [] k2 k3 acc = ok acc
  stability (a ∷ k1) (b ∷ k2) (c ∷ k3) acc =
      stability k1 k2 k3 (max acc (lit 3 0 * fabs ((c - b) / away_from_zero (c - a))))
  stability (_ ∷ k1) _ _ acc = throw undefined

  unfoldable pub compute_error : List W → List W → List W → W → W → Outcome W
  compute_error k1 k2 k3 h tolerance = do
    diff_k2k1 ← subtract_vectors k2 k1
    stable ← stability k1 k2 k3 (lit 0 0)
    let err_precision = (lit 6 0 * alpha2 * tolerance) / (lit 1 0 - lit 6 0 * g) * norm diff_k2k1
    ok (max err_precision stable)

  -- The factors by which `Step` scales `h` on rejection and on acceptance.
  abbrev pub ratio : W → W → W
  ratio tolerance error = safety * pow (tolerance / error) (lit 1 0 / lit 3 0)

  abbrev pub settle : Run W → Attempt W → Flow (Run W)
  settle s (accepted y_new h_attempt) =
      let t' = s.t + h_attempt in
      again (record { t = t'; y = y_new; h = h_attempt; storage = add s.storage t' y_new })
  settle s (rejected h_attempt) = again (record s { h = h_attempt * lit 5 1 })

  -- `y + (p1 k1 + (p2 k2 + p3 k3))`, the point that a step moves to.
  unfoldable pub combine : List W → List W → List W → List W → Outcome (List W)
  combine y k1 k2 k3 = do
    k23 ← add_vectors (mul p2 k2) (mul p3 k3)
    k123 ← add_vectors (mul p1 k1) k23
    add_vectors y k123

  abbrev pub accept : List W → W → W → W → List W → List W → List W → Outcome (Attempt W)
  accept y h tolerance error k1 k2 k3 = do
    y_temp ← combine y k1 k2 k3
    ok (accepted y_temp (h * min (ratio tolerance error) max_scale))

  abbrev pub finish : List W → W → W → W → List W → List W → List W → Outcome (Attempt W)
  finish y h tolerance error k1 k2 k3 =
      if lt tolerance error
      then ok (rejected (h * max (ratio tolerance error) min_scale))
      else accept y h tolerance error k1 k2 k3

  module _ (f : OdeFunction W) where
    unfoldable pub step : W → List W → W → W → Outcome (Attempt W)
    step t y h tolerance = do
      f1 ← f t y
      let k1 = mul h f1
      y2 ← add_vectors y (mul beta21 k1)
      f2 ← f (t + alpha2 * h) y2
      let k2 = mul h f2
      k12 ← add_vectors (mul beta31 k1) (mul beta32 k2)
      y3 ← add_vectors y k12
      f3 ← f (t + alpha3 * h) y3
      let k3 = mul h f3
      error ← compute_error k1 k2 k3 h tolerance
      finish y h tolerance error k1 k2 k3

    -- One round of `while (t < tEnd)`.
    unfoldable pub round : W → W → Run W → Outcome (Flow (Run W))
    round t_end tolerance s =
        let h_attempt = min s.h (t_end - s.t) in
        let tried = catch_runtime_error h_attempt (step s.t s.y h_attempt tolerance) in
        if lt h_attempt (lit 1 12) then ok (stop s) else tried >>= λ a. ok (settle s a)

    -- The first rounds of `Solve`.
    unfoldable pub solve : ℕ → W → W → List W → W → Storage W → W → Outcome (Flow (Run W))
    unfolding round
    solve rounds step_size t0 y0 t_end storage tolerance =
        loop rounds (λ s. lt s.t t_end) (round t_end tolerance)
          (record { t = t0; y = y0; h = step_size; storage = add storage t0 y0 })
