-- ===== src/Steks.antt =====
-- Server/src/odesolvers-lib/src/STEKSSolver.cpp and include/STEKSSolver.hpp.
pub mod Step
pub mod Solve
pub mod Exact
use odeclient_server.Base.Lists.{ℕ, List, [], ◌∷◌, if◌then◌else◌}
use odeclient_server.Base.Outcome.{Outcome, ok, throw, undefined, ◌>>=◌}
use odeclient_server.Base.Loop.{Flow, again, stop, loop}
use odeclient_server.Base.Double.{
  Double, lit, ◌+◌, ◌-◌, ◌*◌, ◌/◌, fabs, pow, exp, negate, lt, max, min, clamp,
}
use odeclient_server.Vectors.{multiply_scalar_by_vector as mul, add_vectors, subtract_vectors, norm}
use odeclient_server.Storage.{Storage, add}
use odeclient_server.Solver.{OdeFunction, Attempt, accepted, rejected, catch_runtime_error, Run}

-- The five stages, `k1` to `k5`.
pub record Stages {ℓ} (W : Type ℓ) : Type ℓ where
  pub k1 : List W
  pub k2 : List W
  pub k3 : List W
  pub k4 : List W
  pub k5 : List W

module _ {ℓ} {W : Type ℓ} ⦃d : Double W⦄ where
  abbrev pub safety : W
  safety = lit 9 1

  abbrev pub min_scale : W
  min_scale = lit 2 1

  abbrev pub max_scale : W
  max_scale = lit 5 0

  -- The loop of `computeError` over `k1.size()`.
  unfoldable pub stability : List W → List W → List W → W → Outcome W
  stability [] k2 k3 acc = ok acc
  stability (a ∷ k1) (b ∷ k2) (c ∷ k3) acc =
      let denominator = if lt (fabs (b - a)) (lit 1 12) then lit 1 12 else b - a in
      stability k1 k2 k3 (max acc (fabs ((c - b) / denominator)))
  stability (_ ∷ k1) _ _ acc = throw undefined

  unfoldable pub compute_error : Stages W → W → W → Outcome W
  compute_error s h tolerance = do
    minuend ← add_vectors (mul (lit 2 0) s.k1) (mul (negate (lit 9 0)) s.k3)
    subtrahend ← add_vectors (mul (lit 8 0) s.k4) s.k5
    precision_term ← subtract_vectors minuend subtrahend
    stable ← stability s.k1 s.k2 s.k3 (lit 0 0)
    let precision_error = (norm precision_term / lit 30 0) / (lit 5 0 * exp (lit 5 0 / lit 4 0))
    ok (max precision_error ((lit 6 0 / lit 35 1) * stable))

  -- The factor by which `Step` scales `h`, on rejection and on acceptance alike.
  abbrev pub scale : W → W → W
  scale tolerance error =
      clamp (safety * pow (tolerance / error) (lit 1 0 / lit 4 0)) min_scale max_scale

  -- `(y + 1/6 k1) + (2/3 k4 + 1/6 k5)`, the point that a step moves to.
  unfoldable pub combine : List W → Stages W → Outcome (List W)
  combine y s = do
    left ← add_vectors y (mul (lit 1 0 / lit 6 0) s.k1)
    right ← add_vectors (mul (lit 2 0 / lit 3 0) s.k4) (mul (lit 1 0 / lit 6 0) s.k5)
    add_vectors left right

  abbrev pub accept : List W → W → W → W → Stages W → Outcome (Attempt W)
  accept y h tolerance error s = do
    y_temp ← combine y s
    ok (accepted y_temp (h * scale tolerance error))

  abbrev pub finish : List W → W → W → W → Stages W → Outcome (Attempt W)
  finish y h tolerance error s =
      if lt tolerance error
      then ok (rejected (h * scale tolerance error))
      else accept y h tolerance error s

  abbrev pub settle : Run W → Attempt W → Flow (Run W)
  settle s (accepted y_new h_attempt) =
      let t' = s.t + h_attempt in
      again (record { t = t'; y = y_new; h = h_attempt; storage = add s.storage t' y_new })
  settle s (rejected h_attempt) = again (record s { h = s.h * lit 5 1 })

  module _ (f : OdeFunction W) where
    unfoldable pub stages : W → List W → W → Outcome (Stages W)
    stages t y h = do
      f1 ← f t y
      let k1 = mul h f1
      y2 ← add_vectors y (mul (lit 1 0 / lit 3 0) k1)
      f2 ← f (t + h / lit 3 0) y2
      let k2 = mul h f2
      y31 ← add_vectors y (mul (lit 1 0 / lit 6 0) k1)
      y3 ← add_vectors y31 (mul (lit 1 0 / lit 6 0) k2)
      f3 ← f (t + h / lit 3 0) y3
      let k3 = mul h f3
      y41 ← add_vectors y (mul (lit 1 0 / lit 8 0) k1)
      y4 ← add_vectors y41 (mul (lit 3 0 / lit 8 0) k3)
      f4 ← f (t + h / lit 2 0) y4
      let k4 = mul h f4
      y51 ← add_vectors y (mul (lit 5 1) k1)
      y53 ← add_vectors y51 (mul (negate (lit 15 1)) k3)
      y5 ← add_vectors y53 (mul (lit 2 0) k4)
      f5 ← f (t + h) y5
      ok (record { k1 = k1; k2 = k2; k3 = k3; k4 = k4; k5 = mul h f5 })

    unfoldable pub step : W → List W → W → W → Outcome (Attempt W)
    step t y h tolerance = do
      s ← stages t y h
      error ← compute_error s h tolerance
      finish y h tolerance error s

    -- One round of `while (t < tEnd)`.
    unfoldable pub round : W → W → Run W → Outcome (Flow (Run W))
    round t_end tolerance s =
        let h_attempt = min s.h (t_end - s.t) in
        let tried = catch_runtime_error h_attempt (step s.t s.y h_attempt tolerance) in
        if lt h_attempt (lit 1 12) then ok (stop s) else tried >>= λ a. ok (settle s a)

    -- The first rounds of `Solve`.
    unfoldable pub solve : ℕ → W → W → List W → W → Storage W → W → Outcome (Flow (Run W))
    unfolding round
    solve rounds step_size t0 y0 t_end storage tolerance =
        loop rounds (λ s. lt s.t t_end) (round t_end tolerance)
          (record { t = t0; y = y0; h = step_size; storage = add storage t0 y0 })
