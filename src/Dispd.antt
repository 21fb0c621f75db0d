-- ===== src/Dispd.antt =====
-- Server/src/odesolvers-lib/src/DISPDSolver.cpp and include/DISPDSolver.hpp.
pub mod Step
pub mod Solve
pub mod Quadrature
use Prim.Native.Nat.{◌+◌ as plus, ◌*◌ as times}
use odeclient_server.Base.Lists.{
  ℕ, zero, suc, List, [], ◌∷◌, Bool, true, false, ◌||◌, if◌then◌else◌,
}
use odeclient_server.Base.Outcome.{Outcome, ok, throw, undefined, out_of_fuel, ◌>>=◌, runtime_error}
use odeclient_server.Base.Loop.{Flow, again, stop, loop}
use odeclient_server.Base.Double.{
  Double, lit, ◌+◌, ◌-◌, ◌*◌, ◌/◌, fabs, pow, log, lt, max, min, clamp,
}
use odeclient_server.Vectors.{multiply_scalar_by_vector as mul, add_vectors, subtract_vectors, norm}
use odeclient_server.Storage.{Storage, add}
use odeclient_server.Solver.{OdeFunction, Attempt, accepted, rejected, catch_runtime_error, Run}

-- `struct SchemeParams`.
pub record SchemeParams {ℓ} (W : Type ℓ) : Type ℓ where
  pub p1 : W
  pub p2 : W
  pub p3 : W
  pub g : W

pub record KTerms {ℓ} (W : Type ℓ) : Type ℓ where
  pub k1 : List W
  pub k2 : List W
  pub k3 : List W

-- The references of `Step` and the member `currentScheme` when it returns.
pub record Stepped {ℓ} (W : Type ℓ) : Type ℓ where
  pub y : List W
  pub h : W
  pub scheme : SchemeParams W

-- The local variables of `Solve`, the storage and the member `currentScheme`.
pub record State {ℓ} (W : Type ℓ) : Type ℓ where
  pub run : Run W
  pub scheme : SchemeParams W

-- How a pass of the loop over `attempts` ends: with a new `h`, or with a step taken.
pub data Pass {ℓ} (W : Type ℓ) : Type ℓ where
  retry : W → Pass W
  taken : List W → W → Pass W

module _ {ℓ} {W : Type ℓ} ⦃d : Double W⦄ where
  abbrev pub safety : W
  safety = lit 8 1

  abbrev pub min_scale : W
  min_scale = lit 2 1

  abbrev pub max_scale : W
  max_scale = lit 5 0

  -- `(std::abs(1 - 6 * currentScheme.g) / divisor) * Norm(diff)`.
  abbrev pub weighted : SchemeParams W → W → List W → W
  weighted scheme divisor diff = (fabs (lit 1 0 - lit 6 0 * scheme.g) / divisor) * norm diff

  unfoldable pub compute_aprime : SchemeParams W → List W → List W → Outcome W
  compute_aprime scheme k1 k2 = do
    diff ← subtract_vectors k2 k1
    ok (weighted scheme (lit 4 0) diff)

  unfoldable pub compute_addouble_prime : SchemeParams W → W → List W → List W → Outcome W
  compute_addouble_prime scheme h k1 y_next = do
    diff ← subtract_vectors (mul h y_next) k1
    ok (weighted scheme (lit 6 0) diff)

  -- The loop of `computeV` over `k1.size()`.
  unfoldable pub max_ratio : List W → List W → List W → W → Outcome W
  max_ratio [] k2 k3 acc = ok acc
  max_ratio (a ∷ k1) (b ∷ k2) (c ∷ k3) acc =
      let denominator = if lt (fabs (b - a)) (lit 1 12) then lit 1 12 else b - a in
      max_ratio k1 k2 k3 (max acc (fabs ((c - b) / denominator)))
  max_ratio (_ ∷ k1) _ _ acc = throw undefined

  unfoldable pub compute_v : KTerms W → Outcome W
  compute_v k = do ratio ← max_ratio k.k1 k.k2 k.k3 (lit 0 0); ok (lit 3 0 * ratio)

  unfoldable pub should_switch_to_scheme_b : SchemeParams W → W → W → Bool
  should_switch_to_scheme_b scheme h tolerance = lt (scheme.g * tolerance) (h * max_scale)

  abbrev pub scheme_b : SchemeParams W
  scheme_b = record {
    p1 = lit 7 0 / lit 9 0;
    p2 = lit 16 0 / lit 81 0;
    p3 = lit 2 0 / lit 81 0;
    g = lit 0 0;
  }

  unfoldable pub switch_scheme : Bool → SchemeParams W → SchemeParams W
  switch_scheme true scheme = scheme_b
  switch_scheme false scheme = record {
    p1 = lit 1 0 / lit 4 0;
    p2 = (lit 3 0 - lit 18 0 * scheme.g) / lit 4 0;
    p3 = lit 9 0 / lit 2 0 * scheme.g;
    g = lit 15 2;
  }

  -- The scheme that `Step` leaves after an accepted step.
  abbrev pub rescheme : SchemeParams W → W → W → SchemeParams W
  rescheme scheme h tolerance =
      if should_switch_to_scheme_b scheme h tolerance then switch_scheme true scheme else scheme

  module _ (f : OdeFunction W) (q : W) where
    unfoldable pub compute_k_terms : W → List W → W → Outcome (KTerms W)
    compute_k_terms t y h = do
      f1 ← f t y
      let k1 = mul h f1
      y2 ← add_vectors y (mul (lit 2 0 / lit 3 0) k1)
      f2 ← f t y2
      let k2 = mul h f2
      y31 ← add_vectors y (mul (lit 1 0 / lit 3 0) k1)
      y3 ← add_vectors y31 (mul (lit 1 0 / lit 3 0) k2)
      f3 ← f t y3
      ok (record { k1 = k1; k2 = k2; k3 = mul h f3 })

    -- `log(tolerance / (pow(q, 2*attempts) * error)) / (2 * log(q))`, for `sn` and `vn`.
    abbrev pub slack : W → ℕ → W → W
    slack tolerance attempts error =
        log (tolerance / (pow q (lit (times 2 attempts) 0) * error)) / (lit 2 0 * log q)

    -- The part of a pass from `computeV` on.
    unfoldable pub stable_pass : ℕ → W → W → W → W → W → KTerms W → List W → Outcome (Pass W)
    stable_pass attempts h tolerance a_prime sn vn k y_next = do
      v ← compute_v k
      let rn = log (lit 18 0 / (pow q (lit attempts 0) * v)) / log q
      let scale =
          clamp (safety * min (min (pow q sn) (pow q vn)) (min (pow q rn) max_scale)) min_scale
            max_scale
      ok (
          if lt (lit 18 0 / pow q (lit attempts 0)) v
            || lt (tolerance / pow q (lit (times 2 attempts) 0)) a_prime
          then retry (h * scale)
          else taken y_next (h * scale))

    -- The part of a pass from the next point on.
    unfoldable pub accurate_pass :
        SchemeParams W → ℕ → W → List W → W → W → W → W → KTerms W → Outcome (Pass W)
    accurate_pass scheme attempts t y h tolerance a_prime sn k = do
      k23 ← add_vectors (mul scheme.p2 k.k2) (mul scheme.p3 k.k3)
      k123 ← add_vectors (mul scheme.p1 k.k1) k23
      y_next ← add_vectors y k123
      f_next ← f (t + h) y_next
      add_prime ← compute_addouble_prime scheme h k.k1 (mul h f_next)
      let vn = slack tolerance attempts add_prime
      if lt vn (lit 0 0)
          then ok (retry (h * pow q vn))
          else stable_pass attempts h tolerance a_prime sn vn k y_next

    -- One pass of `while (!stepAccepted && attempts < 10)`.
    unfoldable pub pass : SchemeParams W → ℕ → W → List W → W → W → Outcome (Pass W)
    pass scheme attempts t y h tolerance = do
      k ← compute_k_terms t y h
      a_prime ← compute_aprime scheme k.k1 k.k2
      let sn = slack tolerance attempts a_prime
      if lt sn (lit 0 0)
          then ok (retry (h * pow q sn))
          else accurate_pass scheme attempts t y h tolerance a_prime sn k

    -- The passes, with `left` of the ten attempts to go; then what follows the loop.
    unfoldable pub step_from : ℕ → ℕ → SchemeParams W → W → List W → W → W → Outcome (Stepped W)
    step_from zero attempts scheme t y h tolerance = throw (runtime_error "Step adaptation failed")
    step_from (suc left) attempts scheme t y h tolerance =
        pass scheme attempts t y h tolerance >>= elim [
          | retry h' ↦ step_from left (suc attempts) scheme t y h' tolerance
          | taken y' h' ↦ ok (record { y = y'; h = h'; scheme = rescheme scheme h' tolerance })
        ]

    unfoldable pub step : SchemeParams W → W → List W → W → W → Outcome (Stepped W)
    unfolding step_from
    step scheme t y h tolerance = step_from 10 0 scheme t y h tolerance

    -- After `try { Step … }` with its `catch (const std::runtime_error&)`.
    abbrev pub settle : State W → Outcome (Stepped W) → Outcome (Flow (State W))
    settle s (ok r) =
        let t' = s.run.t + r.h in
        ok (
          again (record {
            run = record { t = t'; y = r.y; h = r.h; storage = add s.run.storage t' r.y };
            scheme = r.scheme;
          }))
    settle s (throw (runtime_error m)) = ok (
        again (record s {
          run = record { t = s.run.t; y = s.run.y; h = s.run.h * lit 5 1; storage = s.run.storage };
        }))
    settle s (throw e) = throw e
    settle s out_of_fuel = out_of_fuel

    -- One round of `while (t < tEnd)`.
    unfoldable pub round : W → W → State W → Outcome (Flow (State W))
    round t_end tolerance s =
        let h_attempt = min s.run.h (t_end - s.run.t) in
        let tried = settle s (step s.scheme s.run.t s.run.y h_attempt tolerance) in
        if lt h_attempt (lit 1 12) then ok (stop s) else tried

    -- The first rounds of `Solve`, from what `currentScheme` holds, which no constructor sets.
    unfoldable pub solve :
        SchemeParams W → ℕ → W → W → List W → W → Storage W → W → Outcome (Flow (State W))
    unfolding round
    solve scheme rounds step_size t0 y0 t_end storage tolerance =
        loop rounds (λ s. lt s.run.t t_end) (round t_end tolerance)
          (record {
            run = record { t = t0; y = y0; h = step_size; storage = add storage t0 y0 };
            scheme = switch_scheme false scheme;
          })
