-- ===== src/Disps/Stages.antt =====
-- DISPSSolver.cpp, DoOneStep and the steps of 3, 5 and 6 stages. Each returns the next point and
-- `kStages`.
use odeclient_server.Base.Lists.{ℕ, suc, List, [], ◌∷◌, ◌==◌, if◌then◌else◌}
use odeclient_server.Base.Outcome.{Outcome, ok, throw, runtime_error, ◌>>=◌}
use odeclient_server.Base.Double.{Double, lit, ◌+◌, ◌*◌, ◌/◌, negate}
use odeclient_server.Solver.{OdeFunction}
use odeclient_server.Disps.{DispsVariant, at, add, mul}

module _ {ℓ} {W : Type ℓ} ⦃d : Double W⦄ where
  -- `yNext = Add(yNext, Mul(p[i], k_i))` for each stage in turn.
  unfoldable pub combine : List W → List W → List (List W) → ℕ → Outcome (List W)
  combine y_next p [] i = ok y_next
  combine y_next p (k ∷ ks) i = do
    weight ← at p i
    y ← add y_next (mul weight k)
    combine y p ks (suc i)

  module _ (f : OdeFunction W) where
    unfoldable pub step3_stage : W → List W → W → List W → Outcome (List W × List (List W))
    step3_stage t y h p = do
      f1 ← f t y
      let k1 = mul h f1
      y2 ← add y (mul (lit 2 0 / lit 3 0) k1)
      f2 ← f (t + lit 2 0 / lit 3 0 * h) y2
      let k2 = mul h f2
      y31 ← add y (mul (lit 1 0 / lit 3 0) k1)
      y3 ← add y31 (mul (lit 1 0 / lit 3 0) k2)
      f3 ← f (t + h) y3
      let k_stages = k1 ∷ k2 ∷ mul h f3 ∷ []
      y_next ← combine y p k_stages 0
      ok (y_next, k_stages)

    unfoldable pub step5_stage : W → List W → W → List W → Outcome (List W × List (List W))
    step5_stage t y h p = do
      f1 ← f t y
      let k1 = mul h f1
      y2 ← add y (mul (lit 1 0 / lit 3 0) k1)
      f2 ← f (t + lit 1 0 / lit 3 0 * h) y2
      let k2 = mul h f2
      y31 ← add y (mul (lit 1 0 / lit 6 0) k1)
      y3 ← add y31 (mul (lit 1 0 / lit 6 0) k2)
      f3 ← f (t + lit 1 0 / lit 2 0 * h) y3
      let k3 = mul h f3
      y41 ← add y (mul (lit 1 0 / lit 8 0) k1)
      y4 ← add y41 (mul (lit 1 0 / lit 8 0) k3)
      f4 ← f (t + lit 3 0 / lit 4 0 * h) y4
      let k4 = mul h f4
      y51 ← add y (mul (lit 1 0 / lit 2 0) k1)
      y53 ← add y51 (mul (negate (lit 3 0) / lit 2 0) k3)
      y5 ← add y53 (mul (lit 2 0) k4)
      f5 ← f (t + h) y5
      let k_stages = k1 ∷ k2 ∷ k3 ∷ k4 ∷ mul h f5 ∷ []
      y_next ← combine y p k_stages 0
      ok (y_next, k_stages)

    unfoldable pub step6_stage : W → List W → W → List W → Outcome (List W × List (List W))
    step6_stage t y h p = do
      f1 ← f t y
      let k1 = mul h f1
      y2 ← add y (mul (lit 5 1) k1)
      f2 ← f (t + lit 5 1 * h) y2
      let k2 = mul h f2
      y3 ← add y (mul (lit 5 1) k2)
      f3 ← f (t + lit 5 1 * h) y3
      let k3 = mul h f3
      y4 ← add y (mul (lit 5 1) k3)
      f4 ← f (t + lit 5 1 * h) y4
      let k4 = mul h f4
      y51 ← add y (mul (lit 497828275994247056 18) k1)
      y5 ← add y51 (mul (lit 2171724005752944 18) k4)
      f5 ← f (t + lit 5 1 * h) y5
      let k5 = mul h f5
      y6 ← add y k5
      f6 ← f (t + h) y6
      let k_stages = k1 ∷ k2 ∷ k3 ∷ k4 ∷ k5 ∷ mul h f6 ∷ []
      y_next ← combine y p k_stages 0
      ok (y_next, k_stages)

    unfoldable pub do_one_step : W → List W → W → DispsVariant W → Outcome (List W × List (List W))
    do_one_step t y h variant =
        if variant.stages == 3
        then step3_stage t y h variant.p
        else if variant.stages == 5
        then step5_stage t y h variant.p
        else if variant.stages == 6
        then step6_stage t y h variant.p
        else throw (runtime_error "Неизвестное число стадий")
