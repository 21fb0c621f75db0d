-- ===== src/DispsOld.antt =====
-- Server/src/odesolvers-lib/src/DISPSSolver_old.cpp and include/DISPSSolver_old.hpp: the solver that
-- DISPSSolver has replaced, with a fixed step and the first enabled variant. The steps that do not
-- return their stages are told by `old` from those of Disps/Stages.
pub mod Steps
pub mod Trajectory
use odeclient_server.Base.Lists.{
  ℕ, suc, List, [], ◌∷◌, ◌++◌, map, length, Bool, ◌==◌, if◌then◌else◌,
}
use odeclient_server.Base.Outcome.{Outcome, ok, throw, runtime_error, ◌>>=◌}
use odeclient_server.Base.Loop.{Flow, again, stop, loop}
use odeclient_server.Base.Double.{Double, lit, ◌+◌, ◌-◌, ◌*◌, ◌/◌, negate, lt, min}
use odeclient_server.Vectors.{zip_with}
use odeclient_server.Solver.{OdeFunction}
use odeclient_server.Disps.{DispsEnabledFlags, at, sixth}

-- `struct DispsVariant_old`.
pub record DispsVariantOld {ℓ} (W : Type ℓ) : Type ℓ where
  pub stages : ℕ
  pub p : List W

-- The local variables of `Solve`.
pub record State {ℓ} (W : Type ℓ) : Type ℓ where
  pub t : W
  pub y : List W
  pub results : List (List W)

module _ {ℓ} {W : Type ℓ} ⦃d : Double W⦄ where
  unfoldable pub add_old : List W → List W → Outcome (List W)
  add_old a b =
      if length a == length b
      then ok (zip_with (λ x y. x + y) a b)
      else throw (runtime_error "Размеры векторов не совпадают (Add)")

  unfoldable pub mul_old : W → List W → List W
  mul_old alpha v = map (λ x. alpha * x) v

  abbrev pub push_if_old : Bool → ℕ → List W → List (DispsVariantOld W)
  push_if_old flag stages p = if flag then record { stages = stages; p = p } ∷ [] else []

  -- `methods`, in the order in which the constructor tests the flags.
  abbrev pub enabled_old : DispsEnabledFlags → List (DispsVariantOld W)
  enabled_old flags =
      push_if_old flags.disps13 3
        (lit 76561395265924 14 ∷ lit 2066991671971 13 ∷ lit 27686880143657 15 ∷ [])
      ++ (push_if_old flags.disps23 3
            (lit 25 2 ∷ lit 461290700433682 15 ∷ lit 28870929566318 14 ∷ [])
          ++ (push_if_old flags.disps15 5 (
                lit 49900087977418 14
                ∷ lit 33439107198377 14
                ∷ lit 15517028825608 14
                ∷ lit 11387362618405 15
                ∷ lit 50397367568471 18
                ∷ [])
              ++ (push_if_old flags.disps25 5 (
                    lit 25 2
                    ∷ lit 39269911064722 14
                    ∷ lit 2811818347201 13
                    ∷ lit 6530730655278 14
                    ∷ lit 10811748097894 15
                    ∷ [])
                  ++ (push_if_old flags.disps35 5 (
                        sixth
                        ∷ negate (lit 2644193175547 12)
                        ∷ lit 15929230363104 14
                        ∷ lit 31515675385826 13
                        ∷ sixth
                        ∷ [])
                      ++ push_if_old flags.disps36 6 (
                          sixth
                          ∷ negate (lit 60414736520435 13)
                          ∷ lit 12355552068869 14
                          ∷ lit 18196838110013 14
                          ∷ lit 64026164169214 13
                          ∷ sixth
                          ∷ [])))))

  abbrev pub nonempty_old : List (DispsVariantOld W) → Outcome (List (DispsVariantOld W))
  nonempty_old [] = throw (runtime_error "Нет включённых вариантов DISPS")
  nonempty_old (v ∷ vs) = ok (v ∷ vs)

  -- The constructor: `methods`, with `currentMethodIndex` 0.
  unfoldable pub construct_old : DispsEnabledFlags → Outcome (List (DispsVariantOld W))
  construct_old flags = nonempty_old (enabled_old flags)

  -- `yNext = Add(yNext, Mul(p[i], k_i))` for each stage in turn.
  unfoldable pub combine_old : List W → List W → List (List W) → ℕ → Outcome (List W)
  combine_old y_next p [] i = ok y_next
  combine_old y_next p (k ∷ ks) i = do
    weight ← at p i
    y ← add_old y_next (mul_old weight k)
    combine_old y p ks (suc i)

  module _ (f : OdeFunction W) where
    unfoldable pub step3_old : W → List W → W → List W → Outcome (List W)
    step3_old t y h p = do
      f1 ← f t y
      let k1 = mul_old h f1
      y2 ← add_old y (mul_old (lit 2 0 / lit 3 0) k1)
      f2 ← f (t + lit 2 0 / lit 3 0 * h) y2
      let k2 = mul_old h f2
      y31 ← add_old y (mul_old (lit 1 0 / lit 3 0) k1)
      y3 ← add_old y31 (mul_old (lit 1 0 / lit 3 0) k2)
      f3 ← f (t + lit 1 0 * h) y3
      combine_old y p (k1 ∷ k2 ∷ mul_old h f3 ∷ []) 0

    unfoldable pub step5_old : W → List W → W → List W → Outcome (List W)
    step5_old t y h p = do
      f1 ← f t y
      let k1 = mul_old h f1
      y2 ← add_old y (mul_old (lit 1 0 / lit 3 0) k1)
      f2 ← f (t + lit 1 0 / lit 3 0 * h) y2
      let k2 = mul_old h f2
      y31 ← add_old y (mul_old (lit 1 0 / lit 6 0) k1)
      y3 ← add_old y31 (mul_old (lit 1 0 / lit 6 0) k2)
      f3 ← f (t + lit 1 0 / lit 2 0 * h) y3
      let k3 = mul_old h f3
      y41 ← add_old y (mul_old (lit 1 0 / lit 8 0) k1)
      y4 ← add_old y41 (mul_old (lit 1 0 / lit 8 0) k3)
      f4 ← f (t + lit 3 0 / lit 4 0 * h) y4
      let k4 = mul_old h f4
      y51 ← add_old y (mul_old (lit 1 0 / lit 2 0) k1)
      y53 ← add_old y51 (mul_old (negate (lit 3 0) / lit 2 0) k3)
      y5 ← add_old y53 (mul_old (lit 2 0) k4)
      f5 ← f (t + lit 1 0 * h) y5
      combine_old y p (k1 ∷ k2 ∷ k3 ∷ k4 ∷ mul_old h f5 ∷ []) 0

    unfoldable pub step6_old : W → List W → W → List W → Outcome (List W)
    step6_old t y h p = do
      f1 ← f t y
      let k1 = mul_old h f1
      y2 ← add_old y (mul_old (lit 5 1) k1)
      f2 ← f (t + lit 5 1 * h) y2
      let k2 = mul_old h f2
      y3 ← add_old y (mul_old (lit 5 1) k2)
      f3 ← f (t + lit 5 1 * h) y3
      let k3 = mul_old h f3
      y4 ← add_old y (mul_old (lit 5 1) k3)
      f4 ← f (t + lit 5 1 * h) y4
      let k4 = mul_old h f4
      y51 ← add_old y (mul_old (lit 497828275994247056 18) k1)
      y5 ← add_old y51 (mul_old (lit 2171724005752944 18) k4)
      f5 ← f (t + lit 5 1 * h) y5
      let k5 = mul_old h f5
      y6 ← add_old y k5
      f6 ← f (t + h) y6
      combine_old y p (k1 ∷ k2 ∷ k3 ∷ k4 ∷ k5 ∷ mul_old h f6 ∷ []) 0

    -- `DoStep`: the new `y`.
    unfoldable pub do_step : W → List W → W → DispsVariantOld W → Outcome (List W)
    do_step t y h variant =
        if variant.stages == 3
        then step3_old t y h variant.p
        else if variant.stages == 5
        then step5_old t y h variant.p
        else if variant.stages == 6
        then step6_old t y h variant.p
        else throw (runtime_error "Пока поддерживаются только 3- или 5-стадийные варианты.")

    -- One round of `while (t < tEnd)`.
    unfoldable pub round_old : List (DispsVariantOld W) → W → W → State W → Outcome (Flow (State W))
    round_old methods step_size t_end s =
        let h_attempt = min step_size (t_end - s.t) in
        let t' = s.t + h_attempt in
        let stepped = do
          variant ← at methods 0
          y' ← do_step s.t s.y h_attempt variant
          ok (again (record { t = t'; y = y'; results = s.results ++ ((t' ∷ y') ∷ []) }))
        in if lt h_attempt (lit 1 14) then ok (stop s) else stepped

    -- The first rounds of `Solve`, which does not read `tolerance`.
    unfoldable pub solve_old :
        List (DispsVariantOld W) → ℕ → W → W → List W → W → Outcome (Flow (State W))
    unfolding round_old
    solve_old methods rounds step_size t0 y0 t_end =
        loop rounds (λ s. lt s.t t_end) (round_old methods step_size t_end)
          (record { t = t0; y = y0; results = (t0 ∷ y0) ∷ [] })
