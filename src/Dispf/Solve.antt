-- ===== src/Dispf/Solve.antt =====
-- DISPFSolver::Step and Solve.
use odeclient_server.Base.Lists.{
  false, ℕ, zero, suc, List, [], ◌∷◌, Bool, not, ◌&&◌, length, replicate, if◌then◌else◌,
}
use odeclient_server.Base.Outcome.{Outcome, ok, ◌>>=◌}
use odeclient_server.Base.Loop.{Flow, again, stop, loop}
use odeclient_server.Base.Double.{Double, lit, ◌+◌, ◌-◌, lt, eq}
use odeclient_server.Storage.{Storage, add}
use odeclient_server.Solver.{OdeFunction, Run}
use odeclient_server.Dispf.{Config, Members, Method, dispfa, dispfb, dispfc, Stepped}
use odeclient_server.Dispf.StepA.{step_dispfa}
use odeclient_server.Dispf.StepB.{step_dispfb}
use odeclient_server.Dispf.StepC.{step_dispfc}

-- The local variables of `Solve`, the storage and the members.
pub record State {ℓ} (W : Type ℓ) : Type ℓ where
  pub run : Run W
  pub members : Members W

module _ {ℓ} {W : Type ℓ} ⦃d : Double W⦄ where
  -- `k.resize(n, std::vector<double>(6, 0.0))`.
  unfoldable pub resize : ℕ → List (List W) → List (List W)
  resize zero k = []
  resize (suc n) [] = replicate 6 (lit 0 0) ∷ resize n []
  resize (suc n) (row ∷ k) = row ∷ resize n k

  module _ (f : OdeFunction W) (config : Config W) (fuel : ℕ) where
    unfoldable pub step_by : Method → W → List W → W → W → Members W → Outcome (Stepped W)
    step_by dispfa = step_dispfa f config fuel fuel
    step_by dispfb = step_dispfb f config fuel fuel
    step_by dispfc = step_dispfc f config fuel

    unfoldable pub step : W → List W → W → W → Members W → Outcome (Stepped W)
    unfolding step_by
    step t y h tolerance s = step_by s.current_method t y h tolerance s

    -- `jumpToRadau5 && GAMMA != 0.0 && (tEnd - t) > h`.
    abbrev pub leaves : W → W → Stepped W → Bool
    leaves t_end t r =
        r.members.jump_to_radau5 && (not (eq config.gamma (lit 0 0)) && lt r.h (t_end - t))

    abbrev pub settle : W → State W → Stepped W → Flow (State W)
    settle t_end s r =
        let t' = s.run.t + r.h in
        if leaves t_end s.run.t r
        then stop (record {
          run = record { t = s.run.t; y = r.y; h = r.h; storage = s.run.storage };
          members = r.members;
        })
        else again (record {
          run = record { t = t'; y = r.y; h = r.h; storage = add s.run.storage t' r.y };
          members = r.members;
        })

    -- One round of `while (t < tEnd)`.
    unfoldable pub round : W → W → State W → Outcome (Flow (State W))
    round t_end tolerance s =
        let h = if lt t_end (s.run.t + s.run.h) then t_end - s.run.t else s.run.h in
        step s.run.t s.run.y h tolerance s.members >>= λ r. ok (settle t_end s r)

    -- The first rounds of `Solve`.
    unfoldable pub solve :
        ℕ → W → W → List W → W → Storage W → W → Members W → Outcome (Flow (State W))
    unfolding round
    solve rounds step_size t0 y0 t_end storage tolerance s =
        loop rounds (λ s. lt s.run.t t_end) (round t_end tolerance)
          (record {
            run = record { t = t0; y = y0; h = step_size; storage = add storage t0 y0 };
            members = record s {
              k = resize (length y0) s.k;
              vn_break_count = 0;
              jump_to_radau5 = false;
            };
          })
