-- ===== src/Disps/Solve.antt =====
-- DISPSSolver::Solve.
use odeclient_server.Base.Lists.{ℕ, zero, suc, List, [], ◌∷◌, ◌++◌, ◌&&◌, if◌then◌else◌}
use odeclient_server.Base.Outcome.{Outcome, ok, ◌>>=◌}
use odeclient_server.Base.Loop.{Flow, again, stop, loop}
use odeclient_server.Base.Double.{Double, lit, ◌+◌, ◌-◌, ◌*◌, lt, max, min}
use odeclient_server.Solver.{OdeFunction}
use odeclient_server.Disps.{DispsVariant, at, switch_scheme}
use odeclient_server.Disps.Stages.{do_one_step}
use odeclient_server.Disps.Control.{Verdict, control, is_disps25}

-- The local variables of `Solve`, with `stepSize_` and `currentIndex_`.
pub record State {ℓ} (W : Type ℓ) : Type ℓ where
  pub t : W
  pub y : List W
  pub results : List (List W)
  pub step_size : W
  pub current : ℕ

-- How the tries of a step end: with the new state, or, no step accepted, with `hAttempt`.
pub data Tried {ℓ} (W : Type ℓ) : Type ℓ where
  stepped : State W → Tried W
  given_up : State W → W → Tried W

module _ {ℓ} {W : Type ℓ} ⦃d : Double W⦄ (f : OdeFunction W)
    (variants : List (DispsVariant W)) where
  -- The branch `if (ok)`.
  abbrev pub advance : State W → W → List W → Verdict W → Outcome (Tried W)
  advance s h y_next v =
      let t' = s.t + h in
      let moved = λ (i : ℕ). stepped (record {
        t = t';
        y = y_next;
        results = s.results ++ ((t' ∷ y_next) ∷ []);
        step_size = v.new_h;
        current = i;
      }) in
      if v.need_switch
      then (switch_scheme variants s.current >>= λ i. ok (moved i))
      else ok (moved s.current)

  -- `for (tries = 0; tries < 30 && !stepAccepted; tries++)`, with `left` tries to go.
  unfoldable pub tries : ℕ → DispsVariant W → State W → W → W → Outcome (Tried W)
  tries zero variant s h tolerance = ok (given_up s h)
  tries (suc left) variant s h tolerance = do_one_step f s.t s.y h variant >>= λ (y_next, k_stages).
      control variant k_stages h tolerance >>= λ v.
      let rest = tries left variant s v.new_h tolerance in
      if v.accept
      then advance s h y_next v
      else if is_disps25 variant && lt v.new_h h
      then (switch_scheme variants s.current >>= λ i. ok (given_up (record s { current = i }) h))
      else rest

  abbrev pub settle : Tried W → Flow (State W)
  settle (stepped s) = again s
  settle (given_up s h) = again (record s { step_size = max (h * lit 5 1) (lit 1 10) })

  -- One round of `while (t < tEnd)`.
  unfoldable pub round : W → W → State W → Outcome (Flow (State W))
  round t_end tolerance s =
      let h_attempt = min s.step_size (t_end - s.t) in
      let tried = do
        variant ← at variants s.current
        r ← tries 30 variant s h_attempt tolerance
        ok (settle r)
      in if lt h_attempt (lit 1 14) then ok (stop s) else tried

  -- The first rounds of `Solve`, from what `stepSize_` and `currentIndex_` hold.
  unfoldable pub solve : ℕ → W → ℕ → W → List W → W → W → Outcome (Flow (State W))
  unfolding round
  solve rounds step_size current t0 y0 t_end tolerance =
      loop rounds (λ s. lt s.t t_end) (round t_end tolerance)
        (record {
          t = t0;
          y = y0;
          results = (t0 ∷ y0) ∷ [];
          step_size = step_size;
          current = current;
        })
