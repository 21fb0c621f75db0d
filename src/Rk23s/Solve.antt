-- ===== src/Rk23s/Solve.antt =====
-- RK23SSolver::Solve: the trajectory that it stores.
use odeclient_server.Base.Lists.{Bool, ℕ, List, HasSize}
use odeclient_server.Base.Outcome.{Outcome, Yields, Yields-map}
use odeclient_server.Base.Loop.{Owes}
use odeclient_server.Base.Double.{Double, lit, ◌*◌, lt, IsIrreflexive}
use odeclient_server.Storage.{Storage, Row}
use odeclient_server.Solver.{OdeFunction, Attempt, accepted, rejected, IsSystem, Run}
use odeclient_server.Solver.Journey.{Journey, Journey-start}
use odeclient_server.Solver.Adaptive
use odeclient_server.Solver.Adaptive.{Keeps}
use odeclient_server.Rk23s.{step, solve}
use odeclient_server.Rk23s.Step.{Settles, rk23s_step-Settles}

module _ {ℓ} {W : Type ℓ} ⦃d : Double W⦄ where
  abbrev too_small : W → Bool
  too_small h = lt h (lit 1 12)

  abbrev cut : W → W → W
  cut h h_left = h_left * lit 5 1

  Settles-Keeps : (n : ℕ) (h : W) (a : Attempt W) → Settles n h a → Keeps n a
  Settles-Keeps n h (accepted y' h') (_, _, _, size) = size
  Settles-Keeps n h (rejected h') _ = tt

  module _ (f : OdeFunction W) (n : ℕ) (t_end tolerance : W) where
    abbrev attempt : W → List W → W → Outcome (Attempt W)
    attempt t y h = step f t y h tolerance

    -- A round that goes on to a point that `Step` accepts, and one that stays.
    abbrev pub Moves : W → Row W → W → Row W → Type ℓ
    Moves = Adaptive.Moves attempt too_small cut n t_end

    abbrev pub Retries : W → Row W → W → Type ℓ
    Retries = Adaptive.Retries attempt too_small cut n t_end

    abbrev pub Sound : Storage W → W → Row W → Run W → Type ℓ
    Sound base step_size first s =
        Journey Moves Retries base step_size first s.h (s.t, s.y) s.storage × HasSize n s.y

    abbrev pub IsDone : Run W → Type 0
    IsDone = Adaptive.IsDone attempt too_small cut n t_end

    pub rk23s_solve-Sound :
        IsIrreflexive W
        → IsSystem n f
        → (rounds : ℕ) (step_size t0 : W) (y0 : List W) (storage : Storage W) → HasSize n y0
        → let P = Sound storage step_size (t0, y0) in
          Yields
            (Owes P (λ s. P s × IsDone s))
            (solve f rounds step_size t0 y0 t_end storage tolerance)
    unfolding solve
    rk23s_solve-Sound irreflexive system rounds step_size t0 y0 storage size =
        Adaptive.loop-Sound attempt too_small cut n t_end
          (λ t y h s.
            Yields-map (Settles-Keeps n h)
              (rk23s_step-Settles f irreflexive n system t y h tolerance s))
          storage step_size (t0, y0) rounds _
          (Journey-start Moves Retries storage step_size t0 y0, size)
