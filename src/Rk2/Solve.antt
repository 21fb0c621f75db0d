-- ===== src/Rk2/Solve.antt =====
-- RK2Solver::Solve: the trajectory that it stores.
use odeclient_server.Base.Lists.{ℕ, ◌≡◌, refl, List, HasSize, true, false}
use odeclient_server.Base.Outcome.{Post, returns, Never, Post-bind}
use odeclient_server.Base.Loop.{Owes, loop-Post}
use odeclient_server.Base.Double.{Double, ◌+◌, ◌-◌, lt, min}
use odeclient_server.Storage.{Storage, Row}
use odeclient_server.Solver.{OdeFunction, IsSystem, Run}
use odeclient_server.Solver.Journey.{Journey, Journey-start, Journey-add}
use odeclient_server.Rk2.{settle, round, solve}
use odeclient_server.Rk2.Step.{Tries, step-Tries}

module _ {ℓ} {W : Type ℓ} ⦃d : Double W⦄ (f : OdeFunction W) (n : ℕ) (t_end tolerance : W) where
  -- A round with `h` that goes on from `p` to `q`: what `Step` comes to by its tries, from at most the
  -- time that is left. The time moves on by the size that `Step` leaves, with which the next round
  -- begins.
  pub record Moves (h : W) (p : Row W) (h_next : W) (q : Row W) : Type ℓ where
    pub before : lt p.0 t_end ≡ true
    pub tries : Tries f p.0 p.1 tolerance (min h (t_end - p.0)) (q.1, h_next)
    pub time : q.0 ≡ p.0 + h_next
    pub size : HasSize n q.1

  -- No round stays at its point.
  pub data Retries (h : W) (p : Row W) (h_next : W) : Type ℓ where

  abbrev pub Sound : Storage W → W → Row W → Run W → Type ℓ
  Sound base step_size first s =
      Journey Moves Retries base step_size first s.h (s.t, s.y) s.storage × HasSize n s.y

  -- `Solve` ends only where `t < tEnd` fails.
  abbrev pub Ends : Storage W → W → Row W → Run W → Type ℓ
  Ends base step_size first s = Sound base step_size first s × (lt s.t t_end ≡ false)

  settle-Sound :
      (base : Storage W) (step_size : W) (first : Row W) (s : Run W) (r : List W × W)
      → Sound base step_size first s
      → lt s.t t_end ≡ true
      → Tries f s.t s.y tolerance (min s.h (t_end - s.t)) r × HasSize n r.0
      → Owes (Sound base step_size first) (Ends base step_size first) (settle f s r)
  settle-Sound base step_size first s (y, h) (journey, _) before (tries, size) = (
    Journey-add Moves Retries h (s.t + h) y journey
        (record { before = before; tries = tries; time = refl; size = size }),
    size,
  )

  module _ (system : IsSystem n f) (fuel : ℕ) where
    round-Sound :
        (base : Storage W) (step_size : W) (first : Row W) (s : Run W)
        → Sound base step_size first s
        → lt s.t t_end ≡ true
        → Post
            (Owes (Sound base step_size first) (Ends base step_size first))
            Never
            (round f fuel t_end tolerance s)
    unfolding round
    round-Sound base step_size first s sound before =
        Post-bind (step-Tries f n system fuel s.t s.y (min s.h (t_end - s.t)) tolerance sound.1)
          λ r p. returns (settle-Sound base step_size first s r sound before p)

    -- `Solve` on a system of `n` equations, from a point of `n` numbers, throws nothing. After any number
    -- of rounds that return it has added to the storage the points of a path of rounds, from the
    -- initial point and the initial step size on: each round, at a time before `tEnd`, begins with its
    -- own size or, if less, the time that is left, and goes on to the point that the tries of `Step`
    -- lead to, the size that it leaves for the next round added to the time. It ends only where
    -- `t < tEnd` fails.
    pub rk2_solve-Sound :
        (rounds : ℕ) (step_size t0 : W) (y0 : List W) (storage : Storage W)
        → HasSize n y0
        → Post
            (Owes (Sound storage step_size (t0, y0)) (Ends storage step_size (t0, y0)))
            Never
            (solve f fuel rounds step_size t0 y0 t_end storage tolerance)
    unfolding solve
    rk2_solve-Sound rounds step_size t0 y0 storage size =
        loop-Post (Sound storage step_size (t0, y0)) (Ends storage step_size (t0, y0))
          (λ s. lt s.t t_end) (round f fuel t_end tolerance) Never
          (round-Sound storage step_size (t0, y0)) (λ s h e. (h, e)) rounds _
          (Journey-start Moves Retries storage step_size t0 y0, size)
