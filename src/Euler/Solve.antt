-- ===== src/Euler/Solve.antt =====
-- EulerSolver::Solve: the trajectory that it stores.
use odeclient_server.Base.Lists.{
  ℕ, ◌≡◌, ◌⊎◌, refl, List, HasSize, true, false, Bool-cases, inl, inr,
}
use odeclient_server.Base.Outcome.{Yields, ok, yields, Yields-value}
use odeclient_server.Base.Loop.{Owes, loop-Yields}
use odeclient_server.Base.Double.{Double, lit, ◌+◌, ◌-◌, ◌*◌, lt, le, min}
use odeclient_server.Storage.{Storage, Row}
use odeclient_server.Solver.{OdeFunction, Attempt, accepted, rejected, IsSystem, Run}
use odeclient_server.Solver.Journey.{Journey, Journey-start, Journey-stay, Journey-add}
use odeclient_server.Euler.{settle, round, solve}
use odeclient_server.Euler.Step.{IsAccepted, IsRejected, Settles, euler_step-Settles}

module _ {ℓ} {W : Type ℓ} ⦃d : Double W⦄ (f : OdeFunction W) (n : ℕ) (t_end tolerance : W) where
  -- The step that a round with `h` tries from `t`: at most the time that is left.
  abbrev pub attempt : W → W → W
  attempt h t = min h (t_end - t)

  -- A round with `h` that goes on from `p` to `q`: a step that `Step` accepts. The time moves on by
  -- the size that `Step` leaves, with which the next round begins.
  pub record Moves (h : W) (p : Row W) (h_next : W) (q : Row W) : Type ℓ where
    pub before : lt p.0 t_end ≡ true
    pub positive : le (attempt h p.0) (lit 0 0) ≡ false
    pub accepts : IsAccepted f n p.0 p.1 (attempt h p.0) tolerance q.1 h_next
    pub time : q.0 ≡ p.0 + h_next

  -- A round with `h` that stays at `p`: a step that `Step` rejects. The next round begins with half
  -- of the size that `Step` leaves.
  pub record Retries (h : W) (p : Row W) (h_next : W) : Type ℓ where
    pub before : lt p.0 t_end ≡ true
    pub positive : le (attempt h p.0) (lit 0 0) ≡ false
    pub h_left : W
    pub rejects : IsRejected f p.0 p.1 (attempt h p.0) tolerance h_left
    pub halved : h_next ≡ h_left * lit 5 1

  -- `Solve` ends where `t < tEnd` fails, or where the step that is left is not positive.
  abbrev pub IsDone : Run W → Type 0
  IsDone s = (lt s.t t_end ≡ false) ⊎ (le (attempt s.h s.t) (lit 0 0) ≡ true)

  module _ (base : Storage W) (step_size : W) (first : Row W) where
    abbrev pub Sound : Run W → Type ℓ
    Sound s = Journey Moves Retries base step_size first s.h (s.t, s.y) s.storage × HasSize n s.y

    round-Sound :
        IsSystem n f
        → (s : Run W) → Sound s
        → lt s.t t_end ≡ true
        → Yields (Owes Sound (λ r. Sound r × IsDone r)) (round f t_end tolerance s)
    unfolding round
    round-Sound system s (journey, size) before =
        let h_attempt = attempt s.h s.t in
        let (a, e, settles) =
          Yields-value (euler_step-Settles f n system s.t s.y h_attempt tolerance size) in
        elim (Bool-cases (le h_attempt (lit 0 0))) [
          | inl small ↦ rw small (yields ((journey, size), inr small))
          | inr positive ↦ rw (positive, e) (go a settles positive)
        ]
      where
        go :
            (a : Attempt W)
            → Settles f n s.t s.y (attempt s.h s.t) tolerance a
            → le (attempt s.h s.t) (lit 0 0) ≡ false
            → Yields (Owes Sound (λ r. Sound r × IsDone r)) (ok (settle s a))
        go (accepted y' h') acc positive = yields (
          Journey-add Moves Retries h' (s.t + h') y' journey
              (record { before = before; positive = positive; accepts = acc; time = refl }),
          acc.size,
        )
        go (rejected h') rej positive = yields (
          Journey-stay Moves Retries (h' * lit 5 1) journey (record {
            before = before;
            positive = positive;
            h_left = h';
            rejects = rej;
            halved = refl;
          }),
          size,
        )

  pub euler_solve-Sound :
      IsSystem n f
      → (rounds : ℕ) (step_size t0 : W) (y0 : List W) (storage : Storage W) → HasSize n y0
      → let P = Sound storage step_size (t0, y0) in
        Yields
          (Owes P (λ s. P s × IsDone s))
          (solve f rounds step_size t0 y0 t_end storage tolerance)
  unfolding solve
  euler_solve-Sound system rounds step_size t0 y0 storage size =
      let P = Sound storage step_size (t0, y0) in
      loop-Yields P (λ s. P s × IsDone s) (λ s. lt s.t t_end) (round f t_end tolerance)
        (round-Sound storage step_size (t0, y0) system) (λ s h e. (h, inl e)) rounds _
        (Journey-start Moves Retries storage step_size t0 y0, size)
