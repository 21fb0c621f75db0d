-- ===== src/Dispd/Solve.antt =====
-- DISPDSolver::Solve: the trajectory that it stores.
use odeclient_server.Base.Lists.{
  ℕ, ◌≡◌, ◌⊎◌, List, HasSize, refl, true, false, Bool-cases, inl, inr,
}
use odeclient_server.Base.Outcome.{Outcome, ok, throw, runtime_error, Yields, yields}
use odeclient_server.Base.Loop.{Owes, loop-Yields}
use odeclient_server.Base.Double.{Double, lit, ◌+◌, ◌-◌, ◌*◌, lt, min, IsIrreflexive}
use odeclient_server.Storage.{Storage, Row}
use odeclient_server.Solver.{OdeFunction, IsSystem}
use odeclient_server.Solver.Journey.{Journey, Journey-start, Journey-stay, Journey-add}
use odeclient_server.Dispd.{
  SchemeParams, Stepped, State, min_scale, max_scale, settle, step, switch_scheme, round, solve,
}
use odeclient_server.Dispd.Step.{TakenBy, StepEnds, took, failed, dispd_step-StepEnds}

module _ {ℓ} {W : Type ℓ} ⦃d : Double W⦄ (f : OdeFunction W) (q : W) (n : ℕ)
    (t_end tolerance : W) where
  -- What a round begins with: the size `h`, and what `currentScheme` holds.
  abbrev pub Setting : Type ℓ
  Setting = W × SchemeParams W

  -- The step that a round with `h` tries from `t`: at most the time that is left.
  abbrev pub attempt : W → W → W
  attempt h t = min h (t_end - t)

  -- A round that goes on from `p` to `r`: a step that a pass of `Step` takes under the scheme of the
  -- round. The time moves on by the size that `Step` leaves, with which the next round begins, and
  -- with the scheme that `Step` leaves.
  pub record Moves (x : Setting) (p : Row W) (x' : Setting) (r : Row W) : Type ℓ where
    pub before : lt p.0 t_end ≡ true
    pub large : lt (attempt x.0 p.0) (lit 1 12) ≡ false
    pub stepped : Stepped W
    pub steps : step f q x.1 p.0 p.1 (attempt x.0 p.0) tolerance ≡ ok stepped
    pub taken : TakenBy f q n x.1 p.0 p.1 tolerance stepped
    pub moved : r ≡ (p.0 + stepped.h, stepped.y)
    pub next : x' ≡ (stepped.h, stepped.scheme)

  -- A round that stays at `p`: `Step` gives up. The size is halved and the scheme stays.
  pub record Retries (x : Setting) (p : Row W) (x' : Setting) : Type ℓ where
    pub before : lt p.0 t_end ≡ true
    pub large : lt (attempt x.0 p.0) (lit 1 12) ≡ false
    pub gives_up :
        step f q x.1 p.0 p.1 (attempt x.0 p.0) tolerance
        ≡ throw (runtime_error "Step adaptation failed")
    pub halved : x' ≡ (x.0 * lit 5 1, x.1)

  abbrev pub Sound : Storage W → Setting → Row W → State W → Type ℓ
  Sound base x0 first s =
      Journey Moves Retries base x0 first (s.run.h, s.scheme) (s.run.t, s.run.y) s.run.storage
      × HasSize n s.run.y

  -- `Solve` ends where `t < tEnd` fails, or where the step that is left is below 1e-12.
  abbrev pub IsDone : State W → Type 0
  IsDone s = (lt s.run.t t_end ≡ false) ⊎ (lt (attempt s.run.h s.run.t) (lit 1 12) ≡ true)

  module _ (system : IsSystem n f) (irreflexive : IsIrreflexive W)
      (order : lt {W = W} max_scale min_scale ≡ false) where
    settle-Sound :
        (base : Storage W) (x0 : Setting) (first : Row W) (s : State W) (r : Outcome (Stepped W))
        → Sound base x0 first s
        → lt s.run.t t_end ≡ true
        → lt (attempt s.run.h s.run.t) (lit 1 12) ≡ false
        → step f q s.scheme s.run.t s.run.y (attempt s.run.h s.run.t) tolerance ≡ r
        → StepEnds f q n s.scheme s.run.t s.run.y tolerance r
        → Yields
            (Owes (Sound base x0 first) (λ u. Sound base x0 first u × IsDone u))
            (settle f q s r)
    settle-Sound base x0 first s _ (journey, size) before large e (took {r} taken) = yields (
      Journey-add Moves Retries (r.h, r.scheme) (s.run.t + r.h) r.y journey
          (record {
            before = before;
            large = large;
            stepped = r;
            steps = e;
            taken = taken;
            moved = refl;
            next = refl;
          }),
      taken.size,
    )
    settle-Sound base x0 first s _ (journey, size) before large e failed = yields (
      Journey-stay Moves Retries (s.run.h * lit 5 1, s.scheme) journey
          (record { before = before; large = large; gives_up = e; halved = refl }),
      size,
    )

    round-Sound :
        (base : Storage W) (x0 : Setting) (first : Row W) (s : State W)
        → Sound base x0 first s
        → lt s.run.t t_end ≡ true
        → Yields
            (Owes (Sound base x0 first) (λ u. Sound base x0 first u × IsDone u))
            (round f q t_end tolerance s)
    unfolding round
    round-Sound base x0 first s sound before =
        let h = attempt s.run.h s.run.t in
        let ends =
          dispd_step-StepEnds f q n system irreflexive order s.scheme s.run.t s.run.y h tolerance
            sound.1 in
        elim (Bool-cases (lt h (lit 1 12))) [
          | inl small ↦ rw small (yields (sound, inr small))
          | inr large ↦ rw large (settle-Sound base x0 first s _ sound before large refl ends)
        ]

  pub dispd_solve-Sound :
      IsSystem n f
      → IsIrreflexive W
      → lt {W = W} max_scale min_scale ≡ false
      → (scheme : SchemeParams W) (rounds : ℕ) (step_size t0 : W) (y0 : List W)
        (storage : Storage W)
      → HasSize n y0
      → let P = Sound storage (step_size, switch_scheme false scheme) (t0, y0) in
        Yields
          (Owes P (λ s. P s × IsDone s))
          (solve f q scheme rounds step_size t0 y0 t_end storage tolerance)
  unfolding solve
  dispd_solve-Sound system irreflexive order scheme rounds step_size t0 y0 storage size =
      let P = Sound storage (step_size, switch_scheme false scheme) (t0, y0) in
      loop-Yields P (λ s. P s × IsDone s) (λ s. lt s.run.t t_end) (round f q t_end tolerance)
        (round-Sound system irreflexive order storage (step_size, switch_scheme false scheme)
          (t0, y0))
        (λ s h e. (h, inl e)) rounds _
        (Journey-start Moves Retries storage (step_size, switch_scheme false scheme) t0 y0, size)
