-- ===== src/Invariants/Dispf/Solve.antt =====
-- DISPFSolver::Solve in an invariant family.
use odeclient_server.Base.Lists.{
  true, ℕ, zero, suc, ◌≡◌, refl, List, [], ◌∷◌, All, All-append, HasSize, replicate, Bool-cases,
  inl, inr,
}
use odeclient_server.Base.Outcome.{Post, returns, Post-bind, Post-map}
use odeclient_server.Base.Loop.{again, stop, Owes, loop-Post}
use odeclient_server.Base.Double.{Double, lit, lt}
use odeclient_server.Storage.{Storage, Row, add}
use odeclient_server.Solver.{OdeFunction, IsSystem}
use odeclient_server.Dispf.{Config, Members, Method, dispfa, dispfb, dispfc, Stepped}
use odeclient_server.Dispf.Trajectory.{resize-IsMatrix}
use odeclient_server.Dispf.Solve.{State, resize, step_by, step, leaves, settle, round, solve}
use odeclient_server.Invariants.{Any, IsInvariant}
use odeclient_server.Invariants.Columns.{HasColumns, Point, column-zeros}
use odeclient_server.Invariants.Dispf.{Stays}
use odeclient_server.Invariants.Dispf.StepA.{step_dispfa-Post}
use odeclient_server.Invariants.Dispf.StepB.{step_dispfb-Post}
use odeclient_server.Invariants.Dispf.StepC.{step_dispfc-Post}

module _ {ℓ} {W : Type ℓ} ⦃d : Double W⦄ where
  resize-zeros : (n : ℕ) → resize {W = W} n [] ≡ replicate n (replicate 6 (lit 0 0))
  unfolding resize
  resize-zeros zero = refl
  resize-zeros (suc n) = rw (resize-zeros n)

module _ {ℓ} {W : Type ℓ} ⦃d : Double W⦄ {f : OdeFunction W} {P Z : List W → Type ℓ}
    (inv : IsInvariant f P Z) (n : ℕ) (system : IsSystem n f) (config : Config W) (fuel : ℕ)
    (t_end tolerance : W) where
  step_by-Post :
      (method : Method) (t : W) {y : List W} (h : W) (s : Members W)
      → Point inv n y
      → HasColumns inv n s.k
      → Post (Stays inv n) Any (step_by f config fuel method t y h tolerance s)
  unfolding step_by
  step_by-Post dispfa t h s = step_dispfa-Post inv n system config fuel fuel t h tolerance s
  step_by-Post dispfb t h s = step_dispfb-Post inv n system config fuel fuel t h tolerance s
  step_by-Post dispfc t h s = step_dispfc-Post inv n system config fuel t h tolerance s

  -- Between two rounds: every stored point, the current one and the columns of `k`.
  record Holds (s : State W) : Type ℓ where
    stored : All (λ (row : Row W). P row.1) s.run.storage
    point : Point inv n s.run.y
    columns : HasColumns inv n s.members.k

  abbrev pub Stored : State W → Type ℓ
  Stored s = All (λ (row : Row W). P row.1) s.run.storage

  All-add :
      (storage : Storage W) (t : W) (y : List W)
      → All (λ (row : Row W). P row.1) storage
      → P y
      → All (λ (row : Row W). P row.1) (add storage t y)
  unfolding add
  All-add storage t y ps p = All-append _ storage ((t, y) ∷ []) ps (p, tt)

  settle-Holds :
      (s : State W) (r : Stepped W)
      → Holds s
      → Stays inv n r
      → Owes Holds Stored (settle f config fuel t_end s r)
  settle-Holds s r h stays = elim (Bool-cases (leaves f config fuel t_end s.run.t r)) [
    | inl e ↦ rw e h.stored
    | inr e ↦ rw e (record {
      stored = All-add s.run.storage _ _ h.stored stays.point.0;
      point = stays.point;
      columns = stays.columns;
    })
  ]

  round-Holds :
      (s : State W)
      → Holds s
      → lt s.run.t t_end ≡ true
      → Post (Owes Holds Stored) Any (round f config fuel t_end tolerance s)
  unfolding round step
  round-Holds s h before =
      Post-bind (step_by-Post s.members.current_method s.run.t _ s.members h.point h.columns)
        λ r stays. returns (settle-Holds s r h stays)

  pub dispf_solve-Stored :
      (rounds : ℕ) (step_size t0 : W) (y0 : List W) (s : Members W)
      → P y0
      → HasSize n y0
      → s.k ≡ []
      → Post
          (Owes (λ _. Unit {ℓ}) Stored)
          Any
          (solve f config fuel rounds step_size t0 y0 t_end [] tolerance s)
  unfolding solve
  dispf_solve-Stored rounds step_size t0 y0 s p size empty =
      Post-map (elim [ again u ↦ λ _. tt | stop u ↦ λ h. h ])
        (loop-Post Holds Stored (λ u. lt u.run.t t_end) (round f config fuel t_end tolerance) Any
          round-Holds (λ u h e. h.stored) rounds _
          (record {
            stored = All-add [] t0 y0 tt p;
            point = (p, size);
            columns =
                rw (size.sized, empty)
                  (record {
                    matrix = resize-IsMatrix n [] tt;
                    columns = λ j. rw (resize-zeros n, column-zeros n 6 j) (inv.zeros n);
                  });
          }))
