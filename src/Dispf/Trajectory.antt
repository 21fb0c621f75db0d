-- ===== src/Dispf/Trajectory.antt =====
-- DISPFSolver::Solve: the trajectory that it stores, and where it ends.
use odeclient_server.Base.Lists.{
  ℕ, zero, suc, ◌≡◌, ◌⊎◌, refl, List, [], ◌∷◌, length, All, HasSize, true, false, arith, Bool-cases,
  inl, inr, if◌then◌else◌,
}
use odeclient_server.Base.Outcome.{ok, Post, returns, Never, Post-bind, Post-eq, Post-map}
use odeclient_server.Base.Loop.{again, stop, Owes, loop-Post}
use odeclient_server.Base.Double.{Double, lit, ◌+◌, ◌-◌, lt, eq}
use odeclient_server.Storage.{Storage, Row}
use odeclient_server.Solver.{OdeFunction, IsSystem}
use odeclient_server.Solver.Journey.{Journey, Journey-start, Journey-add}
use odeclient_server.Dispf.{Config, Members, Method, dispfa, dispfb, dispfc, Stepped}
use odeclient_server.Dispf.Sizes.{IsMatrix}
use odeclient_server.Dispf.Steps.{Keeps}
use odeclient_server.Dispf.StepA.Keeps.{step_dispfa-Keeps}
use odeclient_server.Dispf.StepB.Keeps.{step_dispfb-Keeps}
use odeclient_server.Dispf.StepC.Keeps.{step_dispfc-Keeps}
use odeclient_server.Dispf.Solve.{State, resize, step_by, step, leaves, settle, round, solve}

module _ {ℓ} {W : Type ℓ} ⦃d : Double W⦄ where
  pub resize-IsMatrix : (n : ℕ) (k : List (List W)) → All (HasSize 6) k → IsMatrix n (resize n k)
  unfolding resize
  resize-IsMatrix zero k a = record { rows = refl; columns = tt }
  resize-IsMatrix (suc n) [] a =
      let m = resize-IsMatrix n [] tt in
      record { rows = omega (arith, m.rows); columns = (record { sized = refl }, m.columns) }
  resize-IsMatrix (suc n) (row ∷ k) (s, a) =
      let m = resize-IsMatrix n k a in
      record { rows = omega (arith, m.rows); columns = (s, m.columns) }

  -- `t < tEnd` fails.
  abbrev pub IsOver : W → State W → Type 0
  IsOver t_end s = lt s.run.t t_end ≡ false

module _ {ℓ} {W : Type ℓ} ⦃d : Double W⦄ (f : OdeFunction W) (config : Config W) (fuel n : ℕ)
    (t_end tolerance : W) where
  -- What a round begins with: the size `h`, and the members.
  abbrev pub Setting : Type ℓ
  Setting = W × Members W

  -- The step that a round with `h` tries from `t`: the time that is left where `h` would pass `tEnd`.
  abbrev pub attempt : W → W → W
  attempt h t = if lt t_end (t + h) then t_end - t else h

  -- A round that goes on from `p` to `q` by a step. The time moves on by the size that `Step` leaves,
  -- with which the next round begins, and with the members that `Step` leaves.
  pub record Moves (x : Setting) (p : Row W) (x' : Setting) (q : Row W) : Type ℓ where
    pub before : lt p.0 t_end ≡ true
    pub stepped : Stepped W
    pub takes : step f config fuel p.0 p.1 (attempt x.0 p.0) tolerance x.1 ≡ ok stepped
    pub moved : q ≡ (p.0 + stepped.h, stepped.y)
    pub next : x' ≡ (stepped.h, stepped.members)
    pub kept : HasSize n q.1

  -- No round stays at its point.
  pub data Retries (x : Setting) (p : Row W) (x' : Setting) : Type ℓ where

  -- Between two rounds, for a solver that began with `method`.
  pub record Sound (base : Storage W) (x0 : Setting) (first : Row W) (method : Method) (s : State W)
      : Type ℓ where
    pub journey :
        Journey Moves Retries base x0 first (s.run.h, s.members) (s.run.t, s.run.y) s.run.storage
    pub size : HasSize n s.run.y
    pub matrix : IsMatrix n s.members.k
    pub fixed : config.variable_order ≡ false → s.members.current_method ≡ method
    pub uncontrolled : config.stability_control_enabled ≡ false → s.members.jump_to_radau5 ≡ false

  -- `break`: the last step is not stored, the jump to RADAU5 is due, and a step is left.
  pub record Leaves (base : Storage W) (x0 : Setting) (first : Row W) (s : State W) : Type ℓ where
    pub x : Setting
    pub y : List W
    pub journey : Journey Moves Retries base x0 first x (s.run.t, y) s.run.storage
    pub takes :
        step f config fuel s.run.t y (attempt x.0 s.run.t) tolerance x.1
        ≡ ok (record { y = s.run.y; h = s.run.h; members = s.members })
    pub due : s.members.jump_to_radau5 ≡ true
    pub gamma_ne : eq config.gamma (lit 0 0) ≡ false
    pub left : lt s.run.h (t_end - s.run.t) ≡ true
    pub controlled : config.stability_control_enabled ≡ true

  -- What the first round begins with.
  abbrev pub setting0 : W → List W → Members W → Setting
  setting0 step_size y0 s = (
    step_size,
    record s { k = resize (length y0) s.k; vn_break_count = 0; jump_to_radau5 = false },
  )

  -- How `Solve` ends: at `tEnd`, or by `break`.
  abbrev pub Ends : Storage W → Setting → Row W → Method → State W → Type ℓ
  Ends base x0 first method s =
      (Sound base x0 first method s × (lt s.run.t t_end ≡ false)) ⊎ Leaves base x0 first s

  module _ (system : IsSystem n f) where
    step_by-Keeps :
        (method : Method) (t : W) (y : List W) (h : W) (s : Members W)
        → HasSize n y
        → IsMatrix n s.k
        → Post (Keeps config n s) Never (step_by f config fuel method t y h tolerance s)
    unfolding step_by
    step_by-Keeps dispfa t y h s = step_dispfa-Keeps f config n system fuel fuel t y h tolerance s
    step_by-Keeps dispfb t y h s = step_dispfb-Keeps f config n system fuel fuel t y h tolerance s
    step_by-Keeps dispfc t y h s = step_dispfc-Keeps f config n system fuel t y h tolerance s

    pub step-Keeps :
        (t : W) (y : List W) (h : W) (s : Members W)
        → HasSize n y
        → IsMatrix n s.k
        → Post (Keeps config n s) Never (step f config fuel t y h tolerance s)
    unfolding step
    step-Keeps t y h s = step_by-Keeps s.current_method t y h s

    settle-Sound :
        (base : Storage W) (x0 : Setting) (first : Row W) (method : Method) (s : State W)
        (r : Stepped W)
        → Sound base x0 first method s
        → Moves (s.run.h, s.members) (s.run.t, s.run.y) (r.h, r.members) (s.run.t + r.h, r.y)
        → step f config fuel s.run.t s.run.y (attempt s.run.h s.run.t) tolerance s.members ≡ ok r
        → Keeps config n s.members r
        → Owes
            (Sound base x0 first method)
            (Ends base x0 first method)
            (settle f config fuel t_end s r)
    settle-Sound base x0 first method s r sound moves e_step keeps =
        elim (Bool-cases (leaves f config fuel t_end s.run.t r)) [
          | inl e ↦ rw e (
              inr (record {
                x = (s.run.h, s.members);
                y = s.run.y;
                journey = sound.journey;
                takes = e_step;
                due = ground (arith, e);
                gamma_ne = ground (arith, e);
                left = ground (arith, e);
                controlled = ground (arith, e, keeps.uncontrolled, sound.uncontrolled);
              }))
          | inr e ↦ rw e (record {
            journey =
                Journey-add Moves Retries (r.h, r.members) (s.run.t + r.h) r.y sound.journey moves;
            size = keeps.size;
            matrix = keeps.matrix;
            fixed = λ v. cc (keeps.fixed v, sound.fixed v);
            uncontrolled = λ v. cc (keeps.uncontrolled v, sound.uncontrolled v);
          })
        ]

    round-Sound :
        (base : Storage W) (x0 : Setting) (first : Row W) (method : Method) (s : State W)
        → Sound base x0 first method s
        → lt s.run.t t_end ≡ true
        → Post
            (Owes (Sound base x0 first method) (Ends base x0 first method))
            Never
            (round f config fuel t_end tolerance s)
    unfolding round
    round-Sound base x0 first method s sound before =
        Post-bind (Post-eq (step-Keeps s.run.t s.run.y _ s.members sound.size sound.matrix))
          λ r (e, keeps). returns (
            settle-Sound base x0 first method s r sound
              (record {
                before = before;
                stepped = r;
                takes = e;
                moved = refl;
                next = refl;
                kept = keeps.size;
              })
              e keeps)

    -- `Solve` on a system of `n` equations, from a point of `n` numbers and a matrix `k` whose rows
    -- have six columns, throws nothing and accesses no element out of bounds. After any number of
    -- rounds that return it has added to the storage the points of a path of rounds, from the initial
    -- point and the initial step size on, with `k` resized and the counter and the jump reset: each
    -- round, at a time before `tEnd`, goes on by a `Step` of its own size, or of the time that is left
    -- where its size would pass `tEnd`, with the members that it has, to the point, the size and the
    -- members that `Step` leaves, that size added to the time; a solver with a fixed order has kept
    -- its method. It ends where `t < tEnd` fails, or by `break` after one more `Step`, which takes the
    -- control enabled, the jump due, a GAMMA that is not 0 and more than the size left.
    pub dispf_solve-Sound :
        (rounds : ℕ) (step_size t0 : W) (y0 : List W) (storage : Storage W) (s : Members W)
        → HasSize n y0
        → All (HasSize 6) s.k
        → Post
            (Owes
              (Sound storage (setting0 step_size y0 s) (t0, y0) s.current_method)
              (Ends storage (setting0 step_size y0 s) (t0, y0) s.current_method))
            Never
            (solve f config fuel rounds step_size t0 y0 t_end storage tolerance s)
    unfolding solve
    dispf_solve-Sound rounds step_size t0 y0 storage s size columns =
        loop-Post (Sound storage (setting0 step_size y0 s) (t0, y0) s.current_method)
          (Ends storage (setting0 step_size y0 s) (t0, y0) s.current_method) (λ s. lt s.run.t t_end)
          (round f config fuel t_end tolerance) Never
          (round-Sound storage (setting0 step_size y0 s) (t0, y0) s.current_method)
          (λ s h e. inl (h, e)) rounds _
          (record {
            journey = Journey-start Moves Retries storage (setting0 step_size y0 s) t0 y0;
            size = size;
            matrix = rw size.sized (resize-IsMatrix n s.k columns);
            fixed = λ _. refl;
            uncontrolled = λ _. refl;
          })

    -- With GAMMA 0, or the control disabled, `Solve` ends only where `t < tEnd` fails.
    dispf_solve_ends :
        (eq config.gamma (lit 0 0) ≡ true) ⊎ (config.stability_control_enabled ≡ false)
        → (rounds : ℕ) (step_size t0 : W) (y0 : List W) (storage : Storage W) (s : Members W)
        → HasSize n y0
        → All (HasSize 6) s.k
        → Post
            (Owes (λ u. Unit {0}) (IsOver t_end))
            Never
            (solve f config fuel rounds step_size t0 y0 t_end storage tolerance s)
    dispf_solve_ends never rounds step_size t0 y0 storage s size columns =
        Post-map (elim [ again u ↦ λ _. tt | stop u ↦ at_end u ])
          (dispf_solve-Sound rounds step_size t0 y0 storage s size columns)
      where
        at_end :
            (u : State W)
            → Ends storage (setting0 step_size y0 s) (t0, y0) s.current_method u
            → IsOver t_end u
        at_end u (inl (h, e)) = e
        at_end u (inr l) = elim never [
          | inl z ↦ absurd (cc (z, l.gamma_ne))
          | inr z ↦ absurd (cc (z, l.controlled))
        ]
