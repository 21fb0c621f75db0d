-- ===== src/DispsOld/Trajectory.antt =====
-- DISPSSolver_old: the variants that it enables, and the trajectory that Solve returns.
use odeclient_server.Base.Lists.{
  ℕ, ◌≡◌, ◌⊎◌, ◌∙◌, refl, sym, ap, inl, inr, List, [], ◌∷◌, ◌++◌, map, length, All, HasSize, Bool,
  true, false, Bool-cases,
}
use odeclient_server.Base.Outcome.{
  Outcome, ok, throw, runtime_error, ◌>>=◌, Yields, yields, Yields-bind, Yields-map, Yields-value,
}
use odeclient_server.Base.Loop.{Flow, Owes, loop-Yields}
use odeclient_server.Base.Double.{Double, lit, ◌+◌, ◌-◌, ◌*◌, lt, min}
use odeclient_server.Storage.{Storage, Row, add}
use odeclient_server.Solver.{OdeFunction, IsSystem}
use odeclient_server.Solver.Trail.{Trail, Trail-start, Trail-add}
use odeclient_server.Disps.{DispsEnabledFlags, DispsVariant}
use odeclient_server.Disps.Sizes.{do_one_step-IsStep}
use odeclient_server.Disps.Trajectory.{flat, map-add}
use odeclient_server.DispsOld.{
  DispsVariantOld, State, push_if_old, enabled_old, nonempty_old, construct_old, do_step, round_old,
  solve_old,
}
use odeclient_server.DispsOld.Steps.{do_step-do_one_step}

-- A variant that `DoStep` can work with: 3, 5 or 6 stages, and a weight for each.
pub record IsOld {ℓ} {W : Type ℓ} (v : DispsVariantOld W) : Type 0 where
  pub stages : (v.stages ≡ 3) ⊎ ((v.stages ≡ 5) ⊎ (v.stages ≡ 6))
  pub weights : length v.p ≡ v.stages

module _ {ℓ} {W : Type ℓ} ⦃d : Double W⦄ where
  push_if_old-IsOld :
      (b : Bool) (stages : ℕ) (p : List W) (vs : List (DispsVariantOld W))
      → IsOld (record { stages = stages; p = p })
      → All IsOld vs
      → All IsOld (push_if_old b stages p ++ vs)
  push_if_old-IsOld true stages p vs w a = (w, a)
  push_if_old-IsOld false stages p vs w a = a

  push_last-IsOld :
      (b : Bool) (stages : ℕ) (p : List W)
      → IsOld (record { stages = stages; p = p })
      → All IsOld (push_if_old b stages p)
  push_last-IsOld true stages p w = (w, tt)
  push_last-IsOld false stages p w = tt

  -- From one stored point to the next: a step by the first variant, from before `tEnd`, of the size
  -- that is set or, if less, of the time that is left. The time moves on by that size.
  pub record Moves (f : OdeFunction W) (variant : DispsVariantOld W) (n : ℕ) (step_size t_end : W)
      (p q : Row W) : Type ℓ where
    pub before : lt p.0 t_end ≡ true
    pub large : lt (min step_size (t_end - p.0)) (lit 1 14) ≡ false
    pub steps : do_step f p.0 p.1 (min step_size (t_end - p.0)) variant ≡ ok q.1
    pub time : q.0 ≡ p.0 + min step_size (t_end - p.0)
    pub size : HasSize n q.1

module _ {ℓ} {W : Type ℓ} ⦃d : Double W⦄ (f : OdeFunction W) (variant : DispsVariantOld W) (n : ℕ)
    (step_size t_end : W) where
  -- Between two rounds.
  pub record Sound (first : Row W) (s : State W) : Type ℓ where
    pub storage : Storage W
    pub trail : Trail (Moves f variant n step_size t_end) [] first (s.t, s.y) storage
    pub results : s.results ≡ map flat storage
    pub size : HasSize n s.y

  -- `Solve` ends where `t < tEnd` fails, or less than 1e-14 is left to step.
  abbrev pub IsDone : State W → Type 0
  IsDone s = (lt s.t t_end ≡ false) ⊎ (lt (min step_size (t_end - s.t)) (lit 1 14) ≡ true)

  module _ (system : IsSystem n f) (one : (x : W) → lit 1 0 * x ≡ x) (well : IsOld variant) where
    do_step-Yields :
        (t : W) (y : List W) (h : W) → HasSize n y → Yields (HasSize n) (do_step f t y h variant)
    do_step-Yields t y h s =
        let v : DispsVariant W = record {
          stages = variant.stages;
          order = 1;
          p = variant.p;
          gamma = h;
        } in
        rw (do_step-do_one_step n f system one t y h v s well.stages) (
          Yields-bind
            (do_one_step-IsStep f n system t y h v s
              (record { stages = well.stages; weights = well.weights; enough = inl refl }))
            λ r st. yields st.size)

    round-Sound :
        (methods : List (DispsVariantOld W)) (first : Row W) (s : State W)
        → Sound first s
        → lt s.t t_end ≡ true
        → Yields
            (Owes (Sound first) (λ u. Sound first u × IsDone u))
            (round_old f (variant ∷ methods) step_size t_end s)
    unfolding round_old
    round-Sound methods first s sound before =
        let h = min step_size (t_end - s.t) in
        let (y', e, size) = Yields-value (do_step-Yields s.t s.y h sound.size) in
        elim (Bool-cases (lt h (lit 1 14))) [
          | inl small ↦ rw small (yields (sound, inr small))
          | inr large ↦
              rw (large, e)
                (yields (record {
                  storage = add sound.storage (s.t + h) y';
                  trail = Trail-add (s.t + h) y' sound.trail (record {
                    before = before;
                    large = large;
                    steps = e;
                    time = refl;
                    size = size;
                  });
                  results =
                      ap (λ xs. xs ++ (((s.t + h) ∷ y') ∷ [])) sound.results
                      ∙ sym (map-add sound.storage (s.t + h) y');
                  size = size;
                }))
        ]

    solve_first-Sound :
        (methods : List (DispsVariantOld W)) (rounds : ℕ) (t0 : W) (y0 : List W)
        → HasSize n y0
        → Yields
            (Owes (Sound (t0, y0)) (λ u. Sound (t0, y0) u × IsDone u))
            (solve_old f (variant ∷ methods) rounds step_size t0 y0 t_end)
    unfolding solve_old
    solve_first-Sound methods rounds t0 y0 size =
        loop-Yields (Sound (t0, y0)) (λ u. Sound (t0, y0) u × IsDone u) (λ s. lt s.t t_end)
          (round_old f (variant ∷ methods) step_size t_end) (round-Sound methods (t0, y0))
          (λ s h e. (h, inl e)) rounds _
          (record {
            storage = add [] t0 y0;
            trail = Trail-start [] t0 y0;
            results = sym (map-add [] t0 y0);
            size = size;
          })

module _ {ℓ} (W : Type ℓ) ⦃d : Double W⦄ where
  enabled_old-IsOld : (flags : DispsEnabledFlags) → All IsOld (enabled_old {W = W} flags)
  enabled_old-IsOld flags =
      push_if_old-IsOld flags.disps13 _ _ _ (record { stages = inl refl; weights = refl })
        (push_if_old-IsOld flags.disps23 _ _ _ (record { stages = inl refl; weights = refl })
          (push_if_old-IsOld flags.disps15 _ _ _
            (record { stages = inr (inl refl); weights = refl })
            (push_if_old-IsOld flags.disps25 _ _ _
              (record { stages = inr (inl refl); weights = refl })
              (push_if_old-IsOld flags.disps35 _ _ _
                (record { stages = inr (inl refl); weights = refl })
                (push_last-IsOld flags.disps36 _ _
                  (record { stages = inr (inr refl); weights = refl }))))))

module _ {ℓ} {W : Type ℓ} ⦃d : Double W⦄ (f : OdeFunction W) (n : ℕ) (step_size t_end : W) where
  -- What `Solve` comes to where the constructor has made `made`, for the first of its methods.
  abbrev pub SolvedBy : Outcome (List (DispsVariantOld W)) → Row W → Flow (State W) → Type ℓ
  SolvedBy made first r =
      (variant : DispsVariantOld W) × (methods : List (DispsVariantOld W)) × (made
        ≡ ok (variant ∷ methods))
      × Owes (Sound f variant n step_size t_end first)
          (λ u. Sound f variant n step_size t_end first u × IsDone f variant n step_size t_end u) r

  -- The old solver on a system of `n` equations, with any flags: the constructor throws "no DISPS
  -- variant enabled", or `Solve` throws nothing, and after any number of rounds its results are the
  -- chain from the initial point, each point by `DoStep` with the first enabled variant from the one
  -- before it, the time moving on by the size of the step, which is the given one or the time that is
  -- left; it ends only where `t < tEnd` fails or less than 1e-14 is left to step. `1.0 * x` is `x`.
  pub solve_old-Sound :
      IsSystem n f
      → ((x : W) → lit 1 0 * x ≡ x)
      → (flags : DispsEnabledFlags) (rounds : ℕ) (t0 : W) (y0 : List W) → HasSize n y0
      → Yields
          (SolvedBy (construct_old flags) (t0, y0))
          (construct_old flags >>= λ methods. solve_old f methods rounds step_size t0 y0 t_end)
        ⊎ (construct_old {W = W} flags ≡ throw (runtime_error "Нет включённых вариантов DISPS"))
  unfolding construct_old
  solve_old-Sound system one flags rounds t0 y0 size =
      go (enabled_old flags) (enabled_old-IsOld W flags)
    where
      go :
          (vs : List (DispsVariantOld W))
          → All IsOld vs
          → Yields
              (SolvedBy (nonempty_old vs) (t0, y0))
              (nonempty_old vs >>= λ methods. solve_old f methods rounds step_size t0 y0 t_end)
            ⊎ (nonempty_old vs ≡ throw (runtime_error "Нет включённых вариантов DISPS"))
      go [] a = inr refl
      go (v ∷ vs) (w, a) = inl (
          Yields-map (λ r h. (v, vs, refl, h))
            (solve_first-Sound f v n step_size t_end system one w vs rounds t0 y0 size))
