-- ===== src/Disps/Trajectory.antt =====
-- DISPSSolver::Solve: the trajectory that it returns.
use mathlib.Core.Path.{subst}
use odeclient_server.Base.Lists.{
  ℕ, zero, suc, ◌≡◌, ◌⊎◌, refl, sym, ap, ◌∙◌, inl, inr, List, [], ◌∷◌, ◌++◌, map, get_elem?, some,
  All, HasSize, true, false, Bool-cases, ◌&&◌,
}
use odeclient_server.Base.Outcome.{ok, Yields, yields, Yields-bind, Yields-value}
use odeclient_server.Base.Loop.{Owes, loop-Yields}
use odeclient_server.Base.Double.{Double, lit, ◌+◌, ◌-◌, lt, min}
use odeclient_server.Storage.{Storage, Row, add}
use odeclient_server.Solver.{OdeFunction, IsSystem}
use odeclient_server.Solver.Trail.{Trail, Trail-start, Trail-add}
use odeclient_server.Disps.{DispsVariant, Best, switch_scheme}
use odeclient_server.Disps.Stages.{do_one_step}
use odeclient_server.Disps.Control.{Verdict, control, is_disps25}
use odeclient_server.Disps.Sizes.{IsVariant, do_one_step-IsStep, control-Yields}
use odeclient_server.Disps.Variants.{InRange}
use odeclient_server.Disps.Switch.{eq-plus_zero, consider_all-Names}
use odeclient_server.Disps.Solve.{
  State, Tried, stepped, given_up, advance, tries, settle, round, solve,
}

-- A row of `results`: the time, then the point.
abbrev pub flat {ℓ} : {W : Type ℓ} → Row W → List W
flat (t, y) = t ∷ y

pub map-add {ℓ} :
    {W : Type ℓ} (rows : Storage W) (t : W) (y : List W)
    → map flat (add rows t y) ≡ map flat rows ++ ((t ∷ y) ∷ [])
unfolding add
map-add [] t y = refl
map-add (r ∷ rows) t y = ap (λ xs. flat r ∷ xs) (map-add rows t y)

lookup-All {ℓ κ} :
    {A : Type ℓ} (P : A → Type κ) (xs : List A) (i : ℕ) (x : A)
    → All P xs
    → get_elem? xs i ≡ some x
    → P x
lookup-All P [] i x a e = absurd cc
lookup-All P (y ∷ xs) zero x a e = let q : y ≡ x = cc in subst P q a.0
lookup-All P (y ∷ xs) (suc i) x a e = lookup-All P xs i x a.1 e

module _ {ℓ} {W : Type ℓ} ⦃d : Double W⦄ (variants : List (DispsVariant W)) where
  switch_scheme-InRange :
      (current : ℕ)
      → InRange variants current
      → Yields (InRange variants) (switch_scheme variants current)
  unfolding switch_scheme
  switch_scheme-InRange current (v, e) =
      let start : Best W = record { index = current; order = v.order; gamma = v.gamma } in
      let names =
        consider_all-Names variants current 0 variants start
          (λ j. ap (get_elem? variants) (eq-plus_zero j))
          (record { variant = v; found = e; order_eq = refl; gamma_eq = refl }) in
      rw e (yields (names.variant, names.found))

module _ {ℓ} {W : Type ℓ} ⦃d : Double W⦄ (f : OdeFunction W) (variants : List (DispsVariant W))
    (n : ℕ) (t_end tolerance : W) where
  -- From one point to the next: a step of some variant that its control accepts. The time moves on
  -- by the size of the step.
  pub record Moves (p q : Row W) : Type ℓ where
    pub before : lt p.0 t_end ≡ true
    pub index : ℕ
    pub variant : DispsVariant W
    pub enabled : get_elem? variants index ≡ some variant
    pub h : W
    pub k_stages : List (List W)
    pub steps : do_one_step f p.0 p.1 h variant ≡ ok (q.1, k_stages)
    pub verdict : Verdict W
    pub controls : control variant k_stages h tolerance ≡ ok verdict
    pub accepts : verdict.accept ≡ true
    pub time : q.0 ≡ p.0 + h
    pub size : HasSize n q.1

  -- Between two rounds.
  pub record Sound (first : Row W) (s : State W) : Type ℓ where
    pub storage : Storage W
    pub trail : Trail Moves [] first (s.t, s.y) storage
    pub results : s.results ≡ map flat storage
    pub size : HasSize n s.y
    pub current : InRange variants s.current

  -- How the tries end: with an accepted step, or at the point where they began.
  abbrev pub Ends : State W → Tried W → Type ℓ
  Ends s (stepped s') =
      Moves (s.t, s.y) (s'.t, s'.y)
      × HasSize n s'.y
      × InRange variants s'.current
      × (s'.results ≡ s.results ++ ((s'.t ∷ s'.y) ∷ []))
  Ends s (given_up s' h) = (s' ≡ record s { current = s'.current }) × InRange variants s'.current

  -- `Solve` ends where `t < tEnd` fails, or less than 1e-14 is left to step.
  abbrev pub IsDone : State W → Type 0
  IsDone s = (lt s.t t_end ≡ false) ⊎ (lt (min s.step_size (t_end - s.t)) (lit 1 14) ≡ true)

  module _ (system : IsSystem n f) (well : All IsVariant variants) where
    advance-Ends :
        (s : State W) (h : W) (y_next : List W) (v : Verdict W)
        → InRange variants s.current
        → HasSize n y_next
        → Moves (s.t, s.y) (s.t + h, y_next)
        → Yields (Ends s) (advance f variants s h y_next v)
    advance-Ends s h y_next v range size moves = elim (Bool-cases v.need_switch) [
      | inl e ↦ rw e (
          Yields-bind (switch_scheme-InRange variants s.current range)
            λ i r. yields (moves, size, r, refl))
      | inr e ↦ rw e (yields (moves, size, range, refl))
    ]

    tries-Ends :
        (left index : ℕ) (variant : DispsVariant W) (s : State W) (h : W)
        → get_elem? variants index ≡ some variant
        → InRange variants s.current
        → HasSize n s.y
        → lt s.t t_end ≡ true
        → Yields (Ends s) (tries f variants left variant s h tolerance)
    unfolding tries
    tries-Ends zero index variant s h found range size before = yields (refl, range)
    tries-Ends (suc left) index variant s h found range size before =
        let w = lookup-All IsVariant variants index variant well found in
        let ((y', ks), e, st) =
          Yields-value (do_one_step-IsStep f n system s.t s.y h variant size w) in
        let (v, c, _) =
          Yields-value (control-Yields n ks st.sizes h tolerance variant w st.count) in
        elim (Bool-cases v.accept) [
          | inl a ↦
              rw (e, c, a)
                (advance-Ends s h y' v range st.size (record {
                  before = before;
                  index = index;
                  variant = variant;
                  enabled = found;
                  h = h;
                  k_stages = ks;
                  steps = e;
                  verdict = v;
                  controls = c;
                  accepts = a;
                  time = refl;
                  size = st.size;
                }))
          | inr a ↦ elim (Bool-cases (is_disps25 variant && lt v.new_h h)) [
            | inl b ↦
                rw (e, c, a, b)
                  (Yields-bind (switch_scheme-InRange variants s.current range)
                    λ i r. yields (refl, r))
            | inr b ↦
                rw (e, c, a, b) (tries-Ends left index variant s v.new_h found range size before)
          ]
        ]

    settle-Sound :
        (first : Row W) (s : State W) (r : Tried W)
        → Sound first s
        → Ends s r
        → Owes (Sound first) (λ u. Sound first u × IsDone u) (settle f variants r)
    settle-Sound first s (stepped s') sound (moves, size, range, results) = record {
      storage = add sound.storage s'.t s'.y;
      trail = Trail-add s'.t s'.y sound.trail moves;
      results =
          results
          ∙ ap (λ xs. xs ++ ((s'.t ∷ s'.y) ∷ [])) sound.results
          ∙ sym (map-add sound.storage s'.t s'.y);
      size = size;
      current = range;
    }
    settle-Sound first s (given_up s' h) sound (e, range) = record {
      storage = sound.storage;
      trail = subst (λ u. Trail Moves [] first (u.t, u.y) sound.storage) (sym e) sound.trail;
      results = ap (λ u. u.results) e ∙ sound.results;
      size = subst (λ u. HasSize n u.y) (sym e) sound.size;
      current = range;
    }

    round-Sound :
        (first : Row W) (s : State W)
        → Sound first s
        → lt s.t t_end ≡ true
        → Yields
            (Owes (Sound first) (λ u. Sound first u × IsDone u))
            (round f variants t_end tolerance s)
    unfolding round
    round-Sound first s sound before =
        let (variant, found) = sound.current in
        elim (Bool-cases (lt (min s.step_size (t_end - s.t)) (lit 1 14))) [
          | inl small ↦ rw small (yields (sound, inr small))
          | inr large ↦
              rw (large, found)
                (Yields-bind
                  (tries-Ends 30 s.current variant s _ found sound.current sound.size before)
                  λ r ends. yields (settle-Sound first s r sound ends))
        ]

    -- `Solve` on a system of `n` equations, with variants that the steps and controls can work with,
    -- throws nothing. After any number of rounds its results are the chain from the initial point,
    -- each point by a step that its control accepts from the one before it, the time moving on by the
    -- size of the step; it ends only where `t < tEnd` fails or less than 1e-14 is left to step.
    pub disps_solve-Sound :
        (rounds : ℕ) (step_size : W) (current : ℕ) (t0 : W) (y0 : List W)
        → InRange variants current
        → HasSize n y0
        → Yields
            (Owes (Sound (t0, y0)) (λ u. Sound (t0, y0) u × IsDone u))
            (solve f variants rounds step_size current t0 y0 t_end tolerance)
    unfolding solve
    disps_solve-Sound rounds step_size current t0 y0 range size =
        loop-Yields (Sound (t0, y0)) (λ u. Sound (t0, y0) u × IsDone u) (λ s. lt s.t t_end)
          (round f variants t_end tolerance) (round-Sound (t0, y0)) (λ s h e. (h, inl e)) rounds _
          (record {
            storage = add [] t0 y0;
            trail = Trail-start [] t0 y0;
            results = sym (map-add [] t0 y0);
            size = size;
            current = range;
          })
