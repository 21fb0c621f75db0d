-- ===== src/Requests/Solves.antt =====
-- Routers.cpp, POST /solve: the storage that each method comes to.
use Prim.Native.String.{◌++◌ as joined}
use mathlib.Core.Path.{subst}
use text.Mathlib.Text.{◌==◌}
use odeclient_server.Base.Lists.{
  ℕ, ◌≡◌, ◌∙◌, refl, sym, ap, inl, inr, String, List, [], ◌∷◌, ◌++◌, map, All, HasSize, Bool, true,
  false, append_assoc, append-nil, if◌then◌else◌,
}
use odeclient_server.Base.Outcome.{
  Post-map, yields, Outcome, Error, ok, runtime_error, ◌>>=◌, Post, returns, throws, spins, Never,
  Post-after, Yields, Yields-Post,
}
use odeclient_server.Base.Loop.{finished, Flow, again, stop, Owes}
use odeclient_server.Base.Json.{Json}
use odeclient_server.Base.Double.{Double, lit, lt, IsIrreflexive}
use odeclient_server.Storage.{Storage, Row, add}
use odeclient_server.Solver.{OdeFunction, IsSystem}
use odeclient_server.Solver.Journey
use odeclient_server.Solver.Trail.{Trail, IsTrajectory, Trail-IsTrajectory}
use odeclient_server.Euler
use odeclient_server.Rk2
use odeclient_server.Rk23s
use odeclient_server.Steks
use odeclient_server.Dispd
use odeclient_server.Dispd.{SchemeParams}
use odeclient_server.Dispf
use odeclient_server.Disps
use odeclient_server.Flags.{HasFlags, disps_solver-IsVariant}
use odeclient_server.Requests.{
  add_rows, int_at, solve_euler, solve_rk2, solve_rk23s, solve_steks, solve_dispd, solve_dispf,
  solve_disps, solve_by,
}

finished-Post {ℓ κ μ ν} :
    {S : Type ℓ} {A : Type κ} {P Q : S → Type μ} {R : A → Type ν} {E : Error → Type 0} (g : S → A)
    {r : Outcome (Flow S)}
    → Post (Owes P Q) E r
    → ((s : S) → Q s → R (g s))
    → Post R E (r >>= finished g)
finished-Post g (returns {a = again s} h) k = spins
finished-Post g (returns {a = stop s} h) k = returns (k s h)
finished-Post g (throws h) k = throws h
finished-Post g spins k = spins

Post-if {ℓ κ} :
    {A : Type ℓ} {P : A → Type κ} {E : Error → Type 0} {r s : Outcome A} (b : Bool)
    → (b ≡ true → Post P E r)
    → (b ≡ false → Post P E s)
    → Post P E (if b then r else s)
Post-if true h k = h refl
Post-if false h k = k refl

Post-weaken {ℓ κ} :
    {A : Type ℓ} {P : A → Type κ} {E : Error → Type 0} {r : Outcome A} → Post P Never r → Post P E r
Post-weaken (returns h) = returns h
Post-weaken spins = spins
Post-weaken (throws h) = absurd h

add_rows-flat {ℓ} :
    {W : Type ℓ} (rows base : Storage W)
    → add_rows (map Disps.Trajectory.flat rows) base ≡ ok (base ++ rows)
unfolding add_rows add
add_rows-flat [] base = ap ok (sym (append-nil base))
add_rows-flat ((t, y) ∷ rows) base =
    add_rows-flat rows (add base t y) ∙ ap ok (append_assoc base ((t, y) ∷ []) rows)

-- The errors of the dispatch: the method is none of the seven, or DISPS has no variant.
pub data Refuses (method : String) : Error → Type 0 where
  unknown :
      All
        (λ m. (method == m) ≡ false)
        ("ExplicitEuler" ∷ "RungeKutta2" ∷ "RK23S" ∷ "STEKS" ∷ "DISPD" ∷ "DISPF" ∷ "DISPS" ∷ [])
      → Refuses method (runtime_error (joined "Unknown method: " method))
  no_variant :
      (method == "DISPS") ≡ true → Refuses method (runtime_error "Нет включённых вариантов DISPS!")

-- What the solvers rely on of `double`.
pub record Comparisons {ℓ} (W : Type ℓ) ⦃d : Double W⦄ : Type ℓ where
  pub irreflexive : IsIrreflexive W
  pub steks_scales : lt {W = W} Steks.max_scale Steks.min_scale ≡ false
  pub dispd_scales : lt {W = W} Dispd.max_scale Dispd.min_scale ≡ false

module _ {ℓ} {W : Type ℓ} ⦃d : Double W⦄ (json : Json W) (parameters : json.Value) where
  -- The settings that the method reads are integers: for DISPS those flags that are there, for DISPF
  -- all three.
  pub record HasSettings (method : String) : Type 0 where
    pub flags :
        (method == "DISPS") ≡ true → HasFlags (json.contains parameters) (int_at json parameters)
    pub settings :
        (method == "DISPF") ≡ true
        → All (λ key. Yields (λ _. Unit {0}) (int_at json parameters key)) ("I" ∷ "J" ∷ "K" ∷ [])

  module _ (rounds fuel : ℕ) (scheme : SchemeParams W) (f : OdeFunction W) (n : ℕ)
      (laws : Comparisons W) (system : IsSystem n f) (t0 : W) (y0 : List W) (t_end tolerance : W)
      (size : HasSize n y0) where
    -- A chain of such moves from the initial point.
    abbrev pub Follows : (Row W → Row W → Type ℓ) → Storage W → Type ℓ
    Follows moves storage = (last : Row W) × Trail moves [] (t0, y0) last storage

    Follows-IsTrajectory :
        {moves : Row W → Row W → Type ℓ} {E : Error → Type 0} {r : Outcome (Storage W)}
        → ((p q : Row W) → moves p q → HasSize n q.1)
        → ((p q : Row W) → moves p q → lt p.0 t_end ≡ true)
        → Post (Follows moves) E r
        → Post (IsTrajectory n t_end (t0, y0)) E r
    Follows-IsTrajectory sized before =
        Post-map λ storage (last, trail). Trail-IsTrajectory n sized before size trail

    pub euler-Follows :
        Post
          (Follows (
            Journey.Moved
              (Euler.Solve.Moves f n t_end tolerance)
              (Euler.Solve.Retries f n t_end tolerance)))
          Never
          (solve_euler json rounds fuel scheme f parameters t0 y0 t_end tolerance)
    unfolding solve_euler
    euler-Follows =
        finished-Post (λ s. s.storage)
          (Yields-Post
            (Euler.Solve.euler_solve-Sound f n t_end tolerance system rounds _ t0 y0 [] size))
          λ s h. (_, Journey.Journey-Trail _ _ h.0.0)

    pub rk2-Follows :
        Post
          (Follows (
            Journey.Moved
              (Rk2.Solve.Moves f n t_end tolerance)
              (Rk2.Solve.Retries f n t_end tolerance)))
          Never
          (solve_rk2 json rounds fuel scheme f parameters t0 y0 t_end tolerance)
    unfolding solve_rk2
    rk2-Follows =
        finished-Post (λ s. s.storage)
          (Rk2.Solve.rk2_solve-Sound f n t_end tolerance system fuel rounds _ t0 y0 [] size)
          λ s h. (_, Journey.Journey-Trail _ _ h.0.0)

    pub rk23s-Follows :
        Post
          (Follows (
            Journey.Moved
              (Rk23s.Solve.Moves f n t_end tolerance)
              (Rk23s.Solve.Retries f n t_end tolerance)))
          Never
          (solve_rk23s json rounds fuel scheme f parameters t0 y0 t_end tolerance)
    unfolding solve_rk23s
    rk23s-Follows =
        finished-Post (λ s. s.storage)
          (Yields-Post (
            Rk23s.Solve.rk23s_solve-Sound f n t_end tolerance laws.irreflexive system rounds _ t0 y0
              [] size))
          λ s h. (_, Journey.Journey-Trail _ _ h.0.0)

    pub steks-Follows :
        Post
          (Follows (
            Journey.Moved
              (Steks.Solve.Moves f n t_end tolerance)
              (Steks.Solve.Retries f n t_end tolerance)))
          Never
          (solve_steks json rounds fuel scheme f parameters t0 y0 t_end tolerance)
    unfolding solve_steks
    steks-Follows =
        finished-Post (λ s. s.storage)
          (Yields-Post (
            Steks.Solve.steks_solve-Sound f n t_end tolerance laws.irreflexive laws.steks_scales
              system rounds _ t0 y0 [] size))
          λ s h. (_, Journey.Journey-Trail _ _ h.0.0)

    pub dispd-Follows :
        Post
          (Follows (
            Journey.Moved
              (Dispd.Solve.Moves f (lit 15 1) n t_end tolerance)
              (Dispd.Solve.Retries f (lit 15 1) n t_end tolerance)))
          Never
          (solve_dispd json rounds fuel scheme f parameters t0 y0 t_end tolerance)
    unfolding solve_dispd
    dispd-Follows =
        finished-Post (λ s. s.run.storage)
          (Yields-Post (
            Dispd.Solve.dispd_solve-Sound f _ n t_end tolerance system laws.irreflexive
              laws.dispd_scales scheme rounds _ t0 y0 [] size))
          λ s h. (_, Journey.Journey-Trail _ _ h.0.0)

    pub dispf :
        (method : String)
        → HasSettings method
        → (method == "DISPF") ≡ true
        → Post
            (IsTrajectory n t_end (t0, y0))
            Never
            (solve_dispf json rounds fuel scheme f parameters t0 y0 t_end tolerance)
    unfolding solve_dispf Dispf.construct
    dispf method has e =
        let (i, (j, (k, _))) = has.settings e in
        Post-after i λ i' _. Post-after j λ j' _. Post-after k λ k' _.
          finished-Post (λ s. s.run.storage)
            (Dispf.Trajectory.dispf_solve-Sound f _ fuel n t_end _ system rounds _ t0 y0 [] _ size
              tt)
            λ s. elim [
              | inl (h, _) ↦
                  Trail-IsTrajectory n (λ p q m. m.2.kept) (λ p q m. m.2.before) size
                    (Journey.Journey-Trail _ _ h.journey)
              | inr l ↦
                  Trail-IsTrajectory n (λ p q m. m.2.kept) (λ p q m. m.2.before) size
                    (Journey.Journey-Trail _ _ l.journey)
            ]

    stores :
        {variants : List (Disps.DispsVariant W)} {E : Error → Type 0}
        {r : Outcome (Flow (Disps.Solve.State W))}
        → let P = Disps.Trajectory.Sound f variants n t_end tolerance (t0, y0) in
          Yields (Owes P (λ u. P u × Disps.Trajectory.IsDone f variants n t_end tolerance u)) r
          → Post
              (λ storage.
                (variants' : List (Disps.DispsVariant W)) × Follows
                  (Disps.Trajectory.Moves f variants' n t_end tolerance)
                  storage)
              E
              (r >>= λ r'. finished (λ s. s.results) r' >>= λ results. add_rows results [])
    stores (yields {a = again s} h) = spins
    stores (yields {a = stop s} h) = rw (h.0.results, add_rows-flat) (returns (_, (_, h.0.trail)))

    pub disps-Follows :
        (method : String)
        → HasSettings method
        → (method == "DISPS") ≡ true
        → Post
            (λ storage.
              (variants : List (Disps.DispsVariant W)) × Follows
                (Disps.Trajectory.Moves f variants n t_end tolerance)
                storage)
            (Refuses method)
            (solve_disps json rounds fuel scheme f parameters t0 y0 t_end tolerance)
    unfolding solve_disps
    disps-Follows method has e =
        elim (disps_solver-IsVariant (json.contains parameters) (int_at json parameters)
          (has.flags e) W) [
            | inl y ↦ Post-after y λ variants (well, range). stores (
                Disps.Trajectory.disps_solve-Sound f variants n t_end tolerance system well rounds _
                  0 t0 y0 range size)
            | inr (refused, _) ↦ rw refused (throws (no_variant e))
          ]

    -- What each branch comes to, the dispatch comes to.
    pub by_method {κ} :
        (Q : Storage W → Type κ) (method : String)
        → let Comes : (Error → Type 0) → Outcome (Storage W) → Type (ℓ ⊔ κ) = Post Q in
          Comes Never (solve_euler json rounds fuel scheme f parameters t0 y0 t_end tolerance)
          → Comes Never (solve_rk2 json rounds fuel scheme f parameters t0 y0 t_end tolerance)
          → Comes Never (solve_rk23s json rounds fuel scheme f parameters t0 y0 t_end tolerance)
          → Comes Never (solve_steks json rounds fuel scheme f parameters t0 y0 t_end tolerance)
          → Comes Never (solve_dispd json rounds fuel scheme f parameters t0 y0 t_end tolerance)
          → ((method == "DISPF") ≡ true
              → Comes Never
                  (solve_dispf json rounds fuel scheme f parameters t0 y0 t_end tolerance))
          → ((method == "DISPS") ≡ true
              → Comes
                  (Refuses method)
                  (solve_disps json rounds fuel scheme f parameters t0 y0 t_end tolerance))
          → Comes
              (Refuses method)
              (solve_by json rounds fuel scheme f parameters t0 y0 t_end tolerance method)
    unfolding solve_by
    by_method Q method euler rk2 rk23s steks dispd dispf disps =
        Post-if _ (λ _. Post-weaken euler)
          λ e1.
            Post-if _ (λ _. Post-weaken rk2)
              λ e2.
                Post-if _ (λ _. Post-weaken rk23s)
                  λ e3.
                    Post-if _ (λ _. Post-weaken steks)
                      λ e4.
                        Post-if _ (λ _. Post-weaken dispd)
                          λ e5.
                            Post-if _ (λ e. Post-weaken (dispf e))
                              λ e6.
                                Post-if _ disps λ e7.
                                  throws (unknown (e1, (e2, (e3, (e4, (e5, (e6, (e7, tt))))))))

    -- On a system of `n` equations, from a point of `n` numbers, the branch of each of the seven
    -- methods throws nothing but "no DISPS variant enabled", and the storage that it comes to begins
    -- with the initial point, has points of `n` numbers, all but the last before `tEnd`; another
    -- method throws "Unknown method". The settings that the method reads are integers, `<` is
    -- irreflexive and 5 is not below 0.2.
    pub solve_by-IsTrajectory :
        (method : String)
        → HasSettings method
        → Post
            (IsTrajectory n t_end (t0, y0))
            (Refuses method)
            (solve_by json rounds fuel scheme f parameters t0 y0 t_end tolerance method)
    solve_by-IsTrajectory method has =
        by_method (IsTrajectory n t_end (t0, y0)) method
          (Follows-IsTrajectory (λ p q m. m.2.accepts.size) (λ p q m. m.2.before) euler-Follows)
          (Follows-IsTrajectory (λ p q m. m.2.size) (λ p q m. m.2.before) rk2-Follows)
          (Follows-IsTrajectory (λ p q m. m.2.size) (λ p q m. m.2.before) rk23s-Follows)
          (Follows-IsTrajectory (λ p q m. m.2.size) (λ p q m. m.2.before) steks-Follows)
          (Follows-IsTrajectory (λ p q m. subst (λ r. HasSize n r.1) (sym m.2.moved) m.2.taken.size)
            (λ p q m. m.2.before) dispd-Follows)
          (dispf method has)
          λ e.
            Post-map
              (λ storage (variants, (last, trail)).
                Trail-IsTrajectory n (λ p q m. m.size) (λ p q m. m.before) size trail)
              (disps-Follows method has e)
