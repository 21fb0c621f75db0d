-- ===== src/Requests/Invariants.antt =====
-- Routers.cpp, POST /solve: an invariant family of points and the storage that each method comes to.
use mathlib.Core.Path.{subst}
use text.Mathlib.Text.{◌==◌}
use odeclient_server.Base.Lists.{ℕ, ◌≡◌, refl, sym, String, List, All, HasSize, true}
use odeclient_server.Base.Outcome.{
  Outcome, Error, Post, returns, throws, spins, Never, Post-map, Post-after, ◌>>=◌,
}
use odeclient_server.Base.Json.{Json}
use odeclient_server.Base.Double.{Double, lit}
use odeclient_server.Base.Loop.{finished, Flow, again, stop, Owes}
use odeclient_server.Storage.{Storage, Row}
use odeclient_server.Solver.{OdeFunction, IsSystem}
use odeclient_server.Solver.Trail.{Trail-carries}
use odeclient_server.Dispd.{SchemeParams}
use odeclient_server.Dispf
use odeclient_server.Invariants.{Any, IsInvariant}
use odeclient_server.Invariants.Explicit.{
  euler_step-stays, rk2_step-stays, rk23s_step-stays, steks_step-stays,
}
use odeclient_server.Invariants.Dispd.{dispd_step-stays}
use odeclient_server.Invariants.Disps.{disps_step-stays}
use odeclient_server.Invariants.Dispf.Solve.{dispf_solve-Stored}
use odeclient_server.Requests.{solve_dispf, solve_by}
use odeclient_server.Requests.Solves.{
  Refuses, Comparisons, HasSettings, Follows, euler-Follows, rk2-Follows, rk23s-Follows,
  steks-Follows, dispd-Follows, disps-Follows, dispf, by_method,
}

finished-Any {ℓ κ μ} :
    {S : Type ℓ} {A : Type κ} {Q : S → Type μ} {R : A → Type μ} {P : S → Type μ} (g : S → A)
    {r : Outcome (Flow S)}
    → Post (Owes P Q) Any r
    → ((s : S) → Q s → R (g s))
    → Post R Any (r >>= finished g)
finished-Any g (returns {a = again s} h) k = spins
finished-Any g (returns {a = stop s} h) k = returns (k s h)
finished-Any g (throws h) k = throws h
finished-Any g spins k = spins

-- What holds of the value whatever is thrown, where nothing is.
Post-Never {ℓ κ μ} :
    {A : Type ℓ} {P : A → Type κ} {Q : A → Type μ} {r : Outcome A}
    → Post P Never r
    → Post Q Any r
    → Post Q Never r
Post-Never (returns _) (returns h) = returns h
Post-Never (throws e) h = absurd e
Post-Never spins h = spins

module _ {ℓ} {W : Type ℓ} ⦃d : Double W⦄ (json : Json W) (parameters : json.Value) (rounds fuel : ℕ)
    (scheme : SchemeParams W) (f : OdeFunction W) (n : ℕ) (laws : Comparisons W)
    (system : IsSystem n f) (t0 : W) (y0 : List W) (t_end tolerance : W) (size : HasSize n y0)
    {P Z : List W → Type ℓ} (inv : IsInvariant f P Z) (initial : P y0) where
  abbrev pub AllIn : Storage W → Type ℓ
  AllIn storage = All (λ (row : Row W). P row.1) storage

  carried :
      {moves : Row W → Row W → Type ℓ} {E : Error → Type 0} {r : Outcome (Storage W)}
      → ((p q : Row W) → moves p q → P p.1 → P q.1)
      → Post
          (Follows json parameters rounds fuel scheme f n laws system t0 y0 t_end tolerance size
            moves)
          E
          r
      → Post AllIn E r
  carried keep = Post-map λ storage (last, trail). Trail-carries (λ row. P row.1) initial keep trail

  dispf-Any :
      (method : String)
      → HasSettings json parameters method
      → (method == "DISPF") ≡ true
      → Post AllIn Any (solve_dispf json rounds fuel scheme f parameters t0 y0 t_end tolerance)
  unfolding solve_dispf Dispf.construct
  dispf-Any method has e =
      let (i, (j, (k, _))) = has.settings e in
      Post-after i λ i' _. Post-after j λ j' _. Post-after k λ k' _.
        finished-Any (λ s. s.run.storage)
          (dispf_solve-Stored inv n system _ fuel t_end _ rounds _ t0 y0 _ initial size refl)
          λ s h. h

  -- Whatever family of points the right-hand side keeps, in that an increment is a slope at a point
  -- of the family, a multiple of an increment or a sum of them, and moves the points of the family to
  -- points of it: from an initial point of the family each of the seven methods stores only points of
  -- the family. It throws nothing but "no DISPS variant enabled"; another method throws "Unknown
  -- method". The right-hand side keeps the dimension n, the initial point has n numbers, the settings
  -- that the method reads are integers, `<` is irreflexive and 5 is not below 0.2.
  pub solve_by-stays :
      (method : String)
      → HasSettings json parameters method
      → Post AllIn
          (Refuses method)
          (solve_by json rounds fuel scheme f parameters t0 y0 t_end tolerance method)
  solve_by-stays method has =
      by_method json parameters rounds fuel scheme f n laws system t0 y0 t_end tolerance size AllIn
        method
        (carried (λ p q m h. euler_step-stays inv h m.2.accepts)
          (euler-Follows json parameters rounds fuel scheme f n laws system t0 y0 t_end tolerance
            size))
        (carried (λ p q m h. rk2_step-stays inv h m.2.tries)
          (rk2-Follows json parameters rounds fuel scheme f n laws system t0 y0 t_end tolerance
            size))
        (carried (λ p q m h. rk23s_step-stays inv p.0 p.1 _ tolerance h m.2.accepts)
          (rk23s-Follows json parameters rounds fuel scheme f n laws system t0 y0 t_end tolerance
            size))
        (carried (λ p q m h. steks_step-stays inv p.0 p.1 _ tolerance h m.2.accepts)
          (steks-Follows json parameters rounds fuel scheme f n laws system t0 y0 t_end tolerance
            size))
        (carried
          (λ p q m h.
            subst (λ r. P r.1) (sym m.2.moved)
              (dispd_step-stays inv (lit 15 1) m.0.1 m.2.taken.attempts p.0 p.1 m.2.taken.h
                tolerance h m.2.taken.passes))
          (dispd-Follows json parameters rounds fuel scheme f n laws system t0 y0 t_end tolerance
            size))
        (λ e.
          Post-Never
            (dispf json parameters rounds fuel scheme f n laws system t0 y0 t_end tolerance size
              method has e)
            (dispf-Any method has e))
        λ e.
          Post-map
            (λ storage (variants, (last, trail)).
              Trail-carries (λ row. P row.1) initial
                (λ p q m h. disps_step-stays inv p.0 p.1 m.h m.variant h m.steps) trail)
            (disps-Follows json parameters rounds fuel scheme f n laws system t0 y0 t_end tolerance
              size method has e)
