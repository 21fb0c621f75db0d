-- ===== src/Requests/Boundary.antt =====
-- Routers.cpp, POST /solve: a request whose "t1" is not after its "t0".
use text.Mathlib.Text.{◌==◌}
use odeclient_server.Base.Lists.{
  ℕ, suc, ◌≡◌, ◌⊎◌, refl, inl, inr, String, List, [], ◌∷◌, Bool, true, false, if◌then◌else◌,
}
use odeclient_server.Base.Outcome.{Outcome, Error, ok, throw, ◌>>=◌, Yields-value}
use odeclient_server.Base.Loop.{finished, Flow, loop}
use odeclient_server.Base.Json.{Json}
use odeclient_server.Base.Double.{Double, lt}
use odeclient_server.Storage.{Storage, add}
use odeclient_server.Solver.{OdeFunction}
use odeclient_server.Euler
use odeclient_server.Rk2
use odeclient_server.Rk23s
use odeclient_server.Steks
use odeclient_server.Dispd
use odeclient_server.Dispd.{SchemeParams}
use odeclient_server.Dispf
use odeclient_server.Disps
use odeclient_server.Flags.{disps_solver-IsVariant}
use odeclient_server.Requests.{
  add_rows, int_at, solve_euler, solve_rk2, solve_rk23s, solve_steks, solve_dispd, solve_dispf,
  solve_disps, solve_by,
}
use odeclient_server.Requests.Solves.{HasSettings, Refuses, unknown, no_variant}

finishes {ℓ κ} :
    {S : Type ℓ} {A : Type κ} (n : ℕ) (test : S → Bool) (body : S → Outcome (Flow S)) (s : S)
    (g : S → A)
    → test s ≡ false
    → (loop (suc n) test body s >>= finished g) ≡ ok (g s)
unfolding loop
finishes n test body s g e = rw (e, loop)

stores_all {ℓ} :
    {W : Type ℓ} (n : ℕ) (test : Disps.Solve.State W → Bool)
    (body : Disps.Solve.State W → Outcome (Flow (Disps.Solve.State W))) (s : Disps.Solve.State W)
    → test s ≡ false
    → (loop (suc n) test body s >>= λ r. finished (λ s. s.results) r >>= λ rows. add_rows rows [])
      ≡ add_rows s.results []
unfolding loop
stores_all n test body s e = rw (e, loop)

-- The call comes to `a`, or throws an exception of `E`.
abbrev Settles {ℓ} : {A : Type ℓ} → A → (Error → Type 0) → Outcome A → Type ℓ
Settles a E r = (r ≡ ok a) ⊎ ((e : Error) × E e × (r ≡ throw e))

Settles-if {ℓ} :
    {A : Type ℓ} {a : A} {E : Error → Type 0} {r s : Outcome A} (b : Bool)
    → (b ≡ true → Settles a E r)
    → (b ≡ false → Settles a E s)
    → Settles a E (if b then r else s)
Settles-if true h k = h refl
Settles-if false h k = k refl

module _ {ℓ} {W : Type ℓ} ⦃d : Double W⦄ (json : Json W) (rounds fuel : ℕ) (scheme : SchemeParams W)
    (parameters : json.Value) (f : OdeFunction W) (t0 : W) (y0 : List W) (t_end tolerance : W)
    (over : lt t0 t_end ≡ false) where
  abbrev only : Storage W
  only = (t0, y0) ∷ []

  euler : solve_euler json (suc rounds) fuel scheme f parameters t0 y0 t_end tolerance ≡ ok only
  unfolding solve_euler Euler.solve add
  euler = finishes rounds _ _ _ _ over

  rk2 : solve_rk2 json (suc rounds) fuel scheme f parameters t0 y0 t_end tolerance ≡ ok only
  unfolding solve_rk2 Rk2.solve add
  rk2 = finishes rounds _ _ _ _ over

  rk23s : solve_rk23s json (suc rounds) fuel scheme f parameters t0 y0 t_end tolerance ≡ ok only
  unfolding solve_rk23s Rk23s.solve add
  rk23s = finishes rounds _ _ _ _ over

  steks : solve_steks json (suc rounds) fuel scheme f parameters t0 y0 t_end tolerance ≡ ok only
  unfolding solve_steks Steks.solve add
  steks = finishes rounds _ _ _ _ over

  dispd : solve_dispd json (suc rounds) fuel scheme f parameters t0 y0 t_end tolerance ≡ ok only
  unfolding solve_dispd Dispd.solve add
  dispd = finishes rounds _ _ _ _ over

  dispf :
      (method : String)
      → HasSettings json parameters method
      → (method == "DISPF") ≡ true
      → solve_dispf json (suc rounds) fuel scheme f parameters t0 y0 t_end tolerance ≡ ok only
  unfolding solve_dispf Dispf.Solve.solve add
  dispf method has e =
      let (i, (j, (k, _))) = has.settings e in
      let (i', ei, _) = Yields-value i in
      let (j', ej, _) = Yields-value j in
      let (k', ek, _) = Yields-value k in rw (ei, ej, ek) (finishes rounds _ _ _ _ over)

  disps :
      (method : String)
      → HasSettings json parameters method
      → (method == "DISPS") ≡ true
      → Settles only
          (Refuses method)
          (solve_disps json (suc rounds) fuel scheme f parameters t0 y0 t_end tolerance)
  unfolding solve_disps Disps.Solve.solve add add_rows
  disps method has e =
      elim (disps_solver-IsVariant (json.contains parameters) (int_at json parameters) (has.flags e)
        W) [
          | inl y ↦
              let (variants, ev, _) = Yields-value y in inl (rw ev (stores_all rounds _ _ _ over))
          | inr (refused, _) ↦ inr (_, no_variant e, rw refused)
        ]

  -- Where `t0 < tEnd` fails and the settings that the method reads are integers, each method ends in
  -- the first round with the initial point alone, whatever the right-hand side, or the dispatch
  -- throws: the method is unknown, or DISPS has no variant.
  pub solve_by-at_end :
      (method : String)
      → HasSettings json parameters method
      → (solve_by json (suc rounds) fuel scheme f parameters t0 y0 t_end tolerance method
          ≡ ok ((t0, y0) ∷ []))
        ⊎ ((e : Error) × Refuses method e
            × (solve_by json (suc rounds) fuel scheme f parameters t0 y0 t_end tolerance method
                ≡ throw e))
  unfolding solve_by
  solve_by-at_end method has =
      Settles-if _ (λ _. inl euler)
        λ e1.
          Settles-if _ (λ _. inl rk2)
            λ e2.
              Settles-if _ (λ _. inl rk23s)
                λ e3.
                  Settles-if _ (λ _. inl steks)
                    λ e4.
                      Settles-if _ (λ _. inl dispd)
                        λ e5.
                          Settles-if _ (λ e. inl (dispf method has e))
                            λ e6. Settles-if _ (disps method has) λ e7.
                              inr (_, unknown (e1, (e2, (e3, (e4, (e5, (e6, (e7, tt))))))), refl)
