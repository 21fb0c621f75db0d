-- ===== src/Tasks/Laws.antt =====
-- TaskManager: the tasks as right-hand sides, and the keys that their calls insert.
use text.Mathlib.Text.{◌==◌}
use text.Mathlib.TextEquality.{eq_iff}
use odeclient_server.Base.Lists.{
  ◌<◌, length, List, ◌≡◌, refl, String, some, [], ◌∷◌, if◌then◌else◌, arith,
}
use odeclient_server.Base.Outcome.{bind_assoc, undefined, throw, ok, yields}
use odeclient_server.Base.Double.{Double, lit}
use odeclient_server.Solver.{IsSystem}
use odeclient_server.Tasks.{
  call, Parameters, find, assign, Task, van_der_pol, forced_oscillator, robertson_system, fetch,
  ode_function, dimension,
}

module _ {ℓ} {W : Type ℓ} where
  pub find-assign :
      (key k : String) (v : W) (params : Parameters W)
      → find k (assign key v params) ≡ (if key == k then some v else find k params)
  unfolding find assign
  find-assign key k v [] = refl
  find-assign key k v ((j, w) ∷ params) =
      ground (arith, eq_iff j key, eq_iff j k, eq_iff key k, find-assign key k v params)

module _ {ℓ} {W : Type ℓ} ⦃d : Double W⦄ where
  -- Reading a key later gives what reading it at first would have given.
  fetch-fetch :
      (key k : String) (params : Parameters W)
      → (fetch k (fetch key params).1).0 ≡ (fetch k params).0
  unfolding fetch
  fetch-fetch key k params = ground (arith, find-assign key k (lit 0 0) params, eq_iff key k)

  pub ode_function-IsSystem :
      (task : Task) (params : Parameters W) → IsSystem (dimension task) (ode_function task params)
  unfolding ode_function
  ode_function-IsSystem van_der_pol params t (y0 ∷ y1 ∷ []) s = yields (record { sized = refl })
  ode_function-IsSystem forced_oscillator params t (y0 ∷ y1 ∷ []) s =
      yields (record { sized = refl })
  ode_function-IsSystem robertson_system params t (y0 ∷ y1 ∷ y2 ∷ []) s =
      yields (record { sized = refl })
  ode_function-IsSystem van_der_pol params t _ s = absurd (omega (arith, s.sized))
  ode_function-IsSystem forced_oscillator params t _ s = absurd (omega (arith, s.sized))
  ode_function-IsSystem robertson_system params t _ s = absurd (omega (arith, s.sized))

  -- The parameters that a call of a task leaves.
  abbrev fetched : Task → Parameters W → Parameters W
  fetched van_der_pol params = (fetch "p" (fetch "mu" params).1).1
  fetched forced_oscillator params =
      (fetch "omega_k" (fetch "F" (fetch "gamma" (fetch "omega" params).1).1).1).1
  fetched robertson_system params = (fetch "k3" (fetch "k2" (fetch "k1" params).1).1).1

  -- A call reads its vector out of bounds exactly where it has fewer numbers than the task has
  -- equations.
  call-fetched :
      (task : Task) (params : Parameters W) (t : W) (y : List W)
      → (length y < dimension task → call task params t y ≡ throw undefined)
        × ((dy : List W) (params' : Parameters W)
            → call task params t y ≡ ok (dy, params')
            → params' ≡ fetched task params)
  unfolding call
  call-fetched van_der_pol params t [] = (λ h. refl, λ dy p e. cc)
  call-fetched van_der_pol params t (y0 ∷ []) = (λ h. refl, λ dy p e. cc)
  call-fetched van_der_pol params t (y0 ∷ y1 ∷ y) = (λ h. absurd (omega arith), λ dy p e. cc)
  call-fetched forced_oscillator params t [] = (λ h. refl, λ dy p e. cc)
  call-fetched forced_oscillator params t (y0 ∷ []) = (λ h. refl, λ dy p e. cc)
  call-fetched forced_oscillator params t (y0 ∷ y1 ∷ y) = (λ h. absurd (omega arith), λ dy p e. cc)
  call-fetched robertson_system params t [] = (λ h. refl, λ dy p e. cc)
  call-fetched robertson_system params t (y0 ∷ []) = (λ h. refl, λ dy p e. cc)
  call-fetched robertson_system params t (y0 ∷ y1 ∷ []) = (λ h. refl, λ dy p e. cc)
  call-fetched robertson_system params t (y0 ∷ y1 ∷ y2 ∷ y) =
      (λ h. absurd (omega arith), λ dy p e. cc)

  ode_function-fetched :
      (task : Task) (params : Parameters W) (t : W) (y : List W)
      → ode_function task (fetched task params) t y ≡ ode_function task params t y
  unfolding ode_function
  ode_function-fetched van_der_pol params t y = simp (fetch-fetch, bind_assoc)
  ode_function-fetched forced_oscillator params t y = simp (fetch-fetch, bind_assoc)
  ode_function-fetched robertson_system params t y = simp (fetch-fetch, bind_assoc)

  -- The keys that a call inserts are not seen by later calls: what a task computes depends on the
  -- parameters of the request alone.
  pub call-ode_function :
      (task : Task) (params : Parameters W) (t : W) (y dy : List W) (params' : Parameters W)
      → call task params t y ≡ ok (dy, params')
      → (t' : W) (y' : List W) → ode_function task params' t' y' ≡ ode_function task params t' y'
  call-ode_function task params t y dy params' e t' y' =
      rw ((call-fetched task params t y).1 dy params' e) (ode_function-fetched task params t' y')

  -- A task on a vector of its dimension throws nothing and gives as many numbers; on a shorter vector
  -- it reads out of bounds.
  pub ode_function-dimension :
      (task : Task) (params : Parameters W)
      → IsSystem (dimension task) (ode_function task params)
        × ((t : W) (y : List W)
            → length y < dimension task
            → ode_function task params t y ≡ throw undefined)
  unfolding ode_function
  ode_function-dimension task params =
      (ode_function-IsSystem task params, λ t y h. rw ((call-fetched task params t y).0 h))
