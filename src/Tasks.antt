-- ===== src/Tasks.antt =====
-- Server/src/odesolvers-lib/src/TaskManager.cpp: the systems of equations by name, over the
-- parameters of a request. A lambda in `tasks` reads `parameters[key]`, which inserts 0 for a key
-- that is not there: a call of one returns the parameters as it leaves them.
pub mod Laws
pub mod Load
use Prim.Native.String.{◌++◌ as joined}
use text.Mathlib.Text.{◌==◌}
use odeclient_server.Base.Lists.{
  ℕ, zero, suc, String, Option, none, some, List, [], ◌∷◌, length, get_elem?, if◌then◌else◌, ltb,
}
use odeclient_server.Base.Outcome.{Outcome, ok, throw, undefined, runtime_error, ◌>>=◌}
use odeclient_server.Base.Double.{Double, lit, ◌+◌, ◌-◌, ◌*◌, ◌/◌, negate, cos}
use odeclient_server.Solver.{OdeFunction}

-- `std::unordered_map<std::string, double>`.
abbrev pub Parameters {ℓ} : Type ℓ → Type ℓ
Parameters W = List (String × W)

module _ {ℓ} {W : Type ℓ} where
  unfoldable pub find : String → Parameters W → Option W
  find key [] = none
  find key ((k, v) ∷ params) = if k == key then some v else find key params

  -- `parameters[key] = value`.
  unfoldable pub assign : String → W → Parameters W → Parameters W
  assign key value [] = (key, value) ∷ []
  assign key value ((k, v) ∷ params) =
      if k == key then (k, value) ∷ params else (k, v) ∷ assign key value params

  abbrev pub element : Option W → Outcome W
  element none = throw undefined
  element (some x) = ok x

  -- `y[i]`.
  abbrev pub at : List W → ℕ → Outcome W
  at y i = element (get_elem? y i)

-- The keys of `tasks`.
pub data Task : Type 0 where
  van_der_pol forced_oscillator robertson_system : Task

-- `TaskManager::GetTask`.
unfoldable pub get_task : String → Outcome Task
get_task task_name =
    if task_name == "VanDerPol"
    then ok van_der_pol
    else if task_name == "ForcedOscillator"
    then ok forced_oscillator
    else if task_name == "RobertsonSystem"
    then ok robertson_system
    else throw (runtime_error (joined "Task not found: " task_name))

module _ {ℓ} {W : Type ℓ} ⦃d : Double W⦄ where
  -- `parameters[key]` where the lambdas read it.
  unfoldable pub fetch : String → Parameters W → W × Parameters W
  fetch key params = elim (find key params) [
    | none ↦ (lit 0 0, assign key (lit 0 0) params)
    | some v ↦ (v, params)
  ]

  unfoldable pub van_der_pol_rhs : Parameters W → W → List W → Outcome (List W × Parameters W)
  van_der_pol_rhs params t y =
      let (mu, params1) = fetch "mu" params in
      let (p, params2) = fetch "p" params1 in
      at y 1 >>= λ y1.
      at y 0 >>= λ y0. ok (y1 ∷ ((mu * (lit 1 0 - y0 * y0) * y1 - y0) / p) ∷ [], params2)

  unfoldable pub forced_oscillator_rhs : Parameters W → W → List W → Outcome (List W × Parameters W)
  forced_oscillator_rhs params t y =
      let (omega', params1) = fetch "omega" params in
      let (gamma, params2) = fetch "gamma" params1 in
      let (force, params3) = fetch "F" params2 in
      let (omega_drive, params4) = fetch "omega_k" params3 in
      at y 1 >>= λ y1. at y 0 >>= λ y0. ok (
        y1 ∷ (negate omega' * omega' * y0 - gamma * y1 + force * cos (omega_drive * t)) ∷ [],
        params4,
      )

  unfoldable pub robertson_system_rhs : Parameters W → W → List W → Outcome (List W × Parameters W)
  robertson_system_rhs params t y =
      let (k1, params1) = fetch "k1" params in
      let (k2, params2) = fetch "k2" params1 in
      let (k3, params3) = fetch "k3" params2 in
      at y 0 >>= λ y0. at y 1 >>= λ y1. at y 2 >>= λ y2. ok (
        (negate k1 * y0 + k2 * y1 * y2)
            ∷ (k1 * y0 - k2 * y1 * y2 - k3 * y1 * y1)
            ∷ (k3 * y1 * y1)
            ∷ [],
        params3,
      )

  -- The call of a task's lambda.
  unfoldable pub call : Task → Parameters W → W → List W → Outcome (List W × Parameters W)
  unfolding van_der_pol_rhs forced_oscillator_rhs robertson_system_rhs
  call van_der_pol = van_der_pol_rhs
  call forced_oscillator = forced_oscillator_rhs
  call robertson_system = robertson_system_rhs

  -- What the solvers see of it.
  unfoldable pub ode_function : Task → Parameters W → OdeFunction W
  unfolding call
  ode_function task params t y = call task params t y >>= λ (dy, _). ok dy

-- How many numbers of the point a task reads.
abbrev pub dimension : Task → ℕ
dimension van_der_pol = 2
dimension forced_oscillator = 2
dimension robertson_system = 3
