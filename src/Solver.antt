-- ===== src/Solver.antt =====
-- Server/src/odesolvers-lib/include/Solver.hpp: what the solvers share. `f` and `stepSize` are
-- arguments of each solver.
pub mod Trail
pub mod Journey
pub mod Adaptive
pub mod Parabola
use odeclient_server.Base.Lists.{ℕ, List, HasSize}
use odeclient_server.Base.Outcome.{Outcome, ok, throw, out_of_fuel, runtime_error, Yields}
use odeclient_server.Storage.{Storage}

-- `std::function<std::vector<double>(double, std::vector<double> const &)>`.
abbrev pub OdeFunction {ℓ} : Type ℓ → Type ℓ
OdeFunction W = W → List W → Outcome (List W)

-- How `Step` ends that does not loop. `accepted` has the final values of the references `y` and `h`.
-- `rejected h` is `throw std::runtime_error("Step rejected")`, with `h` as the reference then holds.
pub data Attempt {ℓ} (W : Type ℓ) : Type ℓ where
  accepted : List W → W → Attempt W
  rejected : W → Attempt W

-- `catch (const std::runtime_error&)` around a `Step` that calls `f` before it writes to `h`.
abbrev pub catch_runtime_error {ℓ} : {W : Type ℓ} → W → Outcome (Attempt W) → Outcome (Attempt W)
catch_runtime_error h (throw (runtime_error m)) = ok (rejected h)
catch_runtime_error h r = r

-- The local variables of `Solve`, and the storage that it fills.
pub record Run {ℓ} (W : Type ℓ) : Type ℓ where
  pub t : W
  pub y : List W
  pub h : W
  pub storage : Storage W

-- The right-hand side of a system of `n` equations: it throws nothing and keeps the dimension.
abbrev pub IsSystem {ℓ} : {W : Type ℓ} → ℕ → OdeFunction W → Type ℓ
IsSystem {W} n f = (t : W) (y : List W) → HasSize n y → Yields (HasSize n) (f t y)
