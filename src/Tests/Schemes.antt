-- ===== src/Tests/Schemes.antt =====
-- Vectors, storage, tasks and the DISPS variants at concrete inputs.
use odeclient_server.Base.Lists.{
  ℕ, ◌≡◌, ◌<◌, refl, List, [], ◌∷◌, length, get_elem?, none, some, All, arith,
}
use odeclient_server.Base.Outcome.{ok, throw, undefined}
use odeclient_server.Base.Double.{IsIrreflexive}
use odeclient_server.Base.Milli.{Milli, milli_double}
use odeclient_server.Solver.{IsSystem}
use odeclient_server.Tasks
use odeclient_server.Tasks.{Parameters, van_der_pol, ode_function, call}
use odeclient_server.Disps
use odeclient_server.Disps.{
  DispsVariant, disps13, disps23, disps25, disps35, disps36, switch_scheme,
}

abbrev mu_only : Parameters Milli
mu_only = ("mu", some 500) ∷ []

abbrev point : List Milli
point = some 2000 ∷ some 1000 ∷ []

-- `p` is missing: the call inserts 0 and divides by it.
call-ode_function_example :
    ode_function van_der_pol (("mu", some 500) ∷ ("p", some 0) ∷ []) (some 1) point
    ≡ ode_function van_der_pol mu_only (some 1) point
unfolding call Tasks.fetch Tasks.find Tasks.assign
call-ode_function_example =
    Tasks.Laws.call-ode_function van_der_pol mu_only (some 0) point (some 1000 ∷ none ∷ [])
      (("mu", some 500) ∷ ("p", some 0) ∷ []) refl (some 1) point

ode_function-dimension_example :
    IsSystem 2 (ode_function van_der_pol mu_only)
    × ((t : Milli) (y : List Milli)
        → length y < 2
        → ode_function van_der_pol mu_only t y ≡ throw undefined)
ode_function-dimension_example = Tasks.Laws.ode_function-dimension van_der_pol mu_only

milli-IsIrreflexive : IsIrreflexive Milli
milli-IsIrreflexive none = refl
milli-IsIrreflexive (some x) = ground arith

milli-IsTransitive : Disps.Switch.IsTransitive Milli
milli-IsTransitive none y z p q = cc
milli-IsTransitive (some x) none z p q = cc
milli-IsTransitive (some x) (some y) none p q = cc
milli-IsTransitive (some x) (some y) (some z) p q = ground arith

abbrev variants : List (DispsVariant Milli)
variants = disps13 ∷ disps25 ∷ disps35 ∷ disps36 ∷ []

-- From order 1 the choice falls on the variant of order 3 with the smaller gamma.
switch_scheme_runs : switch_scheme variants 0 ≡ ok 2
unfolding switch_scheme Disps.consider_all Disps.consider
switch_scheme_runs = refl

switch_scheme-NoBetter_example :
    (best : DispsVariant Milli) × (index : ℕ) × (switch_scheme variants 0 ≡ ok index)
    × (get_elem? variants index ≡ some best)
    × All (Disps.Switch.NoBetter best.order best.gamma) variants
switch_scheme-NoBetter_example =
    Disps.Switch.switch_scheme-NoBetter milli-IsIrreflexive milli-IsTransitive variants 0 disps13
      refl
