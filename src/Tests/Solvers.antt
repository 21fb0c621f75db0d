-- ===== src/Tests/Solvers.antt =====
-- The solvers on y' = y, from 1.000 at time 0.
use odeclient_server.Base.Lists.{
  ◌≡◌, refl, List, [], ◌∷◌, HasSize, none, some, arith, map, length-map,
}
use odeclient_server.Base.Outcome.{ok, out_of_fuel, Post, Never, Yields, yields}
use odeclient_server.Base.Loop.{Owes}
use odeclient_server.Base.Double.{IsIrreflexive, NanLaws}
use odeclient_server.Base.Milli.{Milli, milli_double}
use odeclient_server.Solver.{OdeFunction, IsSystem, accepted}
use odeclient_server.Euler
use odeclient_server.Rk23s
use odeclient_server.Steks
use odeclient_server.Dispd
use odeclient_server.Dispd.{SchemeParams}
use odeclient_server.Rk2
use odeclient_server.Rk2.{Trial}

abbrev pub growth : OdeFunction Milli
growth t y = ok y

pub growth-IsSystem : IsSystem 1 growth
growth-IsSystem t y s = yields s

abbrev pub one : List Milli
one = some 1000 ∷ []

pub one-HasSize : HasSize 1 one
one-HasSize = record { sized = refl }

pub milli-IsIrreflexive : IsIrreflexive Milli
milli-IsIrreflexive none = refl
milli-IsIrreflexive (some x) = ground arith

euler_step-Settles_example :
    Yields
      (Euler.Step.Settles growth 1 (some 0) one (some 500) (some 1000))
      (Euler.step growth (some 0) one (some 500) (some 1000))
euler_step-Settles_example =
    Euler.Step.euler_step-Settles growth 1 growth-IsSystem (some 0) one (some 500) (some 1000)
      one-HasSize

-- The trial step covers 0.500, and `h` is then 0.900.
euler_step_runs :
    Euler.step growth (some 0) one (some 500) (some 1000)
    ≡ ok (accepted (some 1500 ∷ []) (some 1000))
unfolding Euler.step Euler.local_error odeclient_server.Vectors.add_vectors
    odeclient_server.Vectors.multiply_scalar_by_vector
euler_step_runs = refl

steks_step-Settles_example :
    Yields (Steks.Step.Settles 1 (some 500)) (Steks.step growth (some 0) one (some 500) (some 1000))
steks_step-Settles_example =
    Steks.Step.steks_step-Settles growth milli-IsIrreflexive refl 1 growth-IsSystem (some 0) one
      (some 500) (some 1000) one-HasSize

abbrev scheme : SchemeParams Milli
scheme = record { p1 = some 250; p2 = some 500; p3 = some 250; g = some 150 }

dispd_step-StepEnds_example :
    Dispd.Step.StepEnds growth
      (some 1500)
      1
      scheme
      (some 0)
      one
      (some 1000)
      (Dispd.step growth (some 1500) scheme (some 0) one (some 500) (some 1000))
dispd_step-StepEnds_example =
    Dispd.Step.dispd_step-StepEnds growth (some 1500) 1 growth-IsSystem milli-IsIrreflexive refl
      scheme (some 0) one (some 500) (some 1000) one-HasSize

abbrev IsNone : Milli → Type 0
IsNone none = Unit
IsNone (some x) = ⊥

milli-NanLaws : NanLaws Milli
milli-NanLaws = record {
  IsNan = IsNone;
  plus_left = elim [ none ↦ λ y h. tt | some x ↦ λ y h. absurd h ];
  plus_right = elim [
    | none ↦ λ y h. tt
    | some x ↦ elim [ none ↦ λ h. tt | some y ↦ λ h. absurd h ]
  ];
  minus_left = elim [ none ↦ λ y h. tt | some x ↦ λ y h. absurd h ];
  times_left = elim [ none ↦ λ y h. tt | some x ↦ λ y h. absurd h ];
  times_right = elim [
    | none ↦ λ y h. tt
    | some x ↦ elim [ none ↦ λ h. tt | some y ↦ λ h. absurd h ]
  ];
  over_left = elim [ none ↦ λ y h. tt | some x ↦ λ y h. absurd h ];
  over_right = elim [
    | none ↦ λ y h. tt
    | some x ↦ elim [ none ↦ λ h. tt | some y ↦ λ h. absurd h ]
  ];
  pow_left = elim [ none ↦ λ y h e. tt | some x ↦ λ y h e. absurd h ];
  sqrt_nan = elim [ none ↦ λ h. tt | some x ↦ λ h. absurd h ];
  lt_left = elim [ none ↦ λ y h. refl | some x ↦ λ y h. absurd h ];
  le_left = elim [ none ↦ λ y h. refl | some x ↦ λ y h. absurd h ];
}

-- A right-hand side that divides by zero.
abbrev singular : OdeFunction Milli
singular t y = ok (map (λ x. none) y)

singular-IsSystem : IsSystem 1 singular
singular-IsSystem t y s =
    yields (record { sized = omega (arith, length-map {A = Milli} {B = Milli} (λ x. none) y) })

abbrev broken : Trial Milli
broken = record { y_next = none ∷ []; error = none }

rk2_step-nan_example : Rk2.step singular 1000 (some 0) one (some 1) (some 1) ≡ out_of_fuel
unfolding Rk2.trial odeclient_server.Vectors.add_vectors
    odeclient_server.Vectors.multiply_scalar_by_vector odeclient_server.Vectors.subtract_vectors
    odeclient_server.Vectors.norm milli-NanLaws
rk2_step-nan_example =
    Rk2.Step.Nan.step-nan milli-NanLaws singular 1 singular-IsSystem (omega arith) refl 1000
      (some 0) one (some 1) (some 1) broken one-HasSize refl tt

tries_once : (r : List Milli × Milli) × Rk2.Step.Tries growth (some 0) one (some 1000) (some 500) r
unfolding Rk2.trial odeclient_server.Vectors.add_vectors
    odeclient_server.Vectors.multiply_scalar_by_vector odeclient_server.Vectors.subtract_vectors
    odeclient_server.Vectors.norm
tries_once = (_, Rk2.Step.settled refl refl)

rk2_solve-Sound_example :
    Post
      (Owes
        (Rk2.Solve.Sound growth 1 (some 1000) (some 1000) [] (some 500) (some 0, one))
        (Rk2.Solve.Ends growth 1 (some 1000) (some 1000) [] (some 500) (some 0, one)))
      Never
      (Rk2.solve growth 9 4 (some 500) (some 0) one (some 1000) [] (some 1000))
rk2_solve-Sound_example =
    Rk2.Solve.rk2_solve-Sound growth 1 (some 1000) (some 1000) growth-IsSystem 9 4 (some 500)
      (some 0) one [] one-HasSize
