-- ===== src/Tests/Variants.antt =====
-- DISPSSolver and DISPSSolver_old with two of their variants, on y' = y, and the flags of a request.
use odeclient_server.Flags
use odeclient_server.Base.Int.{ℤ, pos}
use text.Mathlib.Text.{◌==◌}
use odeclient_server.Base.Lists.{
  String, Bool, ◌||◌, if◌then◌else◌, ◌≡◌, ◌⊎◌, refl, inl, inr, List, [], ◌∷◌, All, true, false,
  some, none, ap, arith,
}
use odeclient_server.Base.Outcome.{yields, Outcome, ok, throw, runtime_error, Yields, ◌>>=◌}
use odeclient_server.Base.Loop.{Owes}
use odeclient_server.Base.Milli.{Milli, milli_double}
use odeclient_server.Disps
use odeclient_server.DispsOld
use odeclient_server.Base.Double.{lit, ◌*◌}
use odeclient_server.Disps.{DispsEnabledFlags, DispsVariant, disps13, disps25}
use odeclient_server.Disps.Sizes.{IsVariant}
use odeclient_server.Disps.Variants.{InRange, AllOff}
use odeclient_server.Tests.Solvers.{growth, growth-IsSystem, one, one-HasSize}

abbrev two_flags : DispsEnabledFlags
two_flags = record {
  disps13 = true;
  disps15 = false;
  disps23 = false;
  disps25 = true;
  disps35 = false;
  disps36 = false;
}

abbrev two_variants : List (DispsVariant Milli)
two_variants = disps13 ∷ disps25 ∷ []

construct_runs : Disps.construct two_flags ≡ ok two_variants
unfolding Disps.construct
construct_runs = refl

two_variants-IsVariant : All IsVariant two_variants
two_variants-IsVariant = (
  record { stages = inl refl; weights = refl; enough = inl refl },
  (record { stages = inr (inl refl); weights = refl; enough = inr (inl refl) }, tt),
)

disps_solve-Sound_example :
    let P = Disps.Trajectory.Sound growth two_variants 1 (some 1000) (some 1000) (some 0, one) in
    Yields
      (Owes P (λ u. P u × Disps.Trajectory.IsDone growth two_variants 1 (some 1000) (some 1000) u))
      (Disps.Solve.solve growth two_variants 4 (some 100) 0 (some 0) one (some 1000) (some 1000))
disps_solve-Sound_example =
    Disps.Trajectory.disps_solve-Sound growth two_variants 1 (some 1000) (some 1000) growth-IsSystem
      two_variants-IsVariant 4 (some 100) 0 (some 0) one (disps13, refl) one-HasSize

-- A request with "Disps25": 1 and "Disps13": 0.
abbrev has : String → Bool
has key = (key == "Disps25") || (key == "Disps13")

abbrev value : String → Outcome ℤ
value key = ok (pos (if key == "Disps25" then 1 else 0))

all_flags : Flags.HasFlags has value
all_flags = (
  (λ c. yields tt),
  (
    (λ c. yields tt),
    ((λ c. yields tt), ((λ c. yields tt), ((λ c. yields tt), ((λ c. yields tt), tt)))),
  ),
)

disps_solver-IsVariant_example :
    Yields
      (λ (vs : List (DispsVariant Milli)). All IsVariant vs × InRange vs 0)
      (Flags.disps_solver has value Milli)
    ⊎ ((Flags.disps_solver has value Milli
          ≡ throw (runtime_error "Нет включённых вариантов DISPS!"))
        × ((flags : DispsEnabledFlags) × (Flags.parse_disps_flags has value ≡ ok flags)
            × AllOff flags))
disps_solver-IsVariant_example = Flags.disps_solver-IsVariant has value all_flags Milli

disps_solver_runs : Flags.disps_solver has value Milli ≡ ok (disps25 ∷ [])
unfolding Flags.disps_solver Flags.parse_disps_flags Flags.flag Disps.construct
disps_solver_runs = refl

abbrev old : DispsOld.DispsVariantOld Milli
old = record { stages = 3; p = some 765 ∷ some 206 ∷ some 27 ∷ [] }

times_one : (x : Milli) → lit 1 0 * x ≡ x
times_one none = refl
times_one (some x) = ap some (omega arith)

do_step-do_one_step_example : DispsOld.do_step growth (some 0) one (some 100) old ≡ (
    Disps.Stages.do_one_step growth
      (some 0)
      one
      (some 100)
      (record { stages = 3; order = 1; p = old.p; gamma = some 17000 })
    >>= λ r. ok r.0)
do_step-do_one_step_example =
    DispsOld.Steps.do_step-do_one_step 1 growth growth-IsSystem times_one (some 0) one (some 100)
      (record { stages = 3; order = 1; p = old.p; gamma = some 17000 }) one-HasSize (inl refl)

solve_old-Sound_example :
    Yields
      (DispsOld.Trajectory.SolvedBy growth 1
        (some 100)
        (some 1000)
        (DispsOld.construct_old two_flags)
        (some 0, one))
      (DispsOld.construct_old two_flags >>= λ methods.
        DispsOld.solve_old growth methods 4 (some 100) (some 0) one (some 1000))
    ⊎ (DispsOld.construct_old {W = Milli} two_flags
        ≡ throw (runtime_error "Нет включённых вариантов DISPS"))
solve_old-Sound_example =
    DispsOld.Trajectory.solve_old-Sound growth 1 (some 100) (some 1000) growth-IsSystem times_one
      two_flags 4 (some 0) one one-HasSize
