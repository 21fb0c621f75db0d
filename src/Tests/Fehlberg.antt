-- ===== src/Tests/Fehlberg.antt =====
-- DISPFSolver on y' = y, from 1.000 at time 0, as Routers.cpp constructs it.
use odeclient_server.Base.Lists.{true, ◌≡◌, refl, [], ◌∷◌, replicate, false, some}
use odeclient_server.Base.Outcome.{ok, Post, Never}
use odeclient_server.Base.Loop.{Owes}
use odeclient_server.Base.Int.{pos}
use odeclient_server.Base.Milli.{Milli, milli_double}
use odeclient_server.Dispf
use odeclient_server.Dispf.{Config, Members, dispfa, dispfb}
use odeclient_server.Tests.Solvers.{growth, growth-IsSystem, one, one-HasSize}

-- What `construct (some 0) (pos 0) (pos 0) (pos 2)` gives.
abbrev variable : Config Milli
variable = record {
  gamma = some 0;
  variable_order = true;
  stability_control_enabled = true;
  jacobian_method = pos 2;
}

abbrev fresh : Members Milli
fresh = record { k = []; current_method = dispfa; vn_break_count = 0; jump_to_radau5 = false }

construct_runs : Dispf.construct (some 0) (pos 0) (pos 0) (pos 2) ≡ (variable, fresh)
unfolding Dispf.construct
construct_runs = refl

-- The members between two steps by DISPFB, with stiff steps behind them.
abbrev counting : Members Milli
counting = record {
  k = replicate 6 (some 0) ∷ [];
  current_method = dispfb;
  vn_break_count = 7;
  jump_to_radau5 = false;
}

dispf_solve-Sound_example :
    Post
      (Owes
        (Dispf.Trajectory.Sound growth variable 9 1
          (some 1000)
          (some 1000)
          []
          (Dispf.Trajectory.setting0 growth variable 9 1
            (some 1000)
            (some 1000)
            (some 500)
            one
            fresh)
          (some 0, one)
          dispfa)
        (Dispf.Trajectory.Ends growth variable 9 1
          (some 1000)
          (some 1000)
          []
          (Dispf.Trajectory.setting0 growth variable 9 1
            (some 1000)
            (some 1000)
            (some 500)
            one
            fresh)
          (some 0, one)
          dispfa))
      Never
      (Dispf.Solve.solve growth variable 9 4
        (some 500)
        (some 0)
        one
        (some 1000)
        []
        (some 1000)
        fresh)
dispf_solve-Sound_example =
    Dispf.Trajectory.dispf_solve-Sound growth variable 9 1 (some 1000) (some 1000) growth-IsSystem 4
      (some 500) (some 0) one [] fresh one-HasSize tt

step_dispfb-CountsTwice_example :
    Post
      (Dispf.StepB.Counter.CountsTwice counting)
      Never
      (Dispf.StepB.step_dispfb growth variable 9 9 (some 0) one (some 500) (some 9000) counting)
step_dispfb-CountsTwice_example =
    Dispf.StepB.Counter.step_dispfb-CountsTwice growth variable 1 growth-IsSystem refl 9 9 (some 0)
      one (some 500) (some 9000) counting one-HasSize
      (record { rows = refl; columns = (record { sized = refl }, tt) })

-- The step returns, so the statement above is about a value.
step_dispfb_returns :
    (r : Dispf.Stepped Milli) × (Dispf.StepB.step_dispfb growth variable 9 9
        (some 0)
        one
        (some 500)
        (some 9000)
        counting
      ≡ ok r)
unfolding Dispf.StepB.step_dispfb Dispf.StepB.start_b Dispf.StepB.accept_b Dispf.StepB.quarter
    Dispf.points Dispf.put Dispf.set_column Dispf.max_over Dispf.StepA.first_difference Dispf.stages
    Dispf.stage Dispf.stad_scalar Dispf.dot Dispf.b_row Dispf.end_error Dispf.StepC.cn1
    Dispf.calc_vn Dispf.vn_of_row Dispf.Stability.control_stability Dispf.scale_column
    Dispf.Jacobian.estimate_jacobian_eigenvalue Dispf.Jacobian.columns_from
    Dispf.Jacobian.difference_column Dispf.Jacobian.row_maxima Dispf.Jacobian.max_column
    Dispf.Jacobian.sum_of
step_dispfb_returns = (_, refl)
