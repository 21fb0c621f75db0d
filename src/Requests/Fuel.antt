-- ===== src/Requests/Fuel.antt =====
-- Routers.cpp, POST /solve: what the thread comes to with more rounds and more fuel.
use text.Mathlib.Text.{◌==◌}
use odeclient_server.Base.Lists.{ℕ, ◌≡◌, ◌⊎◌, ◌≤◌, refl, inl, inr, String, List, [], Bool}
use odeclient_server.Base.Outcome.{out_of_fuel}
use odeclient_server.Base.Fuel.{Extends, Extends-same, Extends-if, Extends-then, loop-Extends}
use odeclient_server.Base.Json.{Json}
use odeclient_server.Base.Double.{Double, lit, ◌*◌}
use odeclient_server.Solver.{OdeFunction}
use odeclient_server.Tasks.{get_task}
use odeclient_server.Tasks.Load.{load_parameters}
use odeclient_server.Params.{extract_initial_conditions}
use odeclient_server.Flags.{disps_solver}
use odeclient_server.Euler
use odeclient_server.Rk2
use odeclient_server.Rk23s
use odeclient_server.Steks
use odeclient_server.Dispd
use odeclient_server.Dispd.{SchemeParams}
use odeclient_server.Dispf
use odeclient_server.Disps
use odeclient_server.Requests.{
  add_rows, int_at, double_at, c, solve_euler, solve_rk2, solve_rk23s, solve_steks, solve_dispd,
  solve_dispf, solve_disps, solve_by, solve_request, run_thread,
}

module _ {ℓ} {W : Type ℓ} ⦃d : Double W⦄ (json : Json W) (rounds rounds' fuel fuel' : ℕ)
    (more_rounds : rounds ≤ rounds') (more_fuel : fuel ≤ fuel') (scheme : SchemeParams W) where
  module _ (f : OdeFunction W) (parameters : json.Value) (t0 : W) (y0 : List W)
      (t_end tolerance : W) where
    euler :
        Extends
          (solve_euler json rounds fuel scheme f parameters t0 y0 t_end tolerance)
          (solve_euler json rounds' fuel' scheme f parameters t0 y0 t_end tolerance)
    unfolding solve_euler Euler.solve
    euler = loop-Extends _ _ _ _ (λ s. inr refl) rounds rounds' more_rounds _

    rk2 :
        Extends
          (solve_rk2 json rounds fuel scheme f parameters t0 y0 t_end tolerance)
          (solve_rk2 json rounds' fuel' scheme f parameters t0 y0 t_end tolerance)
    unfolding solve_rk2 Rk2.solve
    rk2 =
        loop-Extends _ _ _ _ (Rk2.Fuel.round-Extends f fuel fuel' more_fuel t_end tolerance) rounds
          rounds' more_rounds _

    rk23s :
        Extends
          (solve_rk23s json rounds fuel scheme f parameters t0 y0 t_end tolerance)
          (solve_rk23s json rounds' fuel' scheme f parameters t0 y0 t_end tolerance)
    unfolding solve_rk23s Rk23s.solve
    rk23s = loop-Extends _ _ _ _ (λ s. inr refl) rounds rounds' more_rounds _

    steks :
        Extends
          (solve_steks json rounds fuel scheme f parameters t0 y0 t_end tolerance)
          (solve_steks json rounds' fuel' scheme f parameters t0 y0 t_end tolerance)
    unfolding solve_steks Steks.solve
    steks = loop-Extends _ _ _ _ (λ s. inr refl) rounds rounds' more_rounds _

    dispd :
        Extends
          (solve_dispd json rounds fuel scheme f parameters t0 y0 t_end tolerance)
          (solve_dispd json rounds' fuel' scheme f parameters t0 y0 t_end tolerance)
    unfolding solve_dispd Dispd.solve
    dispd = loop-Extends _ _ _ _ (λ s. inr refl) rounds rounds' more_rounds _

    dispf :
        Extends
          (solve_dispf json rounds fuel scheme f parameters t0 y0 t_end tolerance)
          (solve_dispf json rounds' fuel' scheme f parameters t0 y0 t_end tolerance)
    unfolding solve_dispf Dispf.Solve.solve
    dispf = Extends-same (int_at json parameters "I") λ i.
        Extends-same (int_at json parameters "J") λ j.
          Extends-same (int_at json parameters "K") λ k.
            loop-Extends _ _ _ _
              (Dispf.Fuel.round-Extends f (Dispf.construct (lit 0 0) i j k).0 fuel fuel' more_fuel
                t_end (tolerance * c))
              rounds rounds' more_rounds _

    disps :
        Extends
          (solve_disps json rounds fuel scheme f parameters t0 y0 t_end tolerance)
          (solve_disps json rounds' fuel' scheme f parameters t0 y0 t_end tolerance)
    unfolding solve_disps Disps.Solve.solve
    disps =
        Extends-same (disps_solver (json.contains parameters) (int_at json parameters) W)
          λ variants.
            Extends-then _ _ (λ s. s.results) (λ results. add_rows results [])
              (loop-Extends _ _ _ _ (λ s. inr refl) rounds rounds' more_rounds _)

    solve_by-Extends :
        (method : String)
        → Extends
            (solve_by json rounds fuel scheme f parameters t0 y0 t_end tolerance method)
            (solve_by json rounds' fuel' scheme f parameters t0 y0 t_end tolerance method)
    unfolding solve_by
    solve_by-Extends method = Extends-if (method == "ExplicitEuler") euler (
        Extends-if (method == "RungeKutta2") rk2 (
          Extends-if (method == "RK23S") rk23s (
            Extends-if (method == "STEKS") steks (
              Extends-if (method == "DISPD") dispd (
                Extends-if (method == "DISPF") dispf
                  (Extends-if (method == "DISPS") disps (inr refl)))))))

  module _ (sort : List (ℕ × W) → List (ℕ × W)) (task_name method : String)
      (parameters : json.Value) where
    solve_request-Extends :
        Extends
          (solve_request json rounds fuel sort scheme task_name method parameters)
          (solve_request json rounds' fuel' sort scheme task_name method parameters)
    unfolding solve_request
    solve_request-Extends = Extends-same (double_at json parameters "t0") λ t0.
        Extends-same (double_at json parameters "t1") λ t_end.
          Extends-same (double_at json parameters "tolerance") λ tolerance.
            Extends-same (load_parameters json parameters []) λ params.
              Extends-same (extract_initial_conditions sort params) λ y0.
                Extends-same (get_task task_name)
                  λ task. solve_by-Extends _ parameters t0 y0 t_end tolerance method

    -- What the thread comes to in some rounds and with some fuel, a response or undefined behaviour,
    -- it comes to in any more rounds and with any more fuel.
    run_thread-Extends :
        (connected : ℕ → Bool) (dump : W → List W → String)
        → (run_thread json rounds fuel sort scheme connected dump task_name method parameters
            ≡ out_of_fuel)
          ⊎ (run_thread json rounds' fuel' sort scheme connected dump task_name method parameters
              ≡ run_thread json rounds fuel sort scheme connected dump task_name method parameters)
    unfolding run_thread
    run_thread-Extends connected dump = elim solve_request-Extends [
      | inl e ↦ inl (rw e)
      | inr e ↦ inr (rw e)
    ]
