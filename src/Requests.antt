-- ===== src/Requests.antt =====
-- Server/src/Routers.cpp: POST /solve. `json` stands for nlohmann::json, `sort` for `std::sort` by
-- the index, `dump` and `connected` as in Stream.antt, `scheme` for the member `currentScheme` of
-- DISPDSolver, which no constructor sets. `rounds` bounds the loops of the solvers and `fuel` those
-- inside a step: where they do not suffice the thread has not come to an end yet.
pub mod Solves
pub mod Invariants
pub mod Robertson
pub mod Rest
pub mod Failures
pub mod Answers
pub mod Boundary
pub mod Fuel
use Prim.Native.String.{◌++◌ as joined}
use text.Mathlib.Text.{◌==◌}
use odeclient_server.Base.Lists.{ℕ, zero, String, List, [], ◌∷◌, Bool, if◌then◌else◌}
use odeclient_server.Base.Outcome.{
  Outcome, Error, ok, throw, out_of_fuel, runtime_error, invalid_argument, out_of_range, type_error,
  undefined, ◌>>=◌,
}
use odeclient_server.Base.Loop.{finished}
use odeclient_server.Base.Int.{ℤ}
use odeclient_server.Base.Json.{Json}
use odeclient_server.Base.Double.{Double, lit, ◌*◌}
use odeclient_server.Storage.{Storage, add}
use odeclient_server.Solver.{OdeFunction}
use odeclient_server.Tasks.{get_task, ode_function}
use odeclient_server.Tasks.Load.{load_parameters}
use odeclient_server.Params.{extract_initial_conditions}
use odeclient_server.Flags.{disps_solver}
use odeclient_server.Stream.{write_response}
use odeclient_server.Euler
use odeclient_server.Rk2
use odeclient_server.Rk23s
use odeclient_server.Steks
use odeclient_server.Dispd
use odeclient_server.Dispd.{SchemeParams}
use odeclient_server.Dispf
use odeclient_server.Disps

-- What the thread sends: the bodies of the stream, a 500 with its body, or, as the client is gone,
-- nothing.
pub data Response : Type 0 where
  streamed : List String → Response
  internal_server_error : String → Response
  silent : Response

-- What the handler returns: 400 with its body, or "unfinished", with what the thread comes to.
pub data Answer : Type 0 where
  bad_request : String → Answer
  unfinished : Outcome Response → Answer

-- `e.what()` of what `catch (const std::exception& e)` catches.
abbrev pub what : Error → Outcome String
what (runtime_error m) = ok m
what (invalid_argument m) = ok m
what (out_of_range m) = ok m
what (type_error m) = ok m
what undefined = throw undefined

-- `try … catch (const std::exception& e)`.
abbrev pub catch_exception {ℓ} : {A : Type ℓ} → (String → A) → Outcome A → Outcome A
catch_exception handler (ok a) = ok a
catch_exception handler (throw e) = what e >>= λ m. ok (handler m)
catch_exception handler out_of_fuel = out_of_fuel

-- The handler of an exception in the thread, which has not asked for the client before.
abbrev pub report : (ℕ → Bool) → String → Response
report connected message =
    if connected zero then internal_server_error (joined "Error: " message) else silent

module _ {ℓ} {W : Type ℓ} where
  -- `storage.Add(row[0], std::vector<double>(row.begin() + 1, row.end()))` for each row.
  unfoldable pub add_rows : List (List W) → Storage W → Outcome (Storage W)
  add_rows [] storage = ok storage
  add_rows ([] ∷ rows) storage = throw undefined
  add_rows ((t ∷ y) ∷ rows) storage = add_rows rows (add storage t y)

module _ {ℓ} {W : Type ℓ} ⦃d : Double W⦄ where
  abbrev pub initial_step : W
  initial_step = lit 1 3

  -- `c`.
  abbrev pub c : W
  c = lit 10 5

module _ {ℓ} {W : Type ℓ} ⦃d : Double W⦄ (json : Json W) where
  abbrev pub int_at : json.Value → String → Outcome ℤ
  int_at j key = json.at j key >>= json.get_int

  abbrev pub double_at : json.Value → String → Outcome W
  double_at j key = json.at j key >>= json.get_double

module _ {ℓ} {W : Type ℓ} ⦃d : Double W⦄ (json : Json W) (rounds fuel : ℕ) where
  module _ (scheme : SchemeParams W) (f : OdeFunction W) (parameters : json.Value) (t0 : W)
      (y0 : List W) (t_end tolerance : W) where
    unfoldable pub solve_euler : Outcome (Storage W)
    solve_euler =
        Euler.solve f rounds initial_step t0 y0 t_end [] tolerance >>= finished λ s. s.storage

    unfoldable pub solve_rk2 : Outcome (Storage W)
    solve_rk2 =
        Rk2.solve f fuel rounds initial_step t0 y0 t_end [] tolerance >>= finished λ s. s.storage

    unfoldable pub solve_rk23s : Outcome (Storage W)
    solve_rk23s =
        Rk23s.solve f rounds initial_step t0 y0 t_end [] tolerance >>= finished λ s. s.storage

    unfoldable pub solve_steks : Outcome (Storage W)
    solve_steks =
        Steks.solve f rounds initial_step t0 y0 t_end [] tolerance >>= finished λ s. s.storage

    unfoldable pub solve_dispd : Outcome (Storage W)
    solve_dispd =
        Dispd.solve f (lit 15 1) scheme rounds initial_step t0 y0 t_end [] tolerance
        >>= finished λ s. s.run.storage

    unfoldable pub solve_dispf : Outcome (Storage W)
    solve_dispf = do
      i ← int_at json parameters "I"
      j ← int_at json parameters "J"
      k ← int_at json parameters "K"
      let (config, members) = Dispf.construct (lit 0 0) i j k
      r ← Dispf.Solve.solve f config fuel rounds initial_step t0 y0 t_end [] (tolerance * c) members
      finished (λ s. s.run.storage) r

    unfoldable pub solve_disps : Outcome (Storage W)
    unfolding add_rows
    solve_disps = do
      variants ← disps_solver (json.contains parameters) (int_at json parameters) W
      r ← Disps.Solve.solve f variants rounds initial_step 0 t0 y0 t_end tolerance
      results ← finished (λ s. s.results) r
      add_rows results []

    -- The chain of tests of `method`.
    unfoldable pub solve_by : String → Outcome (Storage W)
    solve_by method =
        if method == "ExplicitEuler"
        then solve_euler
        else if method == "RungeKutta2"
        then solve_rk2
        else if method == "RK23S"
        then solve_rk23s
        else if method == "STEKS"
        then solve_steks
        else if method == "DISPD"
        then solve_dispd
        else if method == "DISPF"
        then solve_dispf
        else if method == "DISPS"
        then solve_disps
        else throw (runtime_error (joined "Unknown method: " method))

  module _ (sort : List (ℕ × W) → List (ℕ × W)) (scheme : SchemeParams W) where
    -- The storage as the thread has it when the stream begins.
    unfoldable pub solve_request : String → String → json.Value → Outcome (Storage W)
    solve_request task_name method parameters = do
      t0 ← double_at json parameters "t0"
      t_end ← double_at json parameters "t1"
      tolerance ← double_at json parameters "tolerance"
      params ← load_parameters json parameters []
      y0 ← extract_initial_conditions sort params
      task ← get_task task_name
      solve_by scheme (ode_function task params) parameters t0 y0 t_end tolerance method

    module _ (connected : ℕ → Bool) (dump : W → List W → String) where
      -- The body of the thread.
      unfoldable pub run_thread : String → String → json.Value → Outcome Response
      run_thread task_name method parameters = catch_exception (report connected) (
          solve_request task_name method parameters >>= λ storage.
          ok (streamed (write_response connected dump storage).bodies))

      -- The handler of POST /solve, on the body of the request.
      unfoldable pub solve : String → Outcome Answer
      solve request =
          catch_exception (λ message. bad_request (joined "Error: " message))
            (do
              body ← json.parse request
              equation ← json.entry body "Equation"
              task_name ← json.get_string equation
              method_entry ← json.entry body "Method"
              method ← json.get_string method_entry
              parameters ← json.entry body "Parameters"
              ok (unfinished (run_thread task_name method parameters)))
