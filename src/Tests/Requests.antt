-- ===== src/Tests/Requests.antt =====
-- The thread and the handler of /solve on the request of Tests/Sample.
use odeclient_server.Base.Lists.{◌≡◌, ◌⊎◌, refl, [], ◌∷◌, some, true}
use odeclient_server.Base.Outcome.{Error, ok, throw, Post, Never}
use odeclient_server.Base.Milli.{milli_double}
use odeclient_server.Solver.Trail.{IsTrajectory}
use odeclient_server.Tasks
use odeclient_server.Euler
use odeclient_server.Vectors
use odeclient_server.Stream
use odeclient_server.Storage
use odeclient_server.Tasks.{Parameters, find, van_der_pol, ode_function}
use odeclient_server.Tasks.Load.{IsKeyed, reads, reads_nil}
use odeclient_server.Params
use odeclient_server.Params.{read_index}
use odeclient_server.Requests
use odeclient_server.Requests.Solves.{HasSettings, Refuses, Comparisons}
use odeclient_server.Requests.Answers.{IsRead, IsWellFormed}
use odeclient_server.Tests.Sort.{sort_conditions, sort_conditions-IsSort}
use odeclient_server.Tests.Solvers.{growth, growth-IsSystem, one, one-HasSize}
use odeclient_server.Tests.Responses.{connected_once, connected_once-StaysLost}
use odeclient_server.Tests.Sample.{
  others, entries, start, settings, json, scheme, dump_point, milli-Comparisons,
  entries-HasSettings, entries-IsKeyed, entries-IsRead, others_unnamed, entries-IsWellFormed,
}

run_thread-Sends_example :
    Post
      (Requests.Answers.Sends json 3 3 sort_conditions scheme sort_conditions-IsSort
        milli-Comparisons "VanDerPol" "ExplicitEuler"
        (settings entries)
        entries-IsWellFormed
        connected_once
        dump_point)
      Never
      (Requests.run_thread json 3 3 sort_conditions scheme connected_once dump_point "VanDerPol"
        "ExplicitEuler"
        (settings entries))
run_thread-Sends_example =
    Requests.Answers.run_thread-Sends json 3 3 sort_conditions scheme sort_conditions-IsSort
      milli-Comparisons "VanDerPol" "ExplicitEuler" (settings entries) entries-IsWellFormed
      connected_once dump_point connected_once-StaysLost

solve_by-IsTrajectory_example :
    Post (IsTrajectory 1 (some 1000) (some 0, one)) (Refuses "ExplicitEuler") (
      Requests.solve_by json 3 3 scheme growth
        (settings entries)
        (some 0)
        one
        (some 1000)
        (some 1000)
        "ExplicitEuler")
solve_by-IsTrajectory_example =
    Requests.Solves.solve_by-IsTrajectory json (settings entries) 3 3 scheme growth 1
      milli-Comparisons growth-IsSystem (some 0) one (some 1000) (some 1000) one-HasSize
      "ExplicitEuler" entries-HasSettings

solve_by-at_end_example :
    (Requests.solve_by json 1 3 scheme growth
        (settings entries)
        (some 5)
        one
        (some 5)
        (some 1000)
        "ExplicitEuler"
      ≡ ok ((some 5, one) ∷ []))
    ⊎ ((e : Error) × Refuses "ExplicitEuler" e
        × (Requests.solve_by json 1 3 scheme growth
              (settings entries)
              (some 5)
              one
              (some 5)
              (some 1000)
              "ExplicitEuler"
            ≡ throw e))
solve_by-at_end_example =
    Requests.Boundary.solve_by-at_end json 0 3 scheme (settings entries) growth (some 5) one
      (some 5) (some 1000) refl "ExplicitEuler" entries-HasSettings

others-IsRead : IsRead json (settings others) (some 0) (some 1000) (some 1000) others
unfolding find
others-IsRead = record {
  from = refl;
  to = refl;
  within = refl;
  reads = reads refl (reads refl (reads refl (reads refl (reads refl reads_nil))));
  keyed = entries-IsKeyed.1.1;
}

run_thread_without_values_example :
    Requests.run_thread json 3 3 sort_conditions scheme connected_once dump_point "Pendulum" "Euler"
      (settings others)
    ≡ ok (Requests.internal_server_error "Error: No initial conditions found in parameters.")
run_thread_without_values_example =
    Requests.Failures.run_thread_without_values json 3 3 sort_conditions scheme connected_once
      dump_point "Pendulum" "Euler" (settings others) sort_conditions-IsSort others-IsRead
      others_unnamed

start_extracted : Params.extract_initial_conditions sort_conditions entries ≡ ok start
unfolding Params.extract_initial_conditions Params.indexed_conditions read_index Params.scan_index
    Params.stoi sort_conditions odeclient_server.Tests.Sort.insert
start_extracted = refl

run_thread_without_task_example :
    Requests.run_thread json 3 3 sort_conditions scheme connected_once dump_point "Pendulum" "Euler"
      (settings entries)
    ≡ ok (Requests.internal_server_error "Error: Task not found: Pendulum")
run_thread_without_task_example =
    Requests.Failures.run_thread_without_task json 3 3 sort_conditions scheme connected_once
      dump_point "Pendulum" "Euler" (settings entries) start entries-IsRead start_extracted refl
      refl refl

-- The thread comes to an end, with two points.
run_thread_runs :
    Requests.run_thread json 30 9 sort_conditions scheme
      (λ n. true)
      dump_point
      "VanDerPol"
      "ExplicitEuler"
      (settings entries)
    ≡ ok (Requests.streamed ("{\"status\":\"success\",\"results\":" ∷ "[{},{}]}" ∷ []))
unfolding Requests.run_thread Requests.solve_request find Tasks.Load.load_parameters
    Tasks.Load.load_items Params.extract_initial_conditions Params.indexed_conditions Tasks.assign
    read_index Params.scan_index Params.stoi sort_conditions odeclient_server.Tests.Sort.insert
    Tasks.get_task Requests.solve_by Requests.solve_euler Euler.solve Euler.round
    odeclient_server.Base.Loop.loop Euler.step Euler.local_error ode_function Tasks.call
    Tasks.van_der_pol_rhs Tasks.fetch Storage.add Stream.write_response Stream.flush_buffer
    Stream.write_rows Vectors.add_vectors Vectors.multiply_scalar_by_vector
run_thread_runs = refl
