-- ===== src/Requests/Answers.antt =====
-- Routers.cpp, POST /solve: what the thread sends for a request.
use Prim.Native.String.{◌++◌ as joined}
use Prim.Native.Nat.{◌^◌}
use mathlib.Core.List.Permᴰ
use odeclient_server.Base.Lists.{
  ℕ, zero, ◌≡◌, ◌≢◌, ◌≤◌, ap, inl, inr, String, List, [], ◌++◌, All, none, HasSize, Bool,
  Bool-cases, true, false, length, arith,
}
use odeclient_server.Base.Outcome.{
  Outcome, ok, runtime_error, ◌>>=◌, Post, returns, throws, spins, Never,
}
use odeclient_server.Base.Json.{Json}
use odeclient_server.Base.Double.{Double}
use odeclient_server.Storage.{Storage}
use odeclient_server.Solver.Trail.{IsTrajectory}
use odeclient_server.Stream.{write_response}
use odeclient_server.Stream.Text.{
  StaysLost, sent, response_text, write_response-beginning, write_response_whole,
}
use odeclient_server.Dispd.{SchemeParams}
use odeclient_server.Tasks.{
  Parameters, Task, van_der_pol, forced_oscillator, robertson_system, get_task, ode_function,
  dimension,
}
use odeclient_server.Tasks.Laws.{ode_function-dimension}
use odeclient_server.Tasks.Load.{Reads, IsKeyed, load_parameters-Reads}
use odeclient_server.Params.{read_index, extract_initial_conditions}
use odeclient_server.Params.Result.{IsSort, named, extract-named}
use odeclient_server.Requests.{
  Response, streamed, internal_server_error, silent, catch_exception, double_at, solve_by,
  solve_request, report, run_thread,
}
use odeclient_server.Requests.Solves.{
  HasSettings, Refuses, unknown, no_variant, Comparisons, solve_by-IsTrajectory,
}

-- A point of a task has two or three numbers.
fits {ℓ} :
    {W : Type ℓ} (task : Task) (y : List W)
    → HasSize (dimension task) y
    → (y ≢ []) × (length y ≤ 2 ^ 31)
fits van_der_pol y s = (λ e. absurd (omega (arith, s.sized, ap length e)), omega (arith, s.sized))
fits forced_oscillator y s =
    (λ e. absurd (omega (arith, s.sized, ap length e)), omega (arith, s.sized))
fits robertson_system y s =
    (λ e. absurd (omega (arith, s.sized, ap length e)), omega (arith, s.sized))

module _ {ℓ} {W : Type ℓ} ⦃d : Double W⦄ (json : Json W) where
  -- A request whose parameters are numbers, each key once, with the three that each method reads.
  pub record IsRead (parameters : json.Value) (t0 t_end tolerance : W) (entries : Parameters W)
      : Type ℓ where
    pub from : double_at json parameters "t0" ≡ ok t0
    pub to : double_at json parameters "t1" ≡ ok t_end
    pub within : double_at json parameters "tolerance" ≡ ok tolerance
    pub reads : Reads json (json.items parameters) entries
    pub keyed : IsKeyed entries

  -- A request for a task, with an initial value for each of its equations, named in order.
  pub record IsWellFormed (task : Task) (task_name method : String) (parameters : json.Value)
      (t0 : W) (y0 : List W) (t_end tolerance : W) (entries : Parameters W) : Type ℓ where
    pub read : IsRead parameters t0 t_end tolerance entries
    pub found : get_task task_name ≡ ok task
    pub others : Parameters W
    pub unnamed : All (λ o. read_index o.0 ≡ none) others
    pub values : Permᴰ.Permᴰ (named 0 y0 ++ others) entries
    pub size : HasSize (dimension task) y0
    pub settings : HasSettings json parameters method

  module _ (rounds fuel : ℕ) (sort : List (ℕ × W) → List (ℕ × W)) (scheme : SchemeParams W)
      (task_name method : String) (parameters : json.Value) {t0 t_end tolerance : W}
      {entries : Parameters W} (read : IsRead parameters t0 t_end tolerance entries) where
    pub solve_request_of_read :
        solve_request json rounds fuel sort scheme task_name method parameters ≡ (
          extract_initial_conditions sort entries >>= λ y0. get_task task_name >>= λ task.
          solve_by json rounds fuel scheme
            (ode_function task entries)
            parameters
            t0
            y0
            t_end
            tolerance
            method)
    unfolding solve_request
    solve_request_of_read = rw (
      read.from,
      read.to,
      read.within,
      load_parameters-Reads json parameters entries read.reads read.keyed,
    )

  module _ (rounds fuel : ℕ) (sort : List (ℕ × W) → List (ℕ × W)) (scheme : SchemeParams W)
      (is_sort : IsSort sort) (laws : Comparisons W) {task : Task} (task_name method : String)
      (parameters : json.Value) {t0 t_end tolerance : W} {y0 : List W} {entries : Parameters W}
      (well : IsWellFormed task task_name method parameters t0 y0 t_end tolerance entries) where
    -- What the storage of a well-formed request is.
    pub solve_request_of_well :
        solve_request json rounds fuel sort scheme task_name method parameters
        ≡ solve_by json rounds fuel scheme
            (ode_function task entries)
            parameters
            t0
            y0
            t_end
            tolerance
            method
    solve_request_of_well =
        let (ne, le) = fits task y0 well.size in
        rw (
          solve_request_of_read rounds fuel sort scheme task_name method parameters well.read,
          extract-named sort y0 well.others entries is_sort ne le well.unnamed well.values,
          well.found,
        )

    pub solve_request-IsTrajectory :
        Post
          (IsTrajectory (dimension task) t_end (t0, y0))
          (Refuses method)
          (solve_request json rounds fuel sort scheme task_name method parameters)
    solve_request-IsTrajectory = rw solve_request_of_well (
        solve_by-IsTrajectory json parameters rounds fuel scheme (ode_function task entries)
          (dimension task) laws (ode_function-dimension task entries).0 t0 y0 t_end tolerance
          well.size method well.settings)

    module _ (connected : ℕ → Bool) (dump : W → List W → String) where
      -- What the client of a well-formed request gets: a beginning of the text of the points, the
      -- whole text if it stays, or the error of the dispatch.
      pub data Sends : Response → Type ℓ where
        points :
            {bodies : List String} (storage : Storage W)
            → IsTrajectory (dimension task) t_end (t0, y0) storage
            → (rest : String) × (joined (sent bodies) rest ≡ response_text dump storage)
            → (((n : ℕ) → connected n ≡ true) → sent bodies ≡ response_text dump storage)
            → Sends (streamed bodies)
        refused :
            {message : String}
            → connected zero ≡ true
            → Refuses method (runtime_error message)
            → Sends (internal_server_error (joined "Error: " message))
        gone : connected zero ≡ false → Sends silent

      report-Sends :
          (message : String)
          → Refuses method (runtime_error message)
          → Sends (report connected message)
      report-Sends message h = elim (Bool-cases (connected zero)) [
        | inl e ↦ rw e (refused e h)
        | inr e ↦ rw e (gone e)
      ]

      caught :
          (lost : StaysLost connected) {r : Outcome (Storage W)}
          → Post (IsTrajectory (dimension task) t_end (t0, y0)) (Refuses method) r
          → Post Sends Never (
              catch_exception
                (report connected)
                (r >>= λ storage. ok (streamed (write_response connected dump storage).bodies)))
      caught lost (returns {a = storage} h) = returns (
          points storage h (write_response-beginning connected dump lost storage)
            λ stays. write_response_whole connected dump stays storage)
      caught lost (throws (unknown u)) = returns (report-Sends _ (unknown u))
      caught lost (throws (no_variant e)) = returns (report-Sends _ (no_variant e))
      caught lost spins = spins

      -- The thread of a well-formed request throws nothing. When it comes to an end, the client, if it
      -- does not come back once it is lost, has got a beginning of the text of a storage that begins
      -- with the initial point, has a number for each equation in each point, and has all points but
      -- the last before "t1"; the whole text if it stays; or the error of the dispatch. `std::sort`
      -- sorts, `<` is irreflexive and 5 is not below 0.2.
      pub run_thread-Sends :
          StaysLost connected
          → Post Sends Never
              (run_thread json rounds fuel sort scheme connected dump task_name method parameters)
      unfolding run_thread
      run_thread-Sends lost = caught lost solve_request-IsTrajectory
