-- ===== src/Requests/Failures.antt =====
-- Routers.cpp, POST /solve: the requests that get an error.
use Prim.Native.String.{◌++◌ as joined}
use text.Mathlib.Text.{◌==◌}
use odeclient_server.Base.Lists.{ℕ, zero, ◌≡◌, String, List, Bool, All, none, false, if◌then◌else◌}
use odeclient_server.Base.Outcome.{Outcome, Error, ok, throw}
use odeclient_server.Base.Json.{Json}
use odeclient_server.Base.Double.{Double}
use odeclient_server.Dispd.{SchemeParams}
use odeclient_server.Tasks.{Parameters, get_task}
use odeclient_server.Params.{read_index, extract_initial_conditions}
use odeclient_server.Params.Result.{IsSort, extract_without}
use odeclient_server.Requests.{
  Answer, internal_server_error, silent, bad_request, unfinished, what, run_thread,
}
use odeclient_server.Requests.Answers.{IsRead, solve_request_of_read}

module _ {ℓ} {W : Type ℓ} ⦃d : Double W⦄ (json : Json W) (rounds fuel : ℕ)
    (sort : List (ℕ × W) → List (ℕ × W)) (scheme : SchemeParams W) (connected : ℕ → Bool)
    (dump : W → List W → String) where
  -- Where the parameters are numbers with each key once and the three that each method reads, and
  -- none is read as an initial value, a client that is connected gets 500 and the error that says so,
  -- whatever the task and the method; one that is not gets nothing. `std::sort` sorts.
  pub run_thread_without_values :
      (task_name method : String) (parameters : json.Value) {t0 t_end tolerance : W}
      {entries : Parameters W}
      → IsSort sort
      → IsRead json parameters t0 t_end tolerance entries
      → All (λ o. read_index o.0 ≡ none) entries
      → run_thread json rounds fuel sort scheme connected dump task_name method parameters
        ≡ ok (
            if connected zero
            then internal_server_error "Error: No initial conditions found in parameters."
            else silent)
  unfolding run_thread
  run_thread_without_values task_name method parameters {entries} is_sort read a = rw (
    solve_request_of_read json rounds fuel sort scheme task_name method parameters read,
    extract_without sort entries is_sort a,
  )

  -- Where such parameters have an initial point and the task is none of the three, a client that is
  -- connected gets 500 and the error that names the task, whatever the method; one that is not gets
  -- nothing.
  pub run_thread_without_task :
      (task_name method : String) (parameters : json.Value) {t0 t_end tolerance : W} (y0 : List W)
      {entries : Parameters W}
      → IsRead json parameters t0 t_end tolerance entries
      → extract_initial_conditions sort entries ≡ ok y0
      → (task_name == "VanDerPol") ≡ false
      → (task_name == "ForcedOscillator") ≡ false
      → (task_name == "RobertsonSystem") ≡ false
      → run_thread json rounds fuel sort scheme connected dump task_name method parameters
        ≡ ok (
            if connected zero
            then internal_server_error (joined "Error: " (joined "Task not found: " task_name))
            else silent)
  unfolding run_thread get_task
  run_thread_without_task task_name method parameters y0 read e n1 n2 n3 = rw (
    solve_request_of_read json rounds fuel sort scheme task_name method parameters read,
    e,
    n1,
    n2,
    n3,
  )

-- A value, or a `std::exception`.
pub data Settled {κ} {A : Type κ} : Outcome A → Type κ where
  value : (a : A) → Settled (ok a)
  exception : {e : Error} {message : String} → what e ≡ ok message → Settled (throw e)

module _ {ℓ} {W : Type ℓ} ⦃d : Double W⦄ (json : Json W) (rounds fuel : ℕ)
    (sort : List (ℕ × W) → List (ℕ × W)) (scheme : SchemeParams W) (connected : ℕ → Bool)
    (dump : W → List W → String) (request : String) where
  -- The exception comes from parsing, access or conversion.
  pub data Raises (e : Error) : Type 0 where
    in_parse : json.parse request ≡ throw e → Raises e
    in_entry : {value : json.Value} {key : String} → json.entry value key ≡ throw e → Raises e
    in_string : {value : json.Value} → json.get_string value ≡ throw e → Raises e

  -- What the handler returns: "unfinished", with the thread for what the body has under its three
  -- keys, or 400 with the message of an exception.
  pub data Returns : Outcome Answer → Type 0 where
    starts :
        {body equation method_entry parameters : json.Value} {task_name method : String}
        → json.parse request ≡ ok body
        → json.entry body "Equation" ≡ ok equation
        → json.get_string equation ≡ ok task_name
        → json.entry body "Method" ≡ ok method_entry
        → json.get_string method_entry ≡ ok method
        → json.entry body "Parameters" ≡ ok parameters
        → Returns (
            ok (
              unfinished (
                run_thread json rounds fuel sort scheme connected dump task_name method
                  parameters)))
    refuses :
        {e : Error} {message : String}
        → Raises e
        → what e ≡ ok message
        → Returns (ok (bad_request (joined "Error: " message)))

  abbrev handler : String → Answer
  handler message = bad_request (joined "Error: " message)
