-- ===== src/Requests/Robertson.antt =====
-- Routers.cpp, POST /solve with the task "RobertsonSystem": the sum of the three substances.
use odeclient_server.Base.Lists.{◌≡◌, refl, ℕ, String, List, All}
use odeclient_server.Base.Outcome.{Post}
use odeclient_server.Base.Json.{Json}
use odeclient_server.Base.Double.{Double}
use odeclient_server.Base.Ring.{RingLaws}
use odeclient_server.Storage.{Row}
use odeclient_server.Dispd.{SchemeParams}
use odeclient_server.Tasks.{Parameters, robertson_system, ode_function}
use odeclient_server.Tasks.Laws.{ode_function-IsSystem}
use odeclient_server.Params.Result.{IsSort}
use odeclient_server.Invariants.Linear.{total, total-IsInvariant, robertson-total}
use odeclient_server.Requests.{solve_request}
use odeclient_server.Requests.Solves.{Refuses, Comparisons}
use odeclient_server.Requests.Answers.{IsWellFormed, solve_request_of_well}
use odeclient_server.Requests.Invariants.{solve_by-stays}

module _ {ℓ} {W : Type ℓ} ⦃d : Double W⦄ (json : Json W) (rounds fuel : ℕ)
    (sort : List (ℕ × W) → List (ℕ × W)) (scheme : SchemeParams W) (is_sort : IsSort sort)
    (laws : Comparisons W) (ring : RingLaws W) where
  -- In exact arithmetic the three rates of RobertsonSystem sum to 0, and so each of the seven methods
  -- keeps the sum of the three components: for a well-formed request of that task, with any settings,
  -- parameters and tolerance, every point that the storage comes to hold has the sum of the initial
  -- point. The request fails only by "no DISPS variant enabled", or by "Unknown method" where the
  -- method is another. Exact arithmetic is that + and * meet the laws of a commutative ring;
  -- `std::sort` sorts, `<` is irreflexive and 5 is not below 0.2.
  pub robertson-conserves :
      (task_name method : String) (parameters : json.Value) {t0 t_end tolerance : W} {y0 : List W}
      {entries : Parameters W}
      → IsWellFormed json robertson_system task_name method parameters t0 y0 t_end tolerance entries
      → Post
          (λ storage. All (λ (row : Row W). total row.1 ≡ total y0) storage)
          (Refuses method)
          (solve_request json rounds fuel sort scheme task_name method parameters)
  robertson-conserves task_name method parameters {t0} {t_end} {tolerance} {y0} {entries} well =
      rw
        (solve_request_of_well json rounds fuel sort scheme is_sort laws task_name method parameters
          well)
        (solve_by-stays json parameters rounds fuel scheme (ode_function robertson_system entries) 3
          laws (ode_function-IsSystem robertson_system entries) t0 y0 t_end tolerance well.size
          (total-IsInvariant ring _ (robertson-total ring entries) (total y0)) refl method
          well.settings)
