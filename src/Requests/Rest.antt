-- ===== src/Requests/Rest.antt =====
-- Routers.cpp, POST /solve: the methods at an equilibrium.
use odeclient_server.Base.Lists.{ℕ, ◌≡◌, refl, String, List, All, HasSize}
use odeclient_server.Base.Outcome.{Post}
use odeclient_server.Base.Json.{Json}
use odeclient_server.Base.Double.{Double}
use odeclient_server.Storage.{Row}
use odeclient_server.Solver.{OdeFunction, IsSystem}
use odeclient_server.Dispd.{SchemeParams}
use odeclient_server.Invariants.Rest.{ZeroLaws, IsEquilibrium, rest-IsInvariant}
use odeclient_server.Requests.{solve_by}
use odeclient_server.Requests.Solves.{Refuses, Comparisons, HasSettings}
use odeclient_server.Requests.Invariants.{solve_by-stays}

-- From a point where the right-hand side is 0 at every time each of the seven methods stores only that
-- point, whatever the tolerance and the settings; it throws nothing but "no DISPS variant enabled",
-- and another method throws "Unknown method". The right-hand side keeps the dimension n, the point
-- has n numbers, the settings that the method reads are integers, x + 0 is x, x * 0 and 0 * x are 0,
-- `<` is irreflexive and 5 is not below 0.2.
pub solve_by-rests {ℓ} :
    {W : Type ℓ} ⦃d : Double W⦄ (json : Json W) (parameters : json.Value) (rounds fuel : ℕ)
    (scheme : SchemeParams W) (f : OdeFunction W) (n : ℕ) (laws : Comparisons W)
    (zero_laws : ZeroLaws W) (system : IsSystem n f) (t0 : W) (y0 : List W) (t_end tolerance : W)
    → HasSize n y0
    → IsEquilibrium f y0
    → (method : String) → HasSettings json parameters method
    → Post
        (λ storage. All (λ (row : Row W). row.1 ≡ y0) storage)
        (Refuses method)
        (solve_by json rounds fuel scheme f parameters t0 y0 t_end tolerance method)
solve_by-rests json parameters rounds fuel scheme f n laws zero_laws system t0 y0 t_end tolerance
      size rest =
    solve_by-stays json parameters rounds fuel scheme f n laws system t0 y0 t_end tolerance size
      (rest-IsInvariant zero_laws f y0 rest) refl
