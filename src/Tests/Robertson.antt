-- ===== src/Tests/Robertson.antt =====
-- A request to /solve for Robertson's problem, in the integers modulo 7.
use mathlib.Core.List.Permᴰ
use odeclient_server.Base.Lists.{
  ◌≡◌, refl, String, Option, none, some, List, [], ◌∷◌, ◌++◌, map, All, HasSize, false,
}
use odeclient_server.Base.Outcome.{returns, Outcome, ok, throw, undefined, type_error, Post, yields}
use odeclient_server.Base.Loop.{loop}
use odeclient_server.Base.Int.{ℤ, pos}
use odeclient_server.Base.Json.{Json}
use odeclient_server.Base.Double.{IsIrreflexive}
use odeclient_server.Base.Mod7.{Mod7, r0, r1, r2, r3, r4, r5, r6, mod7_double}
use odeclient_server.Base.Mod7.Ring.{mod7-RingLaws}
use odeclient_server.Storage
use odeclient_server.Storage.{Row}
use odeclient_server.Vectors
use odeclient_server.Euler
use odeclient_server.Dispd.{SchemeParams}
use odeclient_server.Tasks
use odeclient_server.Tasks.{Parameters, find, robertson_system, ode_function}
use odeclient_server.Tasks.Laws.{ode_function-IsSystem}
use odeclient_server.Tasks.Load.{IsKeyed, reads, reads_nil}
use odeclient_server.Params
use odeclient_server.Params.{read_index}
use odeclient_server.Invariants.Linear.{total, total-IsInvariant, robertson-total}
use odeclient_server.Requests
use odeclient_server.Requests.Robertson
use odeclient_server.Requests.Rest
use odeclient_server.Invariants.Rest.{ZeroLaws, IsEquilibrium}
use odeclient_server.Base.Ring.{times_zero}
use mathlib.Core.Path.{◌∙◌}
use odeclient_server.Requests.Invariants
use odeclient_server.Requests.Solves.{HasSettings, Comparisons, Refuses}
use odeclient_server.Requests.Answers.{IsRead, IsWellFormed}
use odeclient_server.Tests.Sort.{sort_conditions, sort_conditions-IsSort}

-- The rates, the initial values and the settings of DISPF: a variable order and the stability
-- control.
abbrev others : Parameters Mod7
others =
    ("t0", r0)
    ∷ ("t1", r6)
    ∷ ("tolerance", r6)
    ∷ ("k1", r1)
    ∷ ("k2", r2)
    ∷ ("k3", r3)
    ∷ ("I", r0)
    ∷ ("J", r0)
    ∷ ("K", r0)
    ∷ []

abbrev entries : Parameters Mod7
entries = ("y1_init", r2) ∷ ("y0_init", r1) ∷ ("y2_init", r3) ∷ others

data Value : Type 0 where
  settings : Value
  number : Mod7 → Value

abbrev item : Option Mod7 → Outcome Value
item none = throw undefined
item (some x) = ok (number x)

abbrev at : Value → String → Outcome Value
at settings key = item (find key entries)
at _ key = throw (type_error "not an object")

abbrev items : Value → List (String × Value)
items settings = map (λ (k, v). (k, number v)) entries
items _ = []

abbrev get_double : Value → Outcome Mod7
get_double (number x) = ok x
get_double _ = throw (type_error "not a number")

abbrev get_int : Value → Outcome ℤ
get_int (number r0) = ok (pos 0)
get_int _ = throw (type_error "not an integer")

abbrev json : Json Mod7
json = record {
  Value = Value;
  parse = λ s. ok settings;
  at = at;
  entry = λ v key. ok settings;
  contains = λ v key. false;
  items = items;
  get_double = get_double;
  get_int = get_int;
  get_string = λ v. throw (type_error "not a string");
}

abbrev start : List Mod7
start = r1 ∷ r2 ∷ r3 ∷ []

start-HasSize : HasSize 3 start
start-HasSize = record { sized = refl }

abbrev scheme : SchemeParams Mod7
scheme = record { p1 = r1; p2 = r2; p3 = r3; g = r4 }

pub mod7-IsIrreflexive : IsIrreflexive Mod7
mod7-IsIrreflexive r0 = refl
mod7-IsIrreflexive r1 = refl
mod7-IsIrreflexive r2 = refl
mod7-IsIrreflexive r3 = refl
mod7-IsIrreflexive r4 = refl
mod7-IsIrreflexive r5 = refl
mod7-IsIrreflexive r6 = refl

mod7-Comparisons : Comparisons Mod7
mod7-Comparisons = record {
  irreflexive = mod7-IsIrreflexive;
  steks_scales = refl;
  dispd_scales = refl;
}

has_settings : HasSettings json settings "DISPF"
unfolding find
has_settings = record {
  flags = λ e. absurd cc;
  settings = λ e. (yields tt, (yields tt, (yields tt, tt)));
}

entries-IsKeyed : IsKeyed entries
entries-IsKeyed = (
  (refl, (refl, (refl, (refl, (refl, (refl, (refl, (refl, (refl, (refl, (refl, tt))))))))))),
  (
    (refl, (refl, (refl, (refl, (refl, (refl, (refl, (refl, (refl, (refl, tt)))))))))),
    (
      (refl, (refl, (refl, (refl, (refl, (refl, (refl, (refl, (refl, tt))))))))),
      (
        (refl, (refl, (refl, (refl, (refl, (refl, (refl, (refl, tt)))))))),
        (
          (refl, (refl, (refl, (refl, (refl, (refl, (refl, tt))))))),
          (
            (refl, (refl, (refl, (refl, (refl, (refl, tt)))))),
            (
              (refl, (refl, (refl, (refl, (refl, tt))))),
              (
                (refl, (refl, (refl, (refl, tt)))),
                ((refl, (refl, (refl, tt))), ((refl, (refl, tt)), ((refl, tt), (tt, tt)))),
              ),
            ),
          ),
        ),
      ),
    ),
  ),
)

entries-IsRead : IsRead json settings r0 r6 r6 entries
unfolding find
entries-IsRead = record {
  from = refl;
  to = refl;
  within = refl;
  reads = reads refl (
      reads refl (
        reads refl (
          reads refl (
            reads refl (
              reads refl (
                reads refl
                  (reads refl (reads refl (reads refl (reads refl (reads refl reads_nil)))))))))));
  keyed = entries-IsKeyed;
}

others_unnamed : All (λ o. read_index o.0 ≡ none) others
unfolding read_index
others_unnamed = (refl, (refl, (refl, (refl, (refl, (refl, (refl, (refl, (refl, tt)))))))))

start_values : Permᴰ.Permᴰ (Params.Result.named 0 start ++ others) entries
unfolding Params.Key.key_of Params.Key.decimal
start_values = Permᴰ.swap refl refl

entries-IsWellFormed :
    IsWellFormed json robertson_system "RobertsonSystem" "DISPF" settings r0 start r6 r6 entries
unfolding Tasks.get_task
entries-IsWellFormed = record {
  read = entries-IsRead;
  found = refl;
  others = others;
  unnamed = others_unnamed;
  values = start_values;
  size = start-HasSize;
  settings = has_settings;
}

robertson-conserves_example :
    Post
      (λ storage. All (λ (row : Row Mod7). total row.1 ≡ total start) storage)
      (Refuses "DISPF")
      (Requests.solve_request json 3 3 sort_conditions scheme "RobertsonSystem" "DISPF" settings)
robertson-conserves_example =
    Requests.Robertson.robertson-conserves json 3 3 sort_conditions scheme sort_conditions-IsSort
      mod7-Comparisons mod7-RingLaws "RobertsonSystem" "DISPF" settings entries-IsWellFormed

solve_by-stays_example :
    Post
      (λ storage. All (λ (row : Row Mod7). total row.1 ≡ total start) storage)
      (Refuses "DISPF")
      (Requests.solve_by json 3 3 scheme
        (ode_function robertson_system entries)
        settings
        r0
        start
        r6
        r6
        "DISPF")
solve_by-stays_example =
    Requests.Invariants.solve_by-stays json settings 3 3 scheme
      (ode_function robertson_system entries) 3 mod7-Comparisons
      (ode_function-IsSystem robertson_system entries) r0 start r6 r6 start-HasSize
      (total-IsInvariant mod7-RingLaws (ode_function robertson_system entries)
        (robertson-total mod7-RingLaws entries) (total start))
      refl "DISPF" has_settings

-- Euler's method stores a second point, of the same sum.
robertson_runs :
    Requests.solve_by json 3 3 scheme
      (ode_function robertson_system entries)
      settings
      r0
      start
      r6
      r6
      "ExplicitEuler"
    ≡ ok ((r0, start) ∷ (r0, r4 ∷ r4 ∷ r5 ∷ []) ∷ [])
unfolding Requests.solve_by Requests.solve_euler Tasks.ode_function Tasks.find Tasks.fetch loop
    Storage.add Euler.solve Euler.step Euler.local_error Vectors.add_vectors
    Vectors.multiply_scalar_by_vector
robertson_runs = refl

mod7-ZeroLaws : ZeroLaws Mod7
mod7-ZeroLaws = record {
  plus_zero = mod7-RingLaws.plus_zero;
  times_zero = times_zero mod7-RingLaws;
  zero_times = λ a. mod7-RingLaws.times_comm r0 a ∙ times_zero mod7-RingLaws a;
}

-- All of the mass in the last substance.
abbrev spent : List Mod7
spent = r0 ∷ r0 ∷ r5 ∷ []

spent-IsEquilibrium : IsEquilibrium (ode_function robertson_system entries) spent
unfolding Tasks.ode_function Tasks.find Tasks.fetch
spent-IsEquilibrium t = returns (refl, (refl, (refl, tt)))

solve_by-rests_example :
    Post
      (λ storage. All (λ (row : Row Mod7). row.1 ≡ spent) storage)
      (Refuses "DISPF")
      (Requests.solve_by json 3 3 scheme
        (ode_function robertson_system entries)
        settings
        r0
        spent
        r6
        r6
        "DISPF")
solve_by-rests_example =
    Requests.Rest.solve_by-rests json settings 3 3 scheme (ode_function robertson_system entries) 3
      mod7-Comparisons mod7-ZeroLaws (ode_function-IsSystem robertson_system entries) r0 spent r6 r6
      (record { sized = refl }) spent-IsEquilibrium "DISPF" has_settings
