-- ===== src/Tests/Sample.antt =====
-- A request to /solve for the Van der Pol oscillator, with its initial values out of order.
use mathlib.Core.List.Permᴰ
use Prim.Native.Nat.{◌/◌}
use text.Mathlib.Text.{◌==◌}
use odeclient_server.Base.Lists.{
  if◌then◌else◌, ◌≡◌, refl, String, List, [], ◌∷◌, ◌++◌, map, All, Option, none, some, Bool, true,
  false,
}
use odeclient_server.Base.Outcome.{Outcome, ok, throw, undefined, type_error}
use odeclient_server.Base.Int.{ℤ, pos}
use odeclient_server.Base.Json.{Json}
use odeclient_server.Base.Milli.{Milli, milli_double}
use odeclient_server.Dispd.{SchemeParams}
use odeclient_server.Tasks
use odeclient_server.Tasks.{Parameters, find, van_der_pol, ode_function}
use odeclient_server.Tasks.Load.{IsKeyed, reads, reads_nil}
use odeclient_server.Params
use odeclient_server.Params.{read_index}
use odeclient_server.Requests.Solves.{HasSettings, Comparisons}
use odeclient_server.Requests.Answers.{IsRead, IsWellFormed}
use odeclient_server.Tests.Solvers.{milli-IsIrreflexive}

abbrev pub others : Parameters Milli
others =
    ("t0", some 0)
    ∷ ("t1", some 1000)
    ∷ ("tolerance", some 1000)
    ∷ ("mu", some 500)
    ∷ ("p", some 1000)
    ∷ []

abbrev pub entries : Parameters Milli
entries = ("y1_init", some 1000) ∷ ("y0_init", some 2000) ∷ others

abbrev pub start : List Milli
start = some 2000 ∷ some 1000 ∷ []

-- The values of the request.
pub data Value : Type 0 where
  number : Milli → Value
  word : String → Value
  settings : Parameters Milli → Value
  body : Value

abbrev pub item : Option Milli → Outcome Value
item none = throw undefined
item (some x) = ok (number x)

abbrev pub is_there : Option Milli → Bool
is_there none = false
is_there (some x) = true

abbrev pub at : Value → String → Outcome Value
at (settings params) key = item (find key params)
at _ key = throw (type_error "not an object")

abbrev pub entry : Value → String → Outcome Value
entry body key =
    if key == "Equation"
    then ok (word "VanDerPol")
    else if key == "Method"
    then ok (word "ExplicitEuler")
    else ok (settings entries)
entry _ key = throw (type_error "not an object")

abbrev pub contains : Value → String → Bool
contains (settings params) key = is_there (find key params)
contains _ key = false

abbrev pub items : Value → List (String × Value)
items (settings params) = map (λ (k, v). (k, number v)) params
items _ = []

abbrev pub get_double : Value → Outcome Milli
get_double (number x) = ok x
get_double _ = throw (type_error "not a number")

abbrev pub get_int : Value → Outcome ℤ
get_int (number (some x)) = ok (pos (x / 1000))
get_int (number none) = ok (pos 0)
get_int _ = throw (type_error "not a number")

abbrev pub get_string : Value → Outcome String
get_string (word s) = ok s
get_string _ = throw (type_error "not a string")

abbrev pub json : Json Milli
json = record {
  Value = Value;
  parse = λ s. ok body;
  at = at;
  entry = entry;
  contains = contains;
  items = items;
  get_double = get_double;
  get_int = get_int;
  get_string = get_string;
}

abbrev pub scheme : SchemeParams Milli
scheme = record { p1 = some 250; p2 = some 500; p3 = some 250; g = some 150 }

abbrev pub dump_point : Milli → List Milli → String
dump_point t y = "{}"

pub milli-Comparisons : Comparisons Milli
milli-Comparisons = record {
  irreflexive = milli-IsIrreflexive;
  steks_scales = refl;
  dispd_scales = refl;
}

pub entries-HasSettings : HasSettings json (settings entries) "ExplicitEuler"
entries-HasSettings = record { flags = λ e. absurd cc; settings = λ e. absurd cc }

pub entries-Reads : Tasks.Load.Reads json (items (settings entries)) entries
entries-Reads =
    reads refl
      (reads refl (reads refl (reads refl (reads refl (reads refl (reads refl reads_nil))))))

pub entries-IsKeyed : IsKeyed entries
entries-IsKeyed = (
  (refl, (refl, (refl, (refl, (refl, (refl, tt)))))),
  (
    (refl, (refl, (refl, (refl, (refl, tt))))),
    (
      (refl, (refl, (refl, (refl, tt)))),
      ((refl, (refl, (refl, tt))), ((refl, (refl, tt)), ((refl, tt), (tt, tt)))),
    ),
  ),
)

pub entries-IsRead : IsRead json (settings entries) (some 0) (some 1000) (some 1000) entries
unfolding find
entries-IsRead = record {
  from = refl;
  to = refl;
  within = refl;
  reads = entries-Reads;
  keyed = entries-IsKeyed;
}

pub others_unnamed : All (λ o. read_index o.0 ≡ none) others
unfolding read_index
others_unnamed = (refl, (refl, (refl, (refl, (refl, tt)))))

pub start_values : Permᴰ.Permᴰ (Params.Result.named 0 start ++ others) entries
unfolding Params.Key.key_of Params.Key.decimal
start_values = Permᴰ.swap refl refl

pub entries-IsWellFormed :
    IsWellFormed json van_der_pol "VanDerPol" "ExplicitEuler"
      (settings entries)
      (some 0)
      start
      (some 1000)
      (some 1000)
      entries
unfolding Tasks.get_task
entries-IsWellFormed = record {
  read = entries-IsRead;
  found = refl;
  others = others;
  unnamed = others_unnamed;
  values = start_values;
  size = record { sized = refl };
  settings = entries-HasSettings;
}
