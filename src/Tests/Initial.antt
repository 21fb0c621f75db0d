-- ===== src/Tests/Initial.antt =====
-- The initial point and the parameters of the request of Tests/Sample.
use mathlib.Core.List.Permᴰ
use mathlib.Core.Path.{subst}
use odeclient_server.Params.Order.{IsDistinct}
use Prim.Native.String.{◌++◌ as joined}
use Prim.Native.Nat.{◌^◌}
use odeclient_server.Base.Lists.{◌<◌, ◌≢◌, ◌≡◌, String, [], ◌∷◌, ◌++◌, some, arith}
use odeclient_server.Base.Outcome.{ok}
use odeclient_server.Base.Milli.{milli_double}
use odeclient_server.Tasks
use odeclient_server.Tasks.{Parameters, find, van_der_pol, ode_function}
use odeclient_server.Tasks.Load.{IsKeyed, reads, reads_nil}
use odeclient_server.Params
use odeclient_server.Params.{read_index}
use odeclient_server.Tests.Sort.{sort_conditions, sort_conditions-IsSort}
use odeclient_server.Tests.Sample.{
  others, entries, start, settings, json, entries-Reads, entries-IsKeyed, others_unnamed,
  start_values,
}

extract-named_example : Params.extract_initial_conditions sort_conditions entries ≡ ok start
extract-named_example =
    Params.Result.extract-named sort_conditions start others entries sort_conditions-IsSort
      (λ e. absurd cc) (ground arith) others_unnamed start_values

entries-HasDistinctIndices : Params.Result.HasDistinctIndices entries
unfolding Params.indexed_conditions Params.stoi read_index
entries-HasDistinctIndices xs e =
    let conditions : (1, some 1000) ∷ (0, some 2000) ∷ [] ≡ xs = cc in
    subst IsDistinct conditions (((λ h. absurd (omega arith)), tt), (tt, tt))

extract-perm_example :
    Params.extract_initial_conditions sort_conditions entries
    ≡ Params.extract_initial_conditions sort_conditions (Params.Result.named 0 start ++ others)
extract-perm_example =
    Params.Result.extract-perm sort_conditions sort_conditions sort_conditions-IsSort
      sort_conditions-IsSort (Permᴰ.symm start_values) entries-HasDistinctIndices

read_index-key_of_example :
    (read_index (Params.Key.key_of 12) ≡ some 12) × (12 < 2 ^ 31 → Params.stoi 12 ≡ ok 12)
read_index-key_of_example = Params.Key.read_index-key_of 12

read_index_sound_example :
    (digits : String) × ("y12_init" ≡ joined "y" (joined digits "_init"))
    × Params.Key.IsDigits digits
    × (digits ≢ "")
    × (12 ≡ Params.Key.value digits 0)
unfolding Params.Key.key_of Params.Key.decimal read_index
read_index_sound_example =
    Params.Key.read_index_sound "y12_init" 12 (Params.Key.read_index-key_of 12).0

load_parameters-Reads_example : Tasks.Load.load_parameters json (settings entries) [] ≡ ok entries
load_parameters-Reads_example =
    Tasks.Load.load_parameters-Reads json (settings entries) entries entries-Reads entries-IsKeyed
