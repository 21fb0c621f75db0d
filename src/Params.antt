-- ===== src/Params.antt =====
-- Server/src/ParseUtils.cpp: the initial point among the parameters of a request. `sort` stands for
-- `std::sort` by the index, which does not say in what order equal indices come.
pub mod Key
pub mod Order
pub mod Conditions
pub mod Result
use Prim.Native.Char.{Char, code}
use Prim.Native.Nat.{◌+◌, ◌-◌, ◌*◌, ◌^◌}
use text.Mathlib.Text.{◌==◌ as same_text}
use odeclient_server.Base.Lists.{
  ℕ, String, List, [], ◌∷◌, map, Option, none, some, Bool, true, false, ◌&&◌, not, ltb, ◌==◌,
  if◌then◌else◌,
}
use odeclient_server.Base.Outcome.{Outcome, ok, throw, runtime_error, out_of_range, ◌>>=◌}
use odeclient_server.Tasks.{Parameters}

-- `\d`.
abbrev pub is_digit : ℕ → Bool
is_digit c = not (ltb c b'0') && not (ltb b'9' c)

-- The key from its digits on, with the number that they spell; `seen` says that there was one.
unfoldable pub scan_index : Bool → String → ℕ → Option ℕ
scan_index seen String.[] n = none
scan_index seen (String.◌∷◌ c s) n =
    if is_digit (code c)
    then scan_index true s (n * 10 + (code c - b'0'))
    else if seen && (same_text (String.◌∷◌ c s) "_init")
    then some n
    else none

-- `std::regex_match(key, match, regex)` with `^y(\d+)_init$`, and the number that the group spells.
unfoldable pub read_index : String → Option ℕ
unfolding scan_index
read_index String.[] = none
read_index (String.◌∷◌ c s) = if code c == b'y' then scan_index false s 0 else none

-- `std::stoi` of digits that spell `n`, with the message of libstdc++.
unfoldable pub stoi : ℕ → Outcome ℕ
stoi n = if ltb n (2 ^ 31) then ok n else throw (out_of_range "stoi")

module _ {ℓ} {W : Type ℓ} where
  -- `indexedConditions`.
  unfoldable pub indexed_conditions : Parameters W → Outcome (List (ℕ × W))
  indexed_conditions [] = ok []
  indexed_conditions ((key, value) ∷ params) =
      let rest = indexed_conditions params in
      elim (read_index key) [
        | none ↦ rest
        | some n ↦ stoi n >>= λ index. rest >>= λ conditions. ok ((index, value) ∷ conditions)
      ]

  abbrev pub nonempty : List W → Outcome (List W)
  nonempty [] = throw (runtime_error "No initial conditions found in parameters.")
  nonempty (y ∷ ys) = ok (y ∷ ys)

  -- `ExtractInitialConditions`.
  unfoldable pub extract_initial_conditions :
      (List (ℕ × W) → List (ℕ × W)) → Parameters W → Outcome (List W)
  extract_initial_conditions sort params = do
    conditions ← indexed_conditions params
    nonempty (map (λ c. c.1) (sort conditions))
