-- ===== src/Tasks/Load.antt =====
-- TaskManager::LoadParameters, and what the parameters hold after it.
use text.Mathlib.Text.{◌==◌}
use text.Mathlib.TextEquality.{eq_iff}
use odeclient_server.Base.Lists.{
  String, List, [], ◌∷◌, ◌++◌, All, All-append, ◌≡◌, refl, false, arith, append_assoc, append-nil,
}
use odeclient_server.Base.Outcome.{Outcome, ok, ◌>>=◌}
use odeclient_server.Base.Json.{Json}
use odeclient_server.Tasks.{Parameters, assign}

module _ {ℓ} {W : Type ℓ} (json : Json W) where
  -- `for (auto& [key, value] : params.items())`.
  unfoldable pub load_items : List (String × json.Value) → Parameters W → Outcome (Parameters W)
  load_items [] params = ok params
  load_items ((key, value) ∷ items) params =
      json.get_double value >>= λ v. load_items items (assign key v params)

  -- `TaskManager::LoadParameters`.
  unfoldable pub load_parameters : json.Value → Parameters W → Outcome (Parameters W)
  unfolding load_items
  load_parameters params = load_items (json.items params)

  -- The items read as numbers.
  pub data Reads : List (String × json.Value) → Parameters W → Type ℓ where
    reads_nil : Reads [] []
    reads :
        {key : String} {value : json.Value} {v : W} {items : List (String × json.Value)}
        {entries : Parameters W}
        → json.get_double value ≡ ok v
        → Reads items entries
        → Reads ((key, value) ∷ items) ((key, v) ∷ entries)

-- A key is none of the others.
abbrev pub IsFresh {ℓ} : {W : Type ℓ} → String → Parameters W → Type 0
IsFresh key entries = All (λ entry. (entry.0 == key) ≡ false) entries

-- Each key is there once, as in an object.
abbrev pub IsKeyed {ℓ} : {W : Type ℓ} → Parameters W → Type 0
IsKeyed [] = Unit
IsKeyed ((key, v) ∷ entries) = IsFresh key entries × IsKeyed entries

module _ {ℓ} {W : Type ℓ} where
  assign-IsFresh :
      (key : String) (v : W) (params : Parameters W)
      → IsFresh key params
      → assign key v params ≡ params ++ ((key, v) ∷ [])
  unfolding assign
  assign-IsFresh key v [] fresh = refl
  assign-IsFresh key v ((k, w) ∷ params) (ne, fresh) =
      rw (assign, ne, assign-IsFresh key v params fresh)

  -- None of the second is among the first.
  abbrev AreFresh : Parameters W → Parameters W → Type 0
  AreFresh params entries = All (λ entry. IsFresh entry.0 params) entries

  AreFresh-add :
      (key : String) (v : W) (params entries : Parameters W)
      → AreFresh params entries
      → IsFresh key entries
      → AreFresh (params ++ ((key, v) ∷ [])) entries
  AreFresh-add key v params [] all fresh = tt
  AreFresh-add key v params ((k, w) ∷ entries) (h, all) (ne, fresh) = (
    All-append (λ entry. (entry.0 == k) ≡ false) params ((key, v) ∷ []) h
        (ground (arith, ne, eq_iff k key, eq_iff key k), tt),
    AreFresh-add key v params entries all fresh,
  )

module _ {ℓ} {W : Type ℓ} (json : Json W) where
  load_items-Reads :
      (items : List (String × json.Value)) (entries params : Parameters W)
      → Reads json items entries
      → IsKeyed entries
      → AreFresh params entries
      → load_items json items params ≡ ok (params ++ entries)
  unfolding load_items
  load_items-Reads [] _ params reads_nil keyed fresh = rw append-nil
  load_items-Reads ((key, value) ∷ items) _ params (reads {v} {entries} e r) (k, keyed) (h, fresh) =
      rw (
        load_items,
        e,
        assign-IsFresh key v params h,
        load_items-Reads items entries (params ++ ((key, v) ∷ [])) r keyed
            (AreFresh-add key v params entries fresh k),
        append_assoc,
      )

  AreFresh-nil : (entries : Parameters W) → AreFresh [] entries
  AreFresh-nil [] = tt
  AreFresh-nil (entry ∷ entries) = (tt, AreFresh-nil entries)

  -- Where the items read as numbers and each key is there once, the parameters are the items.
  pub load_parameters-Reads :
      (parameters : json.Value) (entries : Parameters W)
      → Reads json (json.items parameters) entries
      → IsKeyed entries
      → load_parameters json parameters [] ≡ ok entries
  unfolding load_parameters
  load_parameters-Reads parameters entries r keyed =
      load_items-Reads (json.items parameters) entries [] r keyed (AreFresh-nil entries)
