-- ===== src/Base/Json.antt =====
-- What the sources use of nlohmann::json, as an interface: `at` is `operator[]` on a const object,
-- `entry` that on one that is not const (it inserts null for a key that is not there), `get_double`,
-- `get_int` and `get_string` are the instances of `get`.
use odeclient_server.Base.Lists.{String, List, Bool}
use odeclient_server.Base.Outcome.{Outcome}
use odeclient_server.Base.Int.{ℤ}

pub record Json {ℓ} (W : Type ℓ) : Type (ℓ ⊔ 1) where
  pub Value : Type 0
  pub parse : String → Outcome Value
  pub at : Value → String → Outcome Value
  pub entry : Value → String → Outcome Value
  pub contains : Value → String → Bool
  pub items : Value → List (String × Value)
  pub get_double : Value → Outcome W
  pub get_int : Value → Outcome ℤ
  pub get_string : Value → Outcome String
