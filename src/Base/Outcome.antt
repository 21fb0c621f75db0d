-- ===== src/Base/Outcome.antt =====
-- What a call of the C++ code comes to: a value, an exception, or no end within the fuel.
use odeclient_server.Base.Lists.{◌≡◌, refl, String}

-- The exceptions by their class and message. `undefined` is undefined behaviour, such as a read
-- by `operator[]` past the end of a vector.
pub data Error : Type 0 where
  runtime_error invalid_argument out_of_range type_error : String → Error
  undefined : Error

pub data Outcome {ℓ} (A : Type ℓ) : Type ℓ where
  ok : A → Outcome A
  throw : Error → Outcome A
  out_of_fuel : Outcome A

infixl 5 ◌>>=◌
abbrev pub ◌>>=◌ {ℓ κ} : {A : Type ℓ} {B : Type κ} → Outcome A → (A → Outcome B) → Outcome B
ok a >>= f = f a
throw e >>= f = throw e
out_of_fuel >>= f = out_of_fuel

pub bind_assoc {ℓ κ μ} :
    {A : Type ℓ} {B : Type κ} {C : Type μ} (r : Outcome A) (f : A → Outcome B) (g : B → Outcome C)
    → (r >>= f >>= g) ≡ (r >>= λ a. f a >>= g)
bind_assoc (ok a) f g = refl
bind_assoc (throw e) f g = refl
bind_assoc out_of_fuel f g = refl

-- `P` holds of the value and `E` of the exception; nothing is said where the fuel ran out.
pub data Post {ℓ κ} {A : Type ℓ} (P : A → Type κ) (E : Error → Type 0)
    : Outcome A → Type (ℓ ⊔ κ) where
  returns : {a : A} → P a → Post P E (ok a)
  throws : {e : Error} → E e → Post P E (throw e)
  spins : Post P E out_of_fuel

-- The code throws nothing.
abbrev pub Never : Error → Type 0
Never e = ⊥

module _ {ℓ κ} {A : Type ℓ} {P : A → Type κ} {E : Error → Type 0} where
  pub Post-bind {μ ν} :
      {B : Type μ} {Q : B → Type ν} {r : Outcome A} {f : A → Outcome B}
      → Post P E r
      → ((a : A) → P a → Post Q E (f a))
      → Post Q E (r >>= f)
  Post-bind (returns h) k = k _ h
  Post-bind (throws h) k = throws h
  Post-bind spins k = spins

  pub Post-ok : {a : A} → Post P E (ok a) → P a
  Post-ok (returns h) = h

  pub Post-throw : {e : Error} → Post P E (throw e) → E e
  Post-throw (throws h) = h

  -- To keep the equation beside what holds of the value.
  pub Post-eq : {r : Outcome A} → Post P E r → Post (λ a. (r ≡ ok a) × P a) E r
  Post-eq (returns h) = returns (refl, h)
  Post-eq (throws h) = throws h
  Post-eq spins = spins

  pub Post-map {μ} :
      {Q : A → Type μ} {r : Outcome A} → ((a : A) → P a → Q a) → Post P E r → Post Q E r
  Post-map k (returns h) = returns (k _ h)
  Post-map k (throws h) = throws h
  Post-map k spins = spins

-- The call returns a value, of which `P` holds.
pub data Yields {ℓ κ} {A : Type ℓ} (P : A → Type κ) : Outcome A → Type (ℓ ⊔ κ) where
  yields : {a : A} → P a → Yields P (ok a)

module _ {ℓ κ} {A : Type ℓ} {P : A → Type κ} where
  pub Yields-bind {μ ν} :
      {B : Type μ} {Q : B → Type ν} {r : Outcome A} {f : A → Outcome B}
      → Yields P r
      → ((a : A) → P a → Yields Q (f a))
      → Yields Q (r >>= f)
  Yields-bind (yields h) k = k _ h

  pub Yields-ok : {a : A} → Yields P (ok a) → P a
  Yields-ok (yields h) = h

  pub Yields-value : {r : Outcome A} → Yields P r → (a : A) × (r ≡ ok a) × P a
  Yields-value (yields h) = (_, refl, h)

  pub Yields-map {μ} :
      {Q : A → Type μ} {r : Outcome A} → ((a : A) → P a → Q a) → Yields P r → Yields Q r
  Yields-map k (yields h) = yields (k _ h)

  -- A call that returns, followed by one that may throw or not return.
  pub Post-after {μ ν} :
      {B : Type μ} {Q : B → Type ν} {E : Error → Type 0} {r : Outcome A} {f : A → Outcome B}
      → Yields P r
      → ((a : A) → P a → Post Q E (f a))
      → Post Q E (r >>= f)
  Post-after (yields h) k = k _ h

  pub Yields-Post : {E : Error → Type 0} {r : Outcome A} → Yields P r → Post P E r
  Yields-Post (yields h) = returns h
