-- ===== src/Vectors.antt =====
-- Server/src/odesolvers-lib/src/CommonFunctions.cpp: arithmetic of `std::vector<double>`.
pub mod Laws
use odeclient_server.Base.Lists.{ℕ, List, [], ◌∷◌, map, foldl, length, ◌==◌, if◌then◌else◌}
use odeclient_server.Base.Outcome.{Outcome, ok, throw, invalid_argument}
use odeclient_server.Base.Double.{Double, lit, ◌+◌, ◌-◌, ◌*◌, sqrt}

-- `result[i] = op(vec1[i], vec2[i])` for vectors of one size.
abbrev pub zip_with {ℓ} : {A : Type ℓ} → (A → A → A) → List A → List A → List A
zip_with op (a ∷ as') (b ∷ bs) = op a b ∷ zip_with op as' bs
zip_with op _ _ = []

-- The size check that the three functions of two vectors begin with.
pub pointwise {ℓ} : {A : Type ℓ} → (A → A → A) → List A → List A → Outcome (List A)
pointwise op vec1 vec2 =
    if length vec1 == length vec2
    then ok (zip_with op vec1 vec2)
    else throw (invalid_argument "Vectors must be of the same size")

module _ {ℓ} {W : Type ℓ} ⦃d : Double W⦄ where
  unfoldable pub multiply_scalar_by_vector : W → List W → List W
  multiply_scalar_by_vector scalar vec = map (λ x. scalar * x) vec

  unfoldable pub multiply_vector_by_vector : List W → List W → Outcome (List W)
  unfolding pointwise
  multiply_vector_by_vector vec1 vec2 = pointwise (λ x y. x * y) vec1 vec2

  unfoldable pub add_vectors : List W → List W → Outcome (List W)
  unfolding pointwise
  add_vectors vec1 vec2 = pointwise (λ x y. x + y) vec1 vec2

  unfoldable pub subtract_vectors : List W → List W → Outcome (List W)
  unfolding pointwise
  subtract_vectors vec1 vec2 = pointwise (λ x y. x - y) vec1 vec2

  unfoldable pub norm : List W → W
  norm vec = sqrt (foldl (λ sum val. sum + val * val) (lit 0 0) vec)
