-- ===== src/Vectors/Laws.antt =====
-- CommonFunctions.cpp: sizes, exceptions and components.
use odeclient_server.Base.Lists.{
  ℕ, zero, suc, ◌≡◌, ◌≢◌, refl, List, [], ◌∷◌, length, get_elem?, some, arith, length-map, HasSize,
}
use odeclient_server.Base.Outcome.{Outcome, ok, throw, invalid_argument, Yields, yields}
use odeclient_server.Base.Double.{Double, ◌+◌, ◌-◌, ◌*◌}
use odeclient_server.Vectors.{
  zip_with, pointwise, multiply_scalar_by_vector, multiply_vector_by_vector, add_vectors,
  subtract_vectors,
}

module _ {ℓ} {A : Type ℓ} (op : A → A → A) where
  pub length-zip_with :
      (xs ys : List A) → length xs ≡ length ys → length (zip_with op xs ys) ≡ length xs
  length-zip_with [] [] h = refl
  length-zip_with [] (y ∷ ys) h = omega arith
  length-zip_with (x ∷ xs) [] h = omega arith
  length-zip_with (x ∷ xs) (y ∷ ys) h = omega (arith, length-zip_with xs ys (omega arith))

  get_elem?-zip_with :
      (xs ys : List A) (i : ℕ) (x y : A)
      → get_elem? xs i ≡ some x
      → get_elem? ys i ≡ some y
      → get_elem? (zip_with op xs ys) i ≡ some (op x y)
  get_elem?-zip_with [] ys i x y p q = cc
  get_elem?-zip_with (a ∷ xs) [] i x y p q = cc
  get_elem?-zip_with (a ∷ xs) (b ∷ ys) zero x y p q = ground arith
  get_elem?-zip_with (a ∷ xs) (b ∷ ys) (suc i) x y p q = get_elem?-zip_with xs ys i x y p q

  pub pointwise_eq :
      (xs ys : List A) → length xs ≡ length ys → pointwise op xs ys ≡ ok (zip_with op xs ys)
  unfolding pointwise
  pointwise_eq xs ys h = ground arith

  pub pointwise_ne :
      (xs ys : List A)
      → length xs ≢ length ys
      → pointwise op xs ys ≡ throw (invalid_argument "Vectors must be of the same size")
  unfolding pointwise
  pointwise_ne xs ys h = ground arith

  pub pointwise-Yields :
      (n : ℕ) {xs ys : List A}
      → HasSize n xs
      → HasSize n ys
      → Yields (HasSize n) (pointwise op xs ys)
  pointwise-Yields n {xs} {ys} p q =
      rw (pointwise_eq xs ys (omega arith))
        (yields (record { sized = omega (arith, length-zip_with xs ys (omega arith)) }))

module _ {ℓ} {W : Type ℓ} ⦃d : Double W⦄ where
  pub multiply_scalar-HasSize :
      (n : ℕ) (s : W) {xs : List W} → HasSize n xs → HasSize n (multiply_scalar_by_vector s xs)
  unfolding multiply_scalar_by_vector
  multiply_scalar-HasSize n s {xs} h = record { sized = omega (arith, length-map (λ x. s * x) xs) }

  pub add-Yields :
      (n : ℕ) {xs ys : List W}
      → HasSize n xs
      → HasSize n ys
      → Yields (HasSize n) (add_vectors xs ys)
  unfolding add_vectors
  add-Yields n p q = pointwise-Yields (λ x y. x + y) n p q

  pub subtract-Yields :
      (n : ℕ) {xs ys : List W}
      → HasSize n xs
      → HasSize n ys
      → Yields (HasSize n) (subtract_vectors xs ys)
  unfolding subtract_vectors
  subtract-Yields n p q = pointwise-Yields (λ x y. x - y) n p q

  pub subtract-eq :
      (xs ys : List W)
      → length xs ≡ length ys
      → subtract_vectors xs ys ≡ ok (zip_with (λ x y. x - y) xs ys)
  unfolding subtract_vectors
  subtract-eq xs ys h = pointwise_eq (λ x y. x - y) xs ys h

  -- What a function of two vectors promises: the componentwise result where the sizes agree, and
  -- else `std::invalid_argument`.
  abbrev pub IsPointwise : (W → W → W) → (List W → List W → Outcome (List W)) → Type ℓ
  IsPointwise op f =
      (xs ys : List W)
      → (length xs ≡ length ys
          → (zs : List W) × (f xs ys ≡ ok zs)
            × (length zs ≡ length xs)
            × ((i : ℕ) (x y : W)
                → get_elem? xs i ≡ some x
                → get_elem? ys i ≡ some y
                → get_elem? zs i ≡ some (op x y)))
        × (length xs ≢ length ys
            → f xs ys ≡ throw (invalid_argument "Vectors must be of the same size"))

  pointwise-IsPointwise : (op : W → W → W) → IsPointwise op (pointwise op)
  pointwise-IsPointwise op xs ys = (
    λ h. (
      zip_with op xs ys,
      pointwise_eq op xs ys h,
      length-zip_with op xs ys h,
      get_elem?-zip_with op xs ys,
    ),
    pointwise_ne op xs ys,
  )

  -- The three functions of two vectors work component by component where the sizes agree, and throw
  -- `std::invalid_argument` exactly where they do not.
  pub vectors-IsPointwise :
      IsPointwise (λ x y. x * y) multiply_vector_by_vector
      × IsPointwise (λ x y. x + y) add_vectors
      × IsPointwise (λ x y. x - y) subtract_vectors
  unfolding multiply_vector_by_vector add_vectors subtract_vectors
  vectors-IsPointwise = (
    pointwise-IsPointwise (λ x y. x * y),
    pointwise-IsPointwise (λ x y. x + y),
    pointwise-IsPointwise (λ x y. x - y),
  )
