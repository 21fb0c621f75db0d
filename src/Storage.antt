-- ===== src/Storage.antt =====
-- Server/src/odesolvers-lib/src/Storage.cpp: the points of a solution in the order of `Add`.
use odeclient_server.Base.Lists.{
  ℕ, ◌≡◌, ◌≤◌, ◌<◌, List, [], ◌∷◌, ◌++◌, length, get_elem?, Option, none, some, length-append,
  arith, suc, zero, refl, get_elem?-append,
}
use odeclient_server.Base.Outcome.{Outcome, ok, throw, out_of_range}

abbrev pub Row {ℓ} : Type ℓ → Type ℓ
Row W = W × List W

abbrev pub Storage {ℓ} : Type ℓ → Type ℓ
Storage W = List (Row W)

abbrev pub fetched {ℓ} : {W : Type ℓ} → Option (Row W) → Outcome (Row W)
fetched none = throw (out_of_range "Index out of range")
fetched (some row) = ok row

module _ {ℓ} {W : Type ℓ} where
  unfoldable pub add : Storage W → W → List W → Storage W
  add rows time values = rows ++ ((time, values) ∷ [])

  unfoldable pub index : Storage W → ℕ → Outcome (Row W)
  index rows i = fetched (get_elem? rows i)

  abbrev pub size : Storage W → ℕ
  size rows = length rows

  get_elem?-append_left :
      (rows : Storage W) (r : Row W) (i : ℕ)
      → i < length rows
      → get_elem? (rows ++ (r ∷ [])) i ≡ get_elem? rows i
  get_elem?-append_left [] r i h = elim h [ ]
  get_elem?-append_left (x ∷ rows) r zero h = refl
  get_elem?-append_left (x ∷ rows) r (suc i) h = get_elem?-append_left rows r i (omega arith)

  get_elem?-none : (rows : Storage W) (i : ℕ) → length rows ≤ i → get_elem? rows i ≡ none
  get_elem?-none [] i h = refl
  get_elem?-none (x ∷ rows) zero h = absurd (omega arith)
  get_elem?-none (x ∷ rows) (suc i) h = get_elem?-none rows i (omega arith)

  -- After `Add` the new point stands at the old size, the size is one more, the points before it
  -- are as they were, and any index from the new size on is `std::out_of_range`.
  pub index-add :
      (rows : Storage W) (time : W) (values : List W)
      → (size (add rows time values) ≡ suc (size rows))
        × (index (add rows time values) (size rows) ≡ ok (time, values))
        × ((i : ℕ) → i < size rows → index (add rows time values) i ≡ index rows i)
        × ((i : ℕ)
            → size (add rows time values) ≤ i
            → index (add rows time values) i ≡ throw (out_of_range "Index out of range"))
  unfolding add index
  index-add rows time values = (
    omega (arith, length-append rows ((time, values) ∷ [])),
    rw (get_elem?-append rows (time, values) []),
    λ i h. rw (get_elem?-append_left rows (time, values) i h),
    λ i h. rw (get_elem?-none (rows ++ ((time, values) ∷ [])) i h),
  )
