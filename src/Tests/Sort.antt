-- ===== src/Tests/Sort.antt =====
-- Insertion sort by the index, in place of `std::sort`.
use mathlib.Core.List.Permᴰ
use odeclient_server.Base.Lists.{
  ℕ, ◌≤◌, refl, inl, inr, List, [], ◌∷◌, All, Bool-cases, ltb, if◌then◌else◌, arith,
}
use odeclient_server.Params.Order.{IsSorted, All-perm}
use odeclient_server.Params.Result.{IsSort}

module _ {ℓ} {W : Type ℓ} where
  unfoldable pub insert : (ℕ × W) → List (ℕ × W) → List (ℕ × W)
  insert x [] = x ∷ []
  insert x (y ∷ ys) = let rest = insert x ys in if ltb y.0 x.0 then y ∷ rest else x ∷ y ∷ ys

  unfoldable pub sort_conditions : List (ℕ × W) → List (ℕ × W)
  sort_conditions [] = []
  sort_conditions (x ∷ xs) = insert x (sort_conditions xs)

  insert-perm : (x : (ℕ × W)) (ys : List (ℕ × W)) → Permᴰ.Permᴰ (x ∷ ys) (insert x ys)
  unfolding insert
  insert-perm x [] = Permᴰ.refl _
  insert-perm x (y ∷ ys) = elim (Bool-cases (ltb y.0 x.0)) [
    | inl e ↦
        rw (insert, e) (Permᴰ.trans (Permᴰ.swap refl refl) (Permᴰ.cons refl (insert-perm x ys)))
    | inr e ↦ rw (insert, e) (Permᴰ.refl _)
  ]

  above : (i j : ℕ) (ys : List (ℕ × W)) → i ≤ j → All (λ y. j ≤ y.0) ys → All (λ y. i ≤ y.0) ys
  above i j [] h a = tt
  above i j (y ∷ ys) h (p, a) = (omega arith, above i j ys h a)

  insert-IsSorted : (x : (ℕ × W)) (ys : List (ℕ × W)) → IsSorted ys → IsSorted (insert x ys)
  unfolding insert
  insert-IsSorted x [] s = (tt, tt)
  insert-IsSorted x (y ∷ ys) (a, s) = elim (Bool-cases (ltb y.0 x.0)) [
    | inl e ↦
        rw (insert, e)
          (
            All-perm (λ z. y.0 ≤ z.0) (insert-perm x ys) (ground (arith, e), a),
            insert-IsSorted x ys s,
          )
    | inr e ↦
        let le : x.0 ≤ y.0 = ground (arith, e) in
        rw (insert, e) ((le, above x.0 y.0 ys le a), (a, s))
  ]

  pub sort_conditions-IsSort : IsSort sort_conditions
  unfolding sort_conditions
  sort_conditions-IsSort [] = (Permᴰ.nil, tt)
  sort_conditions-IsSort (x ∷ xs) =
      let (p, s) = sort_conditions-IsSort xs in
      (
        Permᴰ.trans (Permᴰ.cons refl p) (insert-perm x (sort_conditions xs)),
        insert-IsSorted x (sort_conditions xs) s,
      )
