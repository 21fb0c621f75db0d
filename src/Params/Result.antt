-- ===== src/Params/Result.antt =====
-- ParseUtils.cpp: what `ExtractInitialConditions` returns for a map of parameters.
use Prim.Native.Nat.{◌+◌ as plus, ◌^◌}
use mathlib.Core.List.Permᴰ
use mathlib.Core.Path.{subst}
use odeclient_server.Base.Lists.{
  ℕ, suc, ◌≡◌, ◌≢◌, ◌≤◌, ◌<◌, refl, sym, ap, ◌∙◌, List, [], ◌∷◌, ◌++◌, map, length, All, none,
  arith,
}
use odeclient_server.Base.Outcome.{runtime_error, throw, Outcome, ok, ◌>>=◌}
use odeclient_server.Tasks.{Parameters}
use odeclient_server.Params.{read_index, indexed_conditions, nonempty, extract_initial_conditions}
use odeclient_server.Params.Key.{key_of, read_index-key_of}
use odeclient_server.Params.Order.{
  IsDistinct, IsSorted, IsDistinct-perm, at_index-perm, IsSorted-eq, All-perm,
}
use odeclient_server.Params.Conditions.{Same, both_ok, both_throw, indexed_conditions-perm}

module _ {ℓ} {W : Type ℓ} where
  -- Documented behaviour of `std::sort` by the index: it rearranges, and the indices do not fall.
  abbrev pub IsSort : (List (ℕ × W) → List (ℕ × W)) → Type ℓ
  IsSort sort = (xs : List (ℕ × W)) → Permᴰ.Permᴰ xs (sort xs) × IsSorted (sort xs)

  -- No two keys of the parameters have one index, as "y1_init" and "y01_init" do.
  abbrev pub HasDistinctIndices : Parameters W → Type ℓ
  HasDistinctIndices params =
      (xs : List (ℕ × W)) → indexed_conditions params ≡ ok xs → IsDistinct xs

  sorts-eq :
      (sort sort' : List (ℕ × W) → List (ℕ × W)) (xs ys : List (ℕ × W))
      → IsSort sort
      → IsSort sort'
      → Permᴰ.Permᴰ xs ys
      → IsDistinct xs
      → sort xs ≡ sort' ys
  sorts-eq sort sort' xs ys is_sort is_sort' p distinct =
      let (q, s) = is_sort xs in
      let (q', s') = is_sort' ys in
      let distinct_ys = IsDistinct-perm p distinct in
      IsSorted-eq (sort xs) (sort' ys) s s' (IsDistinct-perm q distinct)
        (IsDistinct-perm q' distinct_ys)
        λ i.
          sym (at_index-perm i q distinct)
          ∙ at_index-perm i p distinct
          ∙ at_index-perm i q' distinct_ys

  -- With distinct indices the initial point, and the exception, depend neither on the order in which
  -- the map is iterated nor on how the conditions are sorted.
  pub extract-perm :
      (sort sort' : List (ℕ × W) → List (ℕ × W)) {params params' : Parameters W}
      → IsSort sort
      → IsSort sort'
      → Permᴰ.Permᴰ params params'
      → HasDistinctIndices params
      → extract_initial_conditions sort params ≡ extract_initial_conditions sort' params'
  unfolding extract_initial_conditions
  extract-perm sort sort' {params} {params'} is_sort is_sort' p distinct =
      go _ _ (indexed_conditions-perm p) distinct
    where
      go :
          (r r' : Outcome (List (ℕ × W)))
          → Same r r'
          → ((xs : List (ℕ × W)) → r ≡ ok xs → IsDistinct xs)
          → (r >>= λ xs. nonempty (map (λ c. c.1) (sort xs)))
            ≡ (r' >>= λ xs. nonempty (map (λ c. c.1) (sort' xs)))
      go _ _ (both_ok {xs} {ys} q) d =
          ap (λ zs. nonempty (map (λ c. c.1) zs))
            (sorts-eq sort sort' xs ys is_sort is_sort' q (d xs refl))
      go _ _ both_throw d = refl

  -- The initial values, numbered from `i` on, as a request names them.
  abbrev pub named : ℕ → List W → Parameters W
  named i [] = []
  named i (y ∷ ys) = (key_of i, y) ∷ named (suc i) ys

  numbered : ℕ → List W → List (ℕ × W)
  numbered i [] = []
  numbered i (y ∷ ys) = (i, y) ∷ numbered (suc i) ys

  above : (i j : ℕ) (ys : List W) → i < j → All (λ y. i < y.0) (numbered j ys)
  unfolding numbered
  above i j [] h = tt
  above i j (y ∷ ys) h = (h, above i (suc j) ys (omega arith))

  weaken_le : (i : ℕ) (xs : List (ℕ × W)) → All (λ y. i < y.0) xs → All (λ y. i ≤ y.0) xs
  weaken_le i [] a = tt
  weaken_le i (x ∷ xs) (h, a) = (omega arith, weaken_le i xs a)

  weaken_ne : (i : ℕ) (xs : List (ℕ × W)) → All (λ y. i < y.0) xs → All (λ y. i ≢ y.0) xs
  weaken_ne i [] a = tt
  weaken_ne i (x ∷ xs) (h, a) = (ground arith, weaken_ne i xs a)

  numbered-IsSorted : (i : ℕ) (ys : List W) → IsSorted (numbered i ys)
  unfolding numbered
  numbered-IsSorted i [] = tt
  numbered-IsSorted i (y ∷ ys) =
      (weaken_le i _ (above i (suc i) ys (omega arith)), numbered-IsSorted (suc i) ys)

  numbered-IsDistinct : (i : ℕ) (ys : List W) → IsDistinct (numbered i ys)
  unfolding numbered
  numbered-IsDistinct i [] = tt
  numbered-IsDistinct i (y ∷ ys) =
      (weaken_ne i _ (above i (suc i) ys (omega arith)), numbered-IsDistinct (suc i) ys)

  map-numbered : (i : ℕ) (ys : List W) → map (λ c. c.1) (numbered i ys) ≡ ys
  unfolding numbered
  map-numbered i [] = refl
  map-numbered i (y ∷ ys) = ap (λ zs. y ∷ zs) (map-numbered (suc i) ys)

  conditions-others :
      (others : Parameters W)
      → All (λ o. read_index o.0 ≡ none) others
      → indexed_conditions others ≡ ok []
  unfolding indexed_conditions
  conditions-others [] a = refl
  conditions-others ((key, value) ∷ others) (e, a) =
      rw (indexed_conditions, e) (conditions-others others a)

  conditions-named :
      (i : ℕ) (ys : List W) (others : Parameters W)
      → plus i (length ys) ≤ 2 ^ 31
      → All (λ o. read_index o.0 ≡ none) others
      → indexed_conditions (named i ys ++ others) ≡ ok (numbered i ys)
  unfolding indexed_conditions numbered
  conditions-named i [] others h a = conditions-others others a
  conditions-named i (y ∷ ys) others h a =
      let (read, fits) = read_index-key_of i in
      rw (
        indexed_conditions,
        read,
        fits (omega arith),
        conditions-named (suc i) ys others (omega arith) a,
      )

  filled : (ys : List W) → ys ≢ [] → nonempty ys ≡ ok ys
  filled [] ne = absurd (ne refl)
  filled (y ∷ ys) ne = refl

  sort-numbered :
      (sort : List (ℕ × W) → List (ℕ × W)) (ys : List W) (xs : List (ℕ × W))
      → IsSort sort
      → Permᴰ.Permᴰ (numbered 0 ys) xs
      → sort xs ≡ numbered 0 ys
  sort-numbered sort ys xs is_sort p =
      let (q, s) = is_sort xs in
      let d = numbered-IsDistinct 0 ys in
      let d' = IsDistinct-perm p d in
      IsSorted-eq (sort xs) (numbered 0 ys) s (numbered-IsSorted 0 ys) (IsDistinct-perm q d') d
        λ i. sym (at_index-perm i p d ∙ at_index-perm i q d')

  -- A request that names each of its initial values "y0_init", "y1_init" and so on gets them back in
  -- that order, wherever they stand among the parameters.
  pub extract-named :
      (sort : List (ℕ × W) → List (ℕ × W)) (ys : List W) (others params : Parameters W)
      → IsSort sort
      → ys ≢ []
      → length ys ≤ 2 ^ 31
      → All (λ o. read_index o.0 ≡ none) others
      → Permᴰ.Permᴰ (named 0 ys ++ others) params
      → extract_initial_conditions sort params ≡ ok ys
  unfolding extract_initial_conditions
  extract-named sort ys others params is_sort ne h a p =
      go _ _ (indexed_conditions-perm p) (conditions-named 0 ys others (omega arith) a)
    where
      go :
          (r r' : Outcome (List (ℕ × W)))
          → Same r r'
          → r ≡ ok (numbered 0 ys)
          → (r' >>= λ xs. nonempty (map (λ c. c.1) (sort xs))) ≡ ok ys
      go _ _ (both_ok {xs} {ys = zs} q) e =
          let numbers : xs ≡ numbered 0 ys = cc in
          let p' = subst (λ l. Permᴰ.Permᴰ l zs) numbers q in
          ap (λ l. nonempty (map (λ c. c.1) l)) (sort-numbered sort ys zs is_sort p')
          ∙ ap nonempty (map-numbered 0 ys)
          ∙ filled ys ne
      go _ _ both_throw e = absurd cc

  is_empty : (xs : List (ℕ × W)) → All (λ x. ⊥) xs → xs ≡ []
  is_empty [] a = refl
  is_empty (x ∷ xs) a = absurd a.0

  -- Without a key of the form there is no initial point.
  pub extract_without :
      (sort : List (ℕ × W) → List (ℕ × W)) (params : Parameters W)
      → IsSort sort
      → All (λ o. read_index o.0 ≡ none) params
      → extract_initial_conditions sort params
        ≡ throw (runtime_error "No initial conditions found in parameters.")
  unfolding extract_initial_conditions
  extract_without sort params is_sort a =
      let (p, _) = is_sort [] in
      rw (conditions-others params a, is_empty (sort []) (All-perm (λ x. ⊥) p tt))
