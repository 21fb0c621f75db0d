-- ===== src/Params/Conditions.antt =====
-- ParseUtils.cpp: the loop over the map, whose order of iteration is not known.
use mathlib.Core.Path.{subst}
use odeclient_server.Base.Lists.{
  if◌then◌else◌, ℕ, ◌≡◌, ◌⊎◌, refl, String, List, ◌∷◌, Option, none, some, ltb, Bool-cases, inl,
  inr,
}
use mathlib.Core.List.{[]}
use Prim.Native.Nat.{◌^◌}
use mathlib.Core.List.Permᴰ
use odeclient_server.Base.Outcome.{Outcome, ok, throw, out_of_range, ◌>>=◌}
use odeclient_server.Params.{Parameters, indexed_conditions, read_index, stoi}

Option-cases : (o : Option ℕ) → (o ≡ none) ⊎ ((n : ℕ) × (o ≡ some n))
Option-cases none = inl refl
Option-cases (some n) = inr (n, refl)

-- What a round of the loop does.
data Effect {ℓ} (W : Type ℓ) : Type ℓ where
  skips : Effect W
  refuses : Effect W
  adds : ℕ × W → Effect W

module _ {ℓ} {W : Type ℓ} where
  -- The same conditions in some order, or the same exception of `std::stoi`.
  pub data Same : Outcome (List (ℕ × W)) → Outcome (List (ℕ × W)) → Type ℓ where
    both_ok : {xs ys : List (ℕ × W)} → Permᴰ.Permᴰ xs ys → Same (ok xs) (ok ys)
    both_throw : Same (throw (out_of_range "stoi")) (throw (out_of_range "stoi"))

  Same-trans : {r s t : Outcome (List (ℕ × W))} → Same r s → Same s t → Same r t
  Same-trans (both_ok p) (both_ok q) = both_ok (Permᴰ.trans p q)
  Same-trans both_throw both_throw = both_throw

  Same-refl : {r s : Outcome (List (ℕ × W))} → Same r s → Same r r
  Same-refl (both_ok {xs} p) = both_ok (Permᴰ.refl xs)
  Same-refl both_throw = both_throw

  read : Option ℕ → W → Effect W
  read none value = skips
  read (some n) value = if ltb n (2 ^ 31) then adds (n, value) else refuses

  act : Effect W → Outcome (List (ℕ × W)) → Outcome (List (ℕ × W))
  act skips r = r
  act refuses r = throw (out_of_range "stoi")
  act (adds x) r = r >>= λ xs. ok (x ∷ xs)

  indexed_conditions-act :
      (key : String) (value : W) (params : Parameters W)
      → indexed_conditions ((key, value) ∷ params)
        ≡ act (read (read_index key) value) (indexed_conditions params)
  unfolding indexed_conditions read act stoi
  indexed_conditions-act key value params = elim (Option-cases (read_index key)) [
    | inl e ↦ rw (indexed_conditions, e, read, act)
    | inr (n, e) ↦ elim (Bool-cases (ltb n (2 ^ 31))) [
      | inl b ↦ rw (indexed_conditions, e, read, stoi, b, act)
      | inr b ↦ rw (indexed_conditions, e, read, stoi, b, act)
    ]
  ]

  act-Same : (e : Effect W) {r s : Outcome (List (ℕ × W))} → Same r s → Same (act e r) (act e s)
  unfolding act
  act-Same skips h = h
  act-Same refuses h = both_throw
  act-Same (adds x) (both_ok p) = both_ok (Permᴰ.cons refl p)
  act-Same (adds x) both_throw = both_throw

  act_swap :
      (e e' : Effect W) {r s : Outcome (List (ℕ × W))}
      → Same r s
      → Same (act e (act e' r)) (act e' (act e s))
  unfolding act
  act_swap skips e' h = act-Same e' h
  act_swap refuses skips h = both_throw
  act_swap refuses refuses h = both_throw
  act_swap refuses (adds y) h = both_throw
  act_swap (adds x) skips h = act-Same (adds x) h
  act_swap (adds x) refuses h = both_throw
  act_swap (adds x) (adds y) (both_ok {xs} p) =
      both_ok (Permᴰ.trans (Permᴰ.swap refl refl) (Permᴰ.cons refl (Permᴰ.cons refl p)))
  act_swap (adds x) (adds y) both_throw = both_throw

  conditions-Same :
      (params : Parameters W) → Same (indexed_conditions params) (indexed_conditions params)
  unfolding indexed_conditions
  conditions-Same [] = both_ok Permᴰ.nil
  conditions-Same ((key, value) ∷ params) =
      rw (indexed_conditions-act key value params) (act-Same _ (conditions-Same params))

  -- The order in which the map is iterated changes the order of the conditions at most.
  pub indexed_conditions-perm :
      {params params' : Parameters W}
      → Permᴰ.Permᴰ params params'
      → Same (indexed_conditions params) (indexed_conditions params')
  indexed_conditions-perm Permᴰ.nil = conditions-Same []
  indexed_conditions-perm (Permᴰ.cons {a} {l₁ = params} {l₂ = params'} e p) =
      subst (λ b. Same (indexed_conditions (a ∷ params)) (indexed_conditions (b ∷ params'))) e
        (rw (indexed_conditions-act a.0 a.1 params, indexed_conditions-act a.0 a.1 params')
          (act-Same _ (indexed_conditions-perm p)))
  indexed_conditions-perm (Permᴰ.swap {a} {b} {a'} {b'} {l = params} e e') =
      subst (λ x. Same (indexed_conditions (a ∷ b ∷ params)) (indexed_conditions (x ∷ b' ∷ params)))
        e'
        (subst
          (λ x. Same (indexed_conditions (a ∷ b ∷ params)) (indexed_conditions (b ∷ x ∷ params))) e
          (rw
            (
              indexed_conditions-act a.0 a.1 (b ∷ params),
              indexed_conditions-act b.0 b.1 params,
              indexed_conditions-act b.0 b.1 (a ∷ params),
              indexed_conditions-act a.0 a.1 params,
            )
            (act_swap _ _ (conditions-Same params))))
  indexed_conditions-perm (Permᴰ.trans p q) =
      Same-trans (indexed_conditions-perm p) (indexed_conditions-perm q)
