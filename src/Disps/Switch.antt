-- ===== src/Disps/Switch.antt =====
-- DISPSSolver::SwitchScheme: which variant it chooses.
use Prim.Native.Nat.{◌+◌ as plus}
use mathlib.Core.Path.{subst}
use odeclient_server.Base.Lists.{
  sym, ap, ◌∙◌, ◌&&◌, ◌≢◌, ℕ, suc, ◌≤◌, ◌≡◌, refl, List, [], ◌∷◌, get_elem?, some, All, true, false,
  Bool-cases, inl, inr, arith, ◌==◌, ltb,
}
use odeclient_server.Base.Outcome.{ok}
use odeclient_server.Base.Double.{Double, lt, IsIrreflexive}
use odeclient_server.Disps.{DispsVariant, Best, consider, consider_all, switch_scheme}

pub eq-plus_zero : (j : ℕ) → j ≡ plus j 0
eq-plus_zero j = omega arith

-- `<` on the gammas is transitive: documented behaviour of `double`.
abbrev pub IsTransitive {ℓ} : (W : Type ℓ) → ⦃d : Double W⦄ → Type ℓ
IsTransitive W = (x y z : W) → lt x y ≡ true → lt y z ≡ true → lt x z ≡ true

module _ {ℓ} {W : Type ℓ} ⦃d : Double W⦄ where
  -- No variant better than the best: none of a higher order, and none of its order with a smaller
  -- gamma.
  pub record NoBetter (order : ℕ) (gamma : W) (v : DispsVariant W) : Type 0 where
    pub order_le : v.order ≤ order
    pub gamma_le : v.order ≡ order → lt v.gamma gamma ≡ false

  -- The best that is kept is a variant of the list at its index.
  pub record Names (variants : List (DispsVariant W)) (b : Best W) : Type ℓ where
    pub variant : DispsVariant W
    pub found : get_elem? variants b.index ≡ some variant
    pub order_eq : b.order ≡ variant.order
    pub gamma_eq : b.gamma ≡ variant.gamma

  module _ (irreflexive : IsIrreflexive W) (transitive : IsTransitive W) where
    -- One candidate: nothing that was no better than the old best is better than the new one, and
    -- the candidate is not either, unless it is the current variant.
    consider-NoBetter :
        (current i : ℕ) (v u : DispsVariant W) (b : Best W)
        → NoBetter b.order b.gamma u
        → let b' = consider current i v b in NoBetter b'.order b'.gamma u
    unfolding consider
    consider-NoBetter current i v u b h = elim (Bool-cases (i == current)) [
      | inl p ↦ rw (p, consider) h
      | inr p ↦ elim (Bool-cases (ltb b.order v.order)) [
        | inl q ↦
            rw (p, q) (record { order_le = ground arith; gamma_le = λ e. absurd (ground arith) })
        | inr q ↦ elim (Bool-cases ((v.order == b.order) && lt v.gamma b.gamma)) [
          | inl r ↦
              rw (p, q, r)
                (record {
                  order_le = h.order_le;
                  gamma_le = λ e. ground (arith, h.gamma_le e, transitive u.gamma v.gamma b.gamma);
                })
          | inr r ↦ rw (p, q, r) h
        ]
      ]
    ]

    consider_candidate :
        (current i : ℕ) (v : DispsVariant W) (b : Best W)
        → i ≢ current
        → let b' = consider current i v b in NoBetter b'.order b'.gamma v
    unfolding consider
    consider_candidate current i v b ne = ground (arith, irreflexive v.gamma)

  consider-Names :
      (variants : List (DispsVariant W)) (current i : ℕ) (v : DispsVariant W) (b : Best W)
      → get_elem? variants i ≡ some v
      → Names variants b
      → Names variants (consider current i v b)
  unfolding consider
  consider-Names variants current i v b e h = elim (Bool-cases (i == current)) [
    | inl p ↦ rw (p, consider) h
    | inr p ↦ elim (Bool-cases (ltb b.order v.order)) [
      | inl q ↦ rw (p, q) (record { variant = v; found = e; order_eq = refl; gamma_eq = refl })
      | inr q ↦ elim (Bool-cases ((v.order == b.order) && lt v.gamma b.gamma)) [
        | inl r ↦
            rw (p, q, r)
              (record { variant = v; found = e; order_eq = ground arith; gamma_eq = refl })
        | inr r ↦ rw (p, q, r) h
      ]
    ]
  ]

  pub consider_all-Names :
      (variants : List (DispsVariant W)) (current i : ℕ) (vs : List (DispsVariant W)) (b : Best W)
      → ((j : ℕ) → get_elem? vs j ≡ get_elem? variants (plus j i))
      → Names variants b
      → Names variants (consider_all current i vs b)
  unfolding consider_all
  consider_all-Names variants current i [] b same names = names
  consider_all-Names variants current i (v ∷ vs) b same names =
      let zero_eq : plus 0 i ≡ i = omega arith in
      consider_all-Names variants current (suc i) vs (consider current i v b)
        (λ j. same (suc j) ∙ ap (get_elem? variants) (omega arith))
        (consider-Names variants current i v b (sym (same 0 ∙ ap (get_elem? variants) zero_eq))
          names)

  module _ (irreflexive : IsIrreflexive W) (transitive : IsTransitive W)
      (variants : List (DispsVariant W)) (current : ℕ) (cv : DispsVariant W)
      (is_current : get_elem? variants current ≡ some cv) where
    -- The best after the candidates from `i` on: a variant of the list, with none better among those
    -- that were no better than before, nor among the candidates.
    consider_all_lem :
        (i : ℕ) (vs : List (DispsVariant W)) (b : Best W)
        → ((j : ℕ) → get_elem? vs j ≡ get_elem? variants (plus j i))
        → Names variants b
        → NoBetter b.order b.gamma cv
        → let b' = consider_all current i vs b in
          Names variants b'
          × ((u : DispsVariant W) → NoBetter b.order b.gamma u → NoBetter b'.order b'.gamma u)
          × All (NoBetter b'.order b'.gamma) vs
    unfolding consider_all
    consider_all_lem i [] b same names h = (names, λ u k. k, tt)
    consider_all_lem i (v ∷ vs) b same names h =
        let zero_eq : plus 0 i ≡ i = omega arith in
        let here : get_elem? variants i ≡ some v = sym (same 0 ∙ ap (get_elem? variants) zero_eq) in
        let step = consider-NoBetter irreflexive transitive current i v in
        let (names', keep, rest) =
          consider_all_lem (suc i) vs (consider current i v b)
            (λ j. same (suc j) ∙ ap (get_elem? variants) (shift j))
            (consider-Names variants current i v b here names) (step cv b h) in
        (names', λ u k. keep u (step u b k), (keep v (candidate here step), rest))
      where
        shift : (j : ℕ) → plus (suc j) i ≡ plus j (suc i)
        shift j = omega arith

        candidate :
            get_elem? variants i ≡ some v
            → ((u : DispsVariant W) (b : Best W)
                → NoBetter b.order b.gamma u
                → NoBetter (consider current i v b).order (consider current i v b).gamma u)
            → NoBetter (consider current i v b).order (consider current i v b).gamma v
        candidate here step = elim (Bool-cases (i == current)) [
          | inl p ↦
              let at_current : i ≡ current = ground arith in
              let e : cv ≡ v = cc (ap (get_elem? variants) at_current, here, is_current) in
              subst (λ x. NoBetter (consider current i v b).order (consider current i v b).gamma x)
                e (step cv b h)
          | inr p ↦ consider_candidate irreflexive transitive current i v b (ground arith)
        ]

    -- `SwitchScheme` chooses a variant of the list than which none is better: none has a higher order,
    -- and none of the same order has a smaller gamma.
    pub switch_scheme-NoBetter :
        (best : DispsVariant W) × (index : ℕ) × (switch_scheme variants current ≡ ok index)
        × (get_elem? variants index ≡ some best)
        × All (NoBetter best.order best.gamma) variants
    unfolding switch_scheme
    switch_scheme-NoBetter =
        let start : Best W = record { index = current; order = cv.order; gamma = cv.gamma } in
        let (names, _, all) =
          consider_all_lem 0 variants start (λ j. ap (get_elem? variants) (eq-plus_zero j))
            (record { variant = cv; found = is_current; order_eq = refl; gamma_eq = refl })
            (record { order_le = omega arith; gamma_le = λ _. irreflexive cv.gamma }) in
        (
          names.variant,
          (consider_all current 0 variants start).index,
          rw is_current,
          names.found,
          rw (← names.order_eq, ← names.gamma_eq) all,
        )
