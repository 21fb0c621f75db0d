-- ===== src/Disps/Variants.antt =====
-- DISPSSolver::DISPSSolver: the variants that it enables.
use odeclient_server.Base.Lists.{
  ℕ, ◌≡◌, ◌⊎◌, refl, ap, inl, inr, List, [], ◌∷◌, ◌++◌, get_elem?, some, All, All-append, Bool,
  true, false, arith,
}
use odeclient_server.Base.Outcome.{throw, runtime_error, Yields, yields}
use odeclient_server.Base.Double.{Double}
use odeclient_server.Disps.{DispsEnabledFlags, DispsVariant, push_if, enabled, nonempty, construct}
use odeclient_server.Disps.Sizes.{IsVariant}

module _ {ℓ} {W : Type ℓ} ⦃d : Double W⦄ where
  push_if-IsVariant : (b : Bool) (v : DispsVariant W) → IsVariant v → All IsVariant (push_if b v)
  push_if-IsVariant true v w = (w, tt)
  push_if-IsVariant false v w = tt

  -- There is a variant at the index.
  abbrev pub InRange : List (DispsVariant W) → ℕ → Type ℓ
  InRange variants i = (v : DispsVariant W) × (get_elem? variants i ≡ some v)

  push_if-nil :
      (b : Bool) (v : DispsVariant W) (vs : List (DispsVariant W))
      → push_if b v ++ vs ≡ []
      → (b ≡ false) × (vs ≡ [])
  push_if-nil true v vs e = absurd cc
  push_if-nil false v vs e = (refl, e)

  last-nil : (b : Bool) (v : DispsVariant W) → push_if b v ≡ [] → b ≡ false
  last-nil true v e = absurd cc
  last-nil false v e = refl

  nonempty-IsVariant :
      (vs : List (DispsVariant W))
      → All IsVariant vs
      → Yields (λ vs. All IsVariant vs × InRange vs 0) (nonempty vs) ⊎ (vs ≡ [])
  nonempty-IsVariant [] a = inr refl
  nonempty-IsVariant (v ∷ vs) a = inl (yields (a, (v, refl)))

-- No flag is set.
abbrev pub AllOff : DispsEnabledFlags → Type 0
AllOff flags =
    (flags.disps13 ≡ false)
    × (flags.disps15 ≡ false)
    × (flags.disps23 ≡ false)
    × (flags.disps25 ≡ false)
    × (flags.disps35 ≡ false)
    × (flags.disps36 ≡ false)

module _ {ℓ} (W : Type ℓ) ⦃d : Double W⦄ where
  enabled-IsVariant : (flags : DispsEnabledFlags) → All IsVariant (enabled {W = W} flags)
  enabled-IsVariant flags =
      all flags.disps13 _ _ (record { stages = inl refl; weights = refl; enough = inl refl })
        (all flags.disps15 _ _
          (record { stages = inr (inl refl); weights = refl; enough = inl refl })
          (all flags.disps23 _ _
            (record { stages = inl refl; weights = refl; enough = inr (inl refl) })
            (all flags.disps25 _ _
              (record { stages = inr (inl refl); weights = refl; enough = inr (inl refl) })
              (all flags.disps35 _ _
                (record {
                  stages = inr (inl refl);
                  weights = refl;
                  enough = inr (inr (omega arith));
                })
                (push_if-IsVariant flags.disps36 _ (record {
                  stages = inr (inr refl);
                  weights = refl;
                  enough = inr (inr (omega arith));
                }))))))
    where
      all :
          (b : Bool) (v : DispsVariant W) (vs : List (DispsVariant W))
          → IsVariant v
          → All IsVariant vs
          → All IsVariant (push_if b v ++ vs)
      all b v vs w a = All-append IsVariant (push_if b v) vs (push_if-IsVariant b v w) a

  enabled-AllOff : (flags : DispsEnabledFlags) → enabled {W = W} flags ≡ [] → AllOff flags
  enabled-AllOff flags e0 =
      let (a, e1) = push_if-nil flags.disps13 _ _ e0 in
      let (b, e2) = push_if-nil flags.disps15 _ _ e1 in
      let (c, e3) = push_if-nil flags.disps23 _ _ e2 in
      let (g, e4) = push_if-nil flags.disps25 _ _ e3 in
      let (h, e5) = push_if-nil flags.disps35 _ _ e4 in (a, b, c, g, h, last-nil flags.disps36 _ e5)

  -- The constructor makes variants that the steps and the controls can work with, at least one, or it
  -- throws, and then no flag is set.
  pub construct-IsVariant :
      (flags : DispsEnabledFlags)
      → Yields (λ (vs : List (DispsVariant W)). All IsVariant vs × InRange vs 0) (construct flags)
        ⊎ ((construct {W = W} flags ≡ throw (runtime_error "Нет включённых вариантов DISPS!"))
            × AllOff flags)
  unfolding construct
  construct-IsVariant flags =
      elim (nonempty-IsVariant (enabled {W = W} flags) (enabled-IsVariant flags)) [
        | inl y ↦ inl y
        | inr e ↦ inr (ap nonempty e, enabled-AllOff flags e)
      ]
