-- ===== src/Flags.antt =====
-- Server/src/Routers.cpp: ParseDispsFlags and the solver that the DISPS branch of /solve makes.
-- `contains` and `get_int` stand for `params.contains(key)` and `params[key].get<int>()` of
-- nlohmann::json.
use odeclient_server.Base.Lists.{
  ◌≡◌, ◌⊎◌, inl, inr, String, List, [], ◌∷◌, All, Bool, true, false, Bool-cases, if◌then◌else◌,
}
use odeclient_server.Base.Outcome.{
  Outcome, ok, throw, runtime_error, ◌>>=◌, Yields, yields, Yields-bind, Yields-value,
}
use odeclient_server.Base.Int.{ℤ, is}
use odeclient_server.Base.Double.{Double}
use odeclient_server.Disps.{DispsEnabledFlags, DispsVariant, construct}
use odeclient_server.Disps.Sizes.{IsVariant}
use odeclient_server.Disps.Variants.{InRange, AllOff, construct-IsVariant}

module _ (contains : String → Bool) (get_int : String → Outcome ℤ) where
  -- `params.contains(key) && params[key].get<int>() == 1`.
  unfoldable pub flag : String → Outcome Bool
  flag key =
      let value = get_int key >>= λ i. ok (is i 1) in if contains key then value else ok false

  unfoldable pub parse_disps_flags : Outcome DispsEnabledFlags
  parse_disps_flags = do
    disps13 ← flag "Disps13"
    disps15 ← flag "Disps15"
    disps23 ← flag "Disps23"
    disps25 ← flag "Disps25"
    disps35 ← flag "Disps35"
    disps36 ← flag "Disps36"
    ok (record {
      disps13 = disps13;
      disps15 = disps15;
      disps23 = disps23;
      disps25 = disps25;
      disps35 = disps35;
      disps36 = disps36;
    })

  -- `auto flags = ParseDispsFlags(parameters); DISPSSolver solver(odeFunction, initialStep, flags);`.
  unfoldable pub disps_solver {ℓ} : (W : Type ℓ) → ⦃d : Double W⦄ → Outcome (List (DispsVariant W))
  disps_solver W = parse_disps_flags >>= construct

  -- The flag is not there, or is an integer.
  abbrev pub IsFlag : String → Type 0
  IsFlag key = contains key ≡ true → Yields (λ _. Unit {0}) (get_int key)

  -- Each of the six is.
  abbrev pub HasFlags : Type 0
  HasFlags = All IsFlag ("Disps13" ∷ "Disps15" ∷ "Disps23" ∷ "Disps25" ∷ "Disps35" ∷ "Disps36" ∷ [])

  flag-Yields : (key : String) → IsFlag key → Yields (λ _. Unit {0}) (flag key)
  unfolding flag
  flag-Yields key numeric = elim (Bool-cases (contains key)) [
    | inl c ↦ rw c (Yields-bind (numeric c) λ i _. yields tt)
    | inr c ↦ rw c (yields tt)
  ]

  module _ (has : HasFlags) where
    parse-Yields : Yields (λ _. Unit {0}) parse_disps_flags
    unfolding parse_disps_flags
    parse-Yields =
        let (n13, (n15, (n23, (n25, (n35, (n36, _)))))) = has in
        Yields-bind (flag-Yields "Disps13" n13) λ a _.
          Yields-bind (flag-Yields "Disps15" n15) λ b _.
            Yields-bind (flag-Yields "Disps23" n23) λ c _.
              Yields-bind (flag-Yields "Disps25" n25) λ g _.
                Yields-bind (flag-Yields "Disps35" n35)
                  λ h _. Yields-bind (flag-Yields "Disps36" n36) λ i _. yields tt

    -- Where the flags that a request has are integers, it gets a solver with a current variant, all
    -- of whose variants the steps and controls can work with, or "no variant is enabled", and then
    -- the flags that are parsed are all off.
    pub disps_solver-IsVariant {ℓ} :
        (W : Type ℓ) ⦃d : Double W⦄
        → Yields (λ (vs : List (DispsVariant W)). All IsVariant vs × InRange vs 0) (disps_solver W)
          ⊎ ((disps_solver W ≡ throw (runtime_error "Нет включённых вариантов DISPS!"))
              × ((flags : DispsEnabledFlags) × (parse_disps_flags ≡ ok flags) × AllOff flags))
    unfolding disps_solver
    disps_solver-IsVariant W =
        let (flags, e, _) = Yields-value parse-Yields in
        elim (construct-IsVariant W flags) [
          | inl y ↦ inl (rw e y)
          | inr (c, off) ↦ inr (rw e c, (flags, e, off))
        ]
