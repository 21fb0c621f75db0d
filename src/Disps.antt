-- ===== src/Disps.antt =====
-- Server/src/odesolvers-lib/src/DISPSSolver.cpp and include/DISPSSolver.hpp: vectors, the enabled
-- variants and the choice between them. The children have the steps, the controls and `Solve`.
pub mod Stages
pub mod Control
pub mod Solve
pub mod Switch
pub mod Sizes
pub mod Variants
pub mod Trajectory
pub mod Quadrature
use odeclient_server.Base.Lists.{
  ℕ, zero, suc, List, [], ◌∷◌, ◌++◌, map, foldl, length, get_elem?, Option, none, some, Bool, ◌==◌,
  ltb, ◌&&◌, if◌then◌else◌,
}
use odeclient_server.Base.Outcome.{Outcome, ok, throw, undefined, runtime_error, ◌>>=◌}
use odeclient_server.Base.Double.{Double, lit, ◌+◌, ◌-◌, ◌*◌, ◌/◌, negate, sqrt, lt}
use odeclient_server.Vectors.{zip_with}

-- `struct DispsEnabledFlags`.
pub record DispsEnabledFlags : Type 0 where
  pub disps13 : Bool
  pub disps15 : Bool
  pub disps23 : Bool
  pub disps25 : Bool
  pub disps35 : Bool
  pub disps36 : Bool

-- `struct DispsVariant`.
pub record DispsVariant {ℓ} (W : Type ℓ) : Type ℓ where
  pub stages : ℕ
  pub order : ℕ
  pub p : List W
  pub gamma : W

-- `bestIndex`, `bestOrder` and `bestGamma`.
pub record Best {ℓ} (W : Type ℓ) : Type ℓ where
  pub index : ℕ
  pub order : ℕ
  pub gamma : W

-- `v[i]`.
abbrev pub element {ℓ} : {A : Type ℓ} → Option A → Outcome A
element none = throw undefined
element (some a) = ok a

abbrev pub at {ℓ} : {A : Type ℓ} → List A → ℕ → Outcome A
at xs i = element (get_elem? xs i)

module _ {ℓ} {W : Type ℓ} ⦃d : Double W⦄ where
  unfoldable pub add : List W → List W → Outcome (List W)
  add a b =
      if length a == length b
      then ok (zip_with (λ x y. x + y) a b)
      else throw (runtime_error "Add: размеры векторов не совпадают")

  unfoldable pub mul : W → List W → List W
  mul alpha v = map (λ x. alpha * x) v

  unfoldable pub subtract : List W → List W → Outcome (List W)
  subtract a b =
      if length a == length b
      then ok (zip_with (λ x y. x - y) a b)
      else throw (runtime_error "Subtract: размеры векторов не совпадают")

  unfoldable pub norm : List W → W
  norm v = sqrt (foldl (λ sum val. sum + val * val) (lit 0 0) v)

  abbrev pub sixth : W
  sixth = lit 1 0 / lit 6 0

  -- The variants in the order in which the constructor tests their flags.
  abbrev pub disps13 : DispsVariant W
  disps13 = record {
    stages = 3;
    order = 1;
    p = lit 76561395265924 14 ∷ lit 2066991671971 13 ∷ lit 27686880143657 15 ∷ [];
    gamma = lit 17 0;
  }

  abbrev pub disps15 : DispsVariant W
  disps15 = record {
    stages = 5;
    order = 1;
    p =
        lit 49900087977418 14
        ∷ lit 33439107198377 14
        ∷ lit 15517028825608 14
        ∷ lit 11387362618405 15
        ∷ lit 50397367568471 18
        ∷ [];
    gamma = lit 468 1;
  }

  abbrev pub disps23 : DispsVariant W
  disps23 = record {
    stages = 3;
    order = 2;
    p = lit 25 2 ∷ lit 461290700433682 15 ∷ lit 28870929566318 14 ∷ [];
    gamma = lit 6 0;
  }

  abbrev pub disps25 : DispsVariant W
  disps25 = record {
    stages = 5;
    order = 2;
    p =
        lit 25 2
        ∷ lit 39269911064722 14
        ∷ lit 2811818347201 13
        ∷ lit 6530730655278 14
        ∷ lit 10811748097894 15
        ∷ [];
    gamma = lit 188 1;
  }

  abbrev pub disps35 : DispsVariant W
  disps35 = record {
    stages = 5;
    order = 3;
    p =
        sixth
        ∷ negate (lit 2644193175547 12)
        ∷ lit 15929230363104 14
        ∷ lit 31515675385826 13
        ∷ sixth
        ∷ [];
    gamma = lit 103 1;
  }

  abbrev pub disps36 : DispsVariant W
  disps36 = record {
    stages = 6;
    order = 3;
    p =
        sixth
        ∷ negate (lit 60414736520435 13)
        ∷ lit 12355552068869 14
        ∷ lit 18196838110013 14
        ∷ lit 64026164169214 13
        ∷ sixth
        ∷ [];
    gamma = lit 1568 2;
  }

  abbrev pub push_if : Bool → DispsVariant W → List (DispsVariant W)
  push_if flag v = if flag then v ∷ [] else []

  abbrev pub enabled : DispsEnabledFlags → List (DispsVariant W)
  enabled flags =
      push_if flags.disps13 disps13
      ++ (push_if flags.disps15 disps15
          ++ (push_if flags.disps23 disps23
              ++ (push_if flags.disps25 disps25
                  ++ (push_if flags.disps35 disps35 ++ push_if flags.disps36 disps36))))

  abbrev pub nonempty : List (DispsVariant W) → Outcome (List (DispsVariant W))
  nonempty [] = throw (runtime_error "Нет включённых вариантов DISPS!")
  nonempty (v ∷ vs) = ok (v ∷ vs)

  -- The constructor: `variants_`, with `currentIndex_` 0.
  unfoldable pub construct : DispsEnabledFlags → Outcome (List (DispsVariant W))
  construct flags = nonempty (enabled flags)

  -- The body of the loop of `SwitchScheme`, at the index `i`.
  unfoldable pub consider : ℕ → ℕ → DispsVariant W → Best W → Best W
  consider current i v best =
      if i == current
      then best
      else if ltb best.order v.order
      then record { index = i; order = v.order; gamma = v.gamma }
      else if (v.order == best.order) && lt v.gamma best.gamma
      then record { index = i; order = best.order; gamma = v.gamma }
      else best

  unfoldable pub consider_all : ℕ → ℕ → List (DispsVariant W) → Best W → Best W
  consider_all current i [] best = best
  consider_all current i (v ∷ vs) best = consider_all current (suc i) vs (consider current i v best)

  -- `SwitchScheme`: the new `currentIndex_`.
  unfoldable pub switch_scheme : List (DispsVariant W) → ℕ → Outcome ℕ
  switch_scheme variants current = do
    v ← at variants current
    ok (
        (consider_all current 0 variants
          (record { index = current; order = v.order; gamma = v.gamma })).index)
