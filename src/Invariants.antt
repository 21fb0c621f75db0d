-- ===== src/Invariants.antt =====
-- Server/src/odesolvers-lib/src/*Solver.cpp: families of points that the steps of a solver stay in.
-- A solver moves a point by sums of multiples of slopes, whatever its coefficients and its error.
pub mod Explicit
pub mod Dispd
pub mod Disps
pub mod Columns
pub mod Dispf
pub mod Linear
pub mod Rest
use mathlib.Core.Path.{subst}
use native.Mathlib.Decide.{ℕ_discrete}
use odeclient_server.Vectors.Laws.{pointwise_eq, pointwise_ne}
use odeclient_server.Base.Lists.{
  sym, ℕ, ◌≡◌, ◌==◌, refl, List, map, length, inl, inr, true, arith, Bool-cases, replicate,
  if◌then◌else◌,
}
use odeclient_server.Base.Outcome.{
  Yields, yields, ◌>>=◌, Outcome, ok, throw, out_of_fuel, Error, Post, returns, throws, spins,
  Post-ok,
}
use odeclient_server.Base.Double.{Double, lit, ◌+◌, ◌*◌}
use odeclient_server.Vectors.{zip_with, pointwise, multiply_scalar_by_vector, add_vectors}
use odeclient_server.Solver.{OdeFunction}

-- Nothing is said of the exception.
abbrev pub Any : Error → Type 0
Any e = Unit

-- Of a value that nothing is known of.
pub anything {ℓ} : {A : Type ℓ} (r : Outcome A) → Post (λ _. Unit {0}) Any r
anything (ok a) = returns tt
anything (throw e) = throws tt
anything out_of_fuel = spins

pub both {ℓ κ μ} :
    {A : Type ℓ} {P : A → Type κ} {Q : A → Type μ} {r : Outcome A}
    → Yields P r
    → Post Q Any r
    → Post (λ a. Q a × P a) Any r
both (yields h) (returns g) = returns (g, h)

-- The points of `P` are moved by increments of `Z`: the slopes of `f` at points of `P` are of `Z`,
-- and so are multiples and sums.
pub record IsInvariant {ℓ} {W : Type ℓ} ⦃d : Double W⦄ (f : OdeFunction W) (P Z : List W → Type ℓ)
    : Type ℓ where
  pub slope : (t : W) (y : List W) → P y → Post Z Any (f t y)
  pub zeros : (n : ℕ) → Z (replicate n (lit 0 0))
  pub sum : (a b : List W) → length a ≡ length b → Z a → Z b → Z (zip_with (λ x y. x + y) a b)
  pub move : (y z : List W) → length y ≡ length z → P y → Z z → P (zip_with (λ x y. x + y) y z)
  pub scale_left : (s : W) (z : List W) → Z z → Z (map (λ x. s * x) z)
  pub scale_right : (s : W) (z : List W) → Z z → Z (map (λ x. x * s) z)

ok-injective {ℓ} : {A : Type ℓ} {a b : A} → ok a ≡ ok b → a ≡ b
ok-injective e = cc

module _ {ℓ κ} {A : Type ℓ} {P : A → Type κ} {E : Error → Type 0} where
  pub Post-value : {r : Outcome A} {a : A} → Post P E r → r ≡ ok a → P a
  Post-value (returns h) e = subst P (ok-injective e) h
  Post-value (throws h) e = absurd cc
  Post-value spins e = absurd cc

module _ {ℓ} {W : Type ℓ} where
  pointwise-Post :
      (Q : List W → Type ℓ) (op : W → W → W) (xs ys : List W)
      → (length xs ≡ length ys → Q (zip_with op xs ys))
      → Post Q Any (pointwise op xs ys)
  pointwise-Post Q op xs ys h = elim (ℕ_discrete (length xs) (length ys)) [
    | yes e ↦ rw (pointwise_eq op xs ys e) (returns (h e))
    | no e ↦ rw (pointwise_ne op xs ys e) (throws tt)
  ]

module _ {ℓ} {W : Type ℓ} ⦃d : Double W⦄ {f : OdeFunction W} {P Z : List W → Type ℓ}
    (inv : IsInvariant f P Z) where
  pub times : (s : W) {z : List W} → Z z → Z (multiply_scalar_by_vector s z)
  unfolding multiply_scalar_by_vector
  times s {z} = inv.scale_left s z

  pub summed : {a b : List W} → Z a → Z b → Post Z Any (add_vectors a b)
  unfolding add_vectors
  summed {a} {b} za zb = pointwise-Post Z _ a b λ e. inv.sum a b e za zb

  pub moved : {y z : List W} → P y → Z z → Post P Any (add_vectors y z)
  unfolding add_vectors
  moved {y} {z} p zz = pointwise-Post P _ y z λ e. inv.move y z e p zz
