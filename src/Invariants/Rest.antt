-- ===== src/Invariants/Rest.antt =====
-- The solvers at a point where the right-hand side is 0 at every time.
use odeclient_server.Base.Lists.{
  ℕ, zero, suc, ◌≡◌, ◌∙◌, ap, refl, List, [], ◌∷◌, map, length, replicate, All, arith,
}
use odeclient_server.Base.Outcome.{Post}
use odeclient_server.Base.Double.{Double, lit, ◌+◌, ◌*◌}
use odeclient_server.Vectors.{zip_with}
use odeclient_server.Solver.{OdeFunction}
use odeclient_server.Invariants.{Any, IsInvariant}

-- What the arithmetic of `double` does with 0 and a finite number.
pub record ZeroLaws {ℓ} (W : Type ℓ) ⦃d : Double W⦄ : Type ℓ where
  pub plus_zero : (a : W) → a + lit 0 0 ≡ a
  pub times_zero : (a : W) → a * lit 0 0 ≡ lit 0 0
  pub zero_times : (a : W) → lit 0 0 * a ≡ lit 0 0

-- The point does not move under `f`.
abbrev pub IsEquilibrium {ℓ} : {W : Type ℓ} ⦃d : Double W⦄ → OdeFunction W → List W → Type ℓ
IsEquilibrium {W} f y = (t : W) → Post (All (λ x. x ≡ lit 0 0)) Any (f t y)

module _ {ℓ} {W : Type ℓ} ⦃d : Double W⦄ (laws : ZeroLaws W) where
  abbrev IsZero : List W → Type ℓ
  IsZero = All (λ x. x ≡ lit 0 0)

  zeros-IsZero : (n : ℕ) → IsZero (replicate n (lit 0 0))
  zeros-IsZero zero = tt
  zeros-IsZero (suc n) = (refl, zeros-IsZero n)

  map-IsZero : (g : W → W) → g (lit 0 0) ≡ lit 0 0 → (z : List W) → IsZero z → IsZero (map g z)
  map-IsZero g e [] h = tt
  map-IsZero g e (x ∷ z) (h, hs) = (ap g h ∙ e, map-IsZero g e z hs)

  plus-IsZero : (y z : List W) → length y ≡ length z → IsZero z → zip_with (λ x y. x + y) y z ≡ y
  plus-IsZero [] [] e h = refl
  plus-IsZero [] (x ∷ z) e h = absurd (omega arith)
  plus-IsZero (x ∷ y) [] e h = absurd (omega arith)
  plus-IsZero (x ∷ y) (x' ∷ z) e (h, hs) =
      rw (h, laws.plus_zero x, plus-IsZero y z (omega arith) hs)

  -- An equilibrium by itself is an invariant family.
  pub rest-IsInvariant :
      (f : OdeFunction W) (y0 : List W) → IsEquilibrium f y0 → IsInvariant f (λ y. y ≡ y0) IsZero
  rest-IsInvariant f y0 rest = record {
    slope = λ t y p. rw p (rest t);
    zeros = zeros-IsZero;
    sum = λ a b e za zb. rw (plus-IsZero a b e zb) za;
    move = λ y z e p zz. plus-IsZero y z e zz ∙ p;
    scale_left = λ s. map-IsZero (λ x. s * x) (laws.times_zero s);
    scale_right = λ s. map-IsZero (λ x. x * s) (laws.zero_times s);
  }
