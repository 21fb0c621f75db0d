-- ===== src/Rk2/Step/Nan.antt =====
-- RK2Solver::Step where the error estimate is NaN.
use odeclient_server.Base.Lists.{
  ℕ, zero, suc, ◌≡◌, ◌<◌, refl, List, [], ◌∷◌, foldl, length, HasSize, false, arith,
}
use odeclient_server.Base.Outcome.{ok, out_of_fuel, Yields, yields, Yields-value, Yields-bind}
use odeclient_server.Base.Double.{Double, lit, ◌+◌, ◌*◌, ◌/◌, eq, max, NanLaws}
use odeclient_server.Vectors.{zip_with, multiply_scalar_by_vector as mul, norm}
use odeclient_server.Vectors.Laws.{add-Yields, subtract-eq, multiply_scalar-HasSize}
use odeclient_server.Solver.{OdeFunction, IsSystem}
use odeclient_server.Rk2.{Trial, trial, factor, min_factor, step}

module _ {ℓ} {W : Type ℓ} ⦃d : Double W⦄ (laws : NanLaws W) where
  open laws use {
    IsNan, plus_left, plus_right, minus_left, times_left, times_right, over_left, over_right,
    pow_left, sqrt_nan, lt_left, le_left,
  }

  abbrev sum_squares : W → List W → W
  sum_squares = foldl (λ sum val. sum + val * val)

  sum_squares-nan : (xs : List W) (sum : W) → IsNan sum → IsNan (sum_squares sum xs)
  sum_squares-nan [] sum h = h
  sum_squares-nan (x ∷ xs) sum h = sum_squares-nan xs _ (plus_left sum (x * x) h)

  -- The difference of two vectors that are NaN throughout, or of `h` times anything.
  norm-nan :
      (h : W) (xs ys : List W)
      → IsNan h
      → 0 < length xs
      → length xs ≡ length ys
      → IsNan (norm (zip_with (λ a b. d.minus a b) (mul h xs) ys))
  unfolding norm mul
  norm-nan h [] ys nan pos e = absurd (omega arith)
  norm-nan h (x ∷ xs) [] nan pos e = absurd (omega arith)
  norm-nan h (x ∷ xs) (y ∷ ys) nan pos e = sqrt_nan _ (
      sum_squares-nan (zip_with (λ a b. d.minus a b) (mul h xs) ys) _
        (plus_right _ _ (times_left _ _ (minus_left _ _ (times_left h x nan)))))

  module _ (f : OdeFunction W) (n : ℕ) (system : IsSystem n f) (pos : 0 < n) where
    trial-nan :
        (t : W) (y : List W) (h : W)
        → HasSize n y
        → IsNan h
        → Yields (λ (r : Trial W). IsNan r.error) (trial f t y h)
    unfolding trial
    trial-nan t y h s nan = Yields-bind (system t y s) λ f1 e1.
        let k1 = multiply_scalar-HasSize n h e1 in
        Yields-bind (add-Yields n s (multiply_scalar-HasSize n _ k1)) λ y2 s2.
          Yields-bind (system _ y2 s2) λ f2 e2.
            let k2 = multiply_scalar-HasSize n h e2 in
            Yields-bind
              (add-Yields n (multiply_scalar-HasSize n _ k1) (multiply_scalar-HasSize n _ k2))
              λ k12 s12. Yields-bind (add-Yields n s s12) λ y_next s_next.
                Yields-bind (system _ y_next s_next) λ f_next e_next.
                  let k3 = multiply_scalar-HasSize n h e_next in
                  rw
                    (
                      subtract-eq (mul h f2) (mul h f1) (omega (arith, k1.sized, k2.sized)),
                      subtract-eq (mul h f_next) (mul h f1) (omega (arith, k1.sized, k3.sized)),
                    )
                    (yields (
                      max_nan _ _ (
                        over_left _ _ (
                          norm-nan h f2 (mul h f1) nan (omega (arith, e2.sized))
                            (omega (arith, e2.sized, k1.sized))))))
      where
        max_nan : (a b : W) → IsNan a → IsNan (max a b)
        max_nan a b p = rw (lt_left a b p) p

    step-nan_size :
        (fuel : ℕ) (t : W) (y : List W) (h tolerance : W)
        → HasSize n y
        → IsNan h
        → step f fuel t y h tolerance ≡ out_of_fuel
    unfolding step
    step-nan_size zero t y h tolerance s nan = refl
    step-nan_size (suc fuel) t y h tolerance s nan =
        let (r, e, error_nan) = Yields-value (trial-nan t y h s nan) in
        rw (e, le_left r.error tolerance error_nan)
          (step-nan_size fuel t y _ tolerance s (times_left h _ nan))

    -- On a system of `n` equations, `n` positive, at a point of `n` numbers: if the error of the first
    -- trial is NaN, `Step` does not return, whatever the fuel. Arithmetic carries NaN on, comparisons
    -- with NaN are false, and 1/3 is not 0.
    pub step-nan :
        eq {W = W} (lit 1 0 / lit 3 0) (lit 0 0) ≡ false
        → (fuel : ℕ) (t : W) (y : List W) (h tolerance : W) (r : Trial W) → HasSize n y
        → trial f t y h ≡ ok r
        → IsNan r.error
        → step f fuel t y h tolerance ≡ out_of_fuel
    unfolding step
    step-nan nonzero zero t y h tolerance r s e nan = refl
    step-nan nonzero (suc fuel) t y h tolerance r s e nan =
        let factor_nan =
          times_right _ _ (pow_left _ _ (over_right tolerance r.error nan) nonzero) in
        rw (e, le_left r.error tolerance nan)
          (step-nan_size fuel t y (h * max (factor tolerance r.error) min_factor) tolerance s (
            times_right h _
              (rw (lt_left (factor tolerance r.error) min_factor factor_nan) factor_nan)))
