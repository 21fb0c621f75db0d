-- ===== src/Rk2/Exact.antt =====
-- RK2Solver::Step on y0' = 1, y1' = y0, in exact arithmetic.
use odeclient_server.Base.Lists.{true, ℕ, ◌≤◌, ◌≡◌, ◌∙◌, refl, sym, ap, List, [], ◌∷◌}
use odeclient_server.Base.Outcome.{ok, Yields, yields, Yields-ok}
use odeclient_server.Base.Double.{Double, lit, ◌+◌, ◌*◌, ◌/◌, clamp, le}
use odeclient_server.Base.Ring.{plus_times, times_one}
use odeclient_server.Base.Field.{
  FieldLaws, ne_times, quotient_plus, quotient_times, quotient_self, quotient_cancel,
}
use odeclient_server.Vectors.{multiply_scalar_by_vector, add_vectors, subtract_vectors}
use odeclient_server.Solver.Parabola.{parabola, exact, weighted, first_stage}
use odeclient_server.Rk2.{Trial, trial, step, p1, p2, b21, factor, min_factor, max_factor}
use odeclient_server.Rk2.Step.{Tries, settled, tried, step_of_tries}

module _ {ℓ} {W : Type ℓ} ⦃d : Double W⦄ where
  -- A point of the solution, at the size of a try within the tolerance that leads there; the size
  -- that `Step` leaves is that one scaled.
  pub record IsOnSolution (t x y tolerance : W) (r : List W × W) : Type ℓ where
    pub size : W
    pub error : W
    pub tried :
        trial parabola t (x ∷ y ∷ []) size ≡ ok (record { y_next = exact x y size; error = error })
    pub within : le error tolerance ≡ true
    pub on_solution : r.0 ≡ exact x y size
    pub scaled : r.1 ≡ size * clamp (factor tolerance error) min_factor max_factor

module _ {ℓ} {W : Type ℓ} ⦃d : Double W⦄ (field : FieldLaws W) where
  -- The weights sum to 1.
  weights : p1 {W = W} + p2 ≡ lit 1 0
  weights =
      quotient_plus field 1 3 4
      ∙ quotient_self field 4 (ne_times field 2 2 field.two_ne field.two_ne)

  -- The weight of the second stage times its node is 1/2.
  moment : p2 {W = W} * b21 ≡ lit 1 0 / lit 2 0
  moment =
      let ne4 = ne_times field 2 2 field.two_ne field.two_ne in
      quotient_times field 3 4 2 3 ne4 field.three_ne
      ∙ quotient_cancel field 6 1 2 (ne_times field 2 3 field.two_ne field.three_ne) field.two_ne

  trial-exact :
      (t x y h : W)
      → Yields (λ (r : Trial W). r.y_next ≡ exact x y h) (trial parabola t (x ∷ y ∷ []) h)
  unfolding trial multiply_scalar_by_vector add_vectors subtract_vectors
  trial-exact t x y h =
      let ring = field.ring in
      let first : x + (p1 * (h * lit 1 0) + p2 * (h * lit 1 0)) ≡ x + h =
        ap (λ r. x + r)
          (sym (plus_times ring p1 p2 (h * lit 1 0))
            ∙ ap (λ r. r * (h * lit 1 0)) weights
            ∙ ring.one_times _
            ∙ times_one ring h) in
      let second : p1 * (h * x) + p2 * (h * (x + b21 * (h * lit 1 0)))
          ≡ h * x + (lit 1 0 / lit 2 0) * (h * h) =
        ap (λ r. p1 * (h * x) + r) (weighted ring h x p2 b21)
        ∙ first_stage ring h x p1 p2 (p2 * b21)
        ∙ ap (λ r. r * (h * x) + (p2 * b21) * (h * h)) weights
        ∙ ap (λ r. r + (p2 * b21) * (h * h)) (ring.one_times (h * x))
        ∙ ap (λ r. h * x + r * (h * h)) moment in
      rw (first, second) (yields refl)

  Tries-IsOnSolution :
      {t x y tolerance h : W} {r : List W × W}
      → Tries parabola t (x ∷ y ∷ []) tolerance h r
      → IsOnSolution t x y tolerance r
  Tries-IsOnSolution {t} {x} {y} (settled {h} {r} e within) =
      let on_solution = Yields-ok (rw e at (trial-exact t x y h)) in
      record {
        size = h;
        error = r.error;
        tried = e ∙ ap (λ y_next. ok (record { y_next = y_next; error = r.error })) on_solution;
        within = within;
        on_solution = on_solution;
        scaled = refl;
      }
  Tries-IsOnSolution (tried e above rest) = Tries-IsOnSolution rest

  -- In exact arithmetic, on y0' = 1, y1' = y0, where one of the tries of RK2Solver::Step is within
  -- the tolerance, it returns, given enough fuel, the point (x + h, y + h x + h^2 / 2), which is
  -- the solution after the size h of a try within the tolerance, and h scaled by the growth factor
  -- of its error. Exact arithmetic is that +, * and / meet the laws of a field in which 2 and 3 are
  -- not 0 and the integer literals are sums of ones.
  pub rk2_step-IsOnSolution :
      (t x y h tolerance : W) {result : List W × W}
      → Tries parabola t (x ∷ y ∷ []) tolerance h result
      → IsOnSolution t x y tolerance result
        × ((enough : ℕ) × ((fuel : ℕ)
              → enough ≤ fuel
              → step parabola fuel t (x ∷ y ∷ []) h tolerance ≡ ok result))
  rk2_step-IsOnSolution t x y h tolerance tries =
      (Tries-IsOnSolution tries, step_of_tries parabola tries)
