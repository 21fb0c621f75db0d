-- ===== src/Invariants/Linear.antt =====
-- TaskManager.cpp and the solvers, in exact arithmetic: the sum of the components of a point.
use odeclient_server.Base.Lists.{
  ℕ, zero, suc, ◌≡◌, ◌∙◌, sym, ap, refl, List, [], ◌∷◌, map, length, replicate, arith,
}
use odeclient_server.Base.Outcome.{throws, Post, returns}
use odeclient_server.Base.Double.{Double, lit, ◌+◌, ◌-◌, ◌*◌, negate}
use odeclient_server.Base.Ring.{
  RingLaws, plus_interchange, negate_plus, zero_plus, times_zero, negate_times,
}
use odeclient_server.Vectors.{zip_with}
use odeclient_server.Solver.{OdeFunction}
use odeclient_server.Tasks.{
  Parameters, fetch, robertson_system, robertson_system_rhs, call, ode_function,
}
use odeclient_server.Invariants.{Any, IsInvariant}

module _ {ℓ} {W : Type ℓ} ⦃d : Double W⦄ where
  -- The sum of the components.
  abbrev pub total : List W → W
  total [] = lit 0 0
  total (x ∷ xs) = x + total xs

module _ {ℓ} {W : Type ℓ} ⦃d : Double W⦄ (ring : RingLaws W) where
  total-zip_with :
      (xs ys : List W)
      → length xs ≡ length ys
      → total (zip_with (λ x y. x + y) xs ys) ≡ total xs + total ys
  total-zip_with [] [] e = sym (ring.plus_zero (lit 0 0))
  total-zip_with [] (y ∷ ys) e = absurd (omega arith)
  total-zip_with (x ∷ xs) [] e = absurd (omega arith)
  total-zip_with (x ∷ xs) (y ∷ ys) e =
      ap (λ s. (x + y) + s) (total-zip_with xs ys (omega arith))
      ∙ plus_interchange ring x y (total xs) (total ys)

  total-scaled : (s : W) (xs : List W) → total (map (λ x. s * x) xs) ≡ s * total xs
  total-scaled s [] = sym (times_zero ring s)
  total-scaled s (x ∷ xs) =
      ap (λ r. s * x + r) (total-scaled s xs) ∙ sym (ring.times_plus s x (total xs))

  total-scaled_right : (s : W) (xs : List W) → total (map (λ x. x * s) xs) ≡ s * total xs
  total-scaled_right s [] = sym (times_zero ring s)
  total-scaled_right s (x ∷ xs) =
      rw (total-scaled_right s xs, ring.times_comm x s) (sym (ring.times_plus s x (total xs)))

  total-zeros : (n : ℕ) → total (replicate n (lit {W = W} 0 0)) ≡ lit 0 0
  total-zeros zero = refl
  total-zeros (suc n) = zero_plus ring _ ∙ total-zeros n

  -- Where the slopes sum to 0, the points of one total are an invariant family.
  pub total-IsInvariant :
      (f : OdeFunction W)
      → ((t : W) (y : List W) → Post (λ z. total z ≡ lit 0 0) Any (f t y))
      → (c : W) → IsInvariant f (λ y. total y ≡ c) (λ z. total z ≡ lit 0 0)
  total-IsInvariant f flat c = record {
    slope = λ t y p. flat t y;
    zeros = total-zeros;
    sum = λ a b e za zb. rw (total-zip_with a b e, za, zb) (ring.plus_zero (lit 0 0));
    move = λ y z e p zz. rw (total-zip_with y z e, p, zz) (ring.plus_zero c);
    scale_left = λ s z zz. rw (total-scaled s z, zz) (times_zero ring s);
    scale_right = λ s z zz. rw (total-scaled_right s z, zz) (times_zero ring s);
  }

  -- The three rates of the reactions of Robertson's problem cancel.
  rates_cancel :
      (a b c b' : W) → b' + b ≡ lit 0 0 → (b' + a) + (((b - a) - c) + (c + lit 0 0)) ≡ lit 0 0
  rates_cancel a b c b' e =
      rw (ring.plus_zero c, ring.minus_eq (b - a) c, ring.minus_eq b a)
        (ap (λ x. (b' + a) + x)
            (ring.plus_assoc (b + negate a) (negate c) c
              ∙ ap (λ x. (b + negate a) + x) (negate_plus ring c)
              ∙ ring.plus_zero (b + negate a))
          ∙ plus_interchange ring b' a b (negate a)
          ∙ ap (λ x. x + (a + negate a)) e
          ∙ zero_plus ring (a + negate a)
          ∙ ring.plus_negate a)

  pub robertson-total :
      (parameters : Parameters W) (t : W) (y : List W)
      → Post (λ z. total z ≡ lit 0 0) Any (ode_function robertson_system parameters t y)
  unfolding ode_function call robertson_system_rhs
  robertson-total parameters t [] = throws tt
  robertson-total parameters t (y0 ∷ []) = throws tt
  robertson-total parameters t (y0 ∷ (y1 ∷ [])) = throws tt
  robertson-total parameters t (y0 ∷ (y1 ∷ (y2 ∷ rest))) =
      let (k1, params1) = fetch "k1" parameters in
      let (k2, params2) = fetch "k2" params1 in
      let k3 = (fetch "k3" params2).0 in
      returns (
        rates_cancel (k2 * y1 * y2) (k1 * y0) (k3 * y1 * y1) (negate k1 * y0)
          (negate_times ring k1 y0))
