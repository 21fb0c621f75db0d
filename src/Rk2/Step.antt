-- ===== src/Rk2/Step.antt =====
-- RK2Solver::Step: its tries, and what it returns.
pub mod Nan
use odeclient_server.Base.Lists.{
  arith, ◌≤◌, ℕ, zero, suc, ◌≡◌, ◌⊎◌, refl, List, HasSize, true, false, Bool-cases, inl, inr,
}
use odeclient_server.Base.Outcome.{
  Post-map, Outcome, ok, Error, Post, returns, spins, Never, Yields, yields, Yields-value,
  Yields-bind, ◌>>=◌,
}
use odeclient_server.Base.Loop.{Flow, again, stop, loop, Owes, loop-Post}
use odeclient_server.Base.Double.{
  Double, lit, ◌+◌, ◌-◌, ◌*◌, lt, le, min, max, clamp, IsIrreflexive, Scaled, clamp-Scaled,
}
use odeclient_server.Vectors.Laws.{add-Yields, subtract-Yields, multiply_scalar-HasSize}
use odeclient_server.Storage.{Storage, Row, add}
use odeclient_server.Solver.{OdeFunction, IsSystem, Run}
use odeclient_server.Solver.Trail.{Trail, Trail-start, Trail-add}
use odeclient_server.Rk2.{Trial, trial, factor, min_factor, max_factor, step, round, settle, solve}

module _ {ℓ} {W : Type ℓ} ⦃d : Double W⦄ (f : OdeFunction W) where
  trial-Yields :
      (n : ℕ)
      → IsSystem n f
      → (t : W) (y : List W) (h : W) → HasSize n y
      → Yields (λ (r : Trial W). HasSize n r.y_next) (trial f t y h)
  unfolding trial
  trial-Yields n system t y h s = Yields-bind (system t y s) λ f1 e1.
      let k1 = multiply_scalar-HasSize n h e1 in
      Yields-bind (add-Yields n s (multiply_scalar-HasSize n _ k1)) λ y2 s2.
        Yields-bind (system _ y2 s2) λ f2 e2.
          let k2 = multiply_scalar-HasSize n h e2 in
          Yields-bind
            (add-Yields n (multiply_scalar-HasSize n _ k1) (multiply_scalar-HasSize n _ k2))
            λ k12 s12. Yields-bind (add-Yields n s s12) λ y_next s_next.
              Yields-bind (system _ y_next s_next) λ f_next e_next.
                Yields-bind (subtract-Yields n k2 k1) λ diff1 _.
                  Yields-bind (subtract-Yields n (multiply_scalar-HasSize n h e_next) k1)
                    λ diff2 _. yields s_next

  -- `Step` has tried sizes from `h` on down to one within the tolerance, each the last one scaled by
  -- the shrinking factor; it moves to the point of that trial and scales its size.
  pub data Tries (t : W) (y : List W) (tolerance : W) : W → List W × W → Type ℓ where
    settled :
        {h : W} {r : Trial W}
        → trial f t y h ≡ ok r
        → le r.error tolerance ≡ true
        → Tries t y tolerance h
            (r.y_next, h * clamp (factor tolerance r.error) min_factor max_factor)
    tried :
        {h : W} {r : Trial W} {result : List W × W}
        → trial f t y h ≡ ok r
        → le r.error tolerance ≡ false
        → Tries t y tolerance (h * max (factor tolerance r.error) min_factor) result
        → Tries t y tolerance h result

  -- For a system of `n` equations `Step` throws nothing: it goes on trying, or returns a point of `n`
  -- numbers that it has reached by `Tries`.
  pub step-Tries :
      (n : ℕ)
      → IsSystem n f
      → (fuel : ℕ) (t : W) (y : List W) (h tolerance : W) → HasSize n y
      → Post (λ r. Tries t y tolerance h r × HasSize n r.0) Never (step f fuel t y h tolerance)
  unfolding step
  step-Tries n system zero t y h tolerance s = spins
  step-Tries n system (suc fuel) t y h tolerance s =
      let (r, e, s') = Yields-value (trial-Yields n system t y h s) in
      elim (Bool-cases (le r.error tolerance)) [
        | inl within ↦ rw (e, within) (returns (settled e within, s'))
        | inr above ↦
            rw (e, above)
              (Post-map (λ result p. (tried e above p.0, p.1))
                (step-Tries n system fuel t y (h * max (factor tolerance r.error) min_factor)
                  tolerance s))
      ]

  -- Where `Tries` leads to a result, `Step` returns it with any fuel from some amount on.
  pub step_of_tries :
      {t : W} {y : List W} {tolerance h : W} {result : List W × W}
      → Tries t y tolerance h result
      → (enough : ℕ) × ((fuel : ℕ) → enough ≤ fuel → step f fuel t y h tolerance ≡ ok result)
  unfolding step
  step_of_tries {t} {y} {tolerance} {h} {result} (settled {r = r} e within) = (1, λ fuel. go fuel)
    where
      go : (fuel : ℕ) → 1 ≤ fuel → step f fuel t y h tolerance ≡ ok result
      go zero h_le = absurd (omega arith)
      go (suc fuel) h_le = rw (e, within)
  step_of_tries {t} {y} {tolerance} {h} {result} (tried {r = r} e above rest) =
      let (enough, ih) = step_of_tries rest in (suc enough, λ fuel. go enough ih fuel)
    where
      go :
          (enough : ℕ)
          → ((fuel : ℕ)
              → enough ≤ fuel
              → step f fuel t y (h * max (factor tolerance r.error) min_factor) tolerance
                ≡ ok result)
          → (fuel : ℕ) → suc enough ≤ fuel
          → step f fuel t y h tolerance ≡ ok result
      go enough ih zero h_le = absurd (omega arith)
      go enough ih (suc fuel) h_le = rw (e, above) (ih fuel (omega arith))
