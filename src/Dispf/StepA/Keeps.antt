-- ===== src/Dispf/StepA/Keeps.antt =====
-- DISPFSolver::StepDISPFA on a system of equations.
use odeclient_server.Base.Lists.{ℕ, zero, suc, refl, List, HasSize, arith, Bool-cases, inl, inr}
use odeclient_server.Base.Outcome.{
  Yields, yields, Yields-bind, Yields-Post, Post, returns, spins, Never, Post-bind, Post-after,
}
use odeclient_server.Base.Double.{Double, lit, ◌+◌, ◌*◌, lt}
use odeclient_server.Solver.{OdeFunction, IsSystem}
use odeclient_server.Dispf.{Config, Members, p72, ca1a}
use odeclient_server.Dispf.Sizes.{
  IsMatrix, dot-Total, stad_scalar-Total, points-Yields, set_column-Yields, scale_column-Yields,
  max_over-Yields, end_error-Yields, calc_vn-Yields, stages-Yields,
}
use odeclient_server.Dispf.Control.{control-Controlled}
use odeclient_server.Dispf.Steps.{Keeps, keeps, switch_a-Switched, first_difference-Total}
use odeclient_server.Dispf.StepA.{Started, first_difference, start_a, accept_a, step_dispfa}

module _ {ℓ} {W : Type ℓ} ⦃d : Double W⦄ (f : OdeFunction W) (config : Config W) (n : ℕ)
    (system : IsSystem n f) where
  start_a-Yields :
      (fuel : ℕ) (t : W) (y : List W) (h tolerance : W) (k : List (List W))
      → HasSize n y
      → IsMatrix n k
      → Post (λ (r : Started W). IsMatrix n r.k) Never (start_a f fuel t y h tolerance k)
  unfolding start_a
  start_a-Yields zero t y h tolerance k size m = spins
  start_a-Yields (suc fuel) t y h tolerance k size m = rw size.sized (
      Post-after (points-Yields _ n y k (stad_scalar-Total 1 (omega arith)) size.sized m) λ y0 s0.
        Post-after (system _ y0 s0) λ f_stage s_f.
          Post-after (set_column-Yields 1 h n f_stage k (omega arith) s_f m) λ k' m'.
            Post-after (max_over-Yields first_difference n k' (lit 0 0) first_difference-Total m')
              λ largest _. elim (Bool-cases (lt tolerance (largest * ca1a))) [
                | inl above ↦ rw above (
                    Post-after (scale_column-Yields _ n k' m')
                      λ k'' m''. start_a-Yields fuel t y _ tolerance k'' size m'')
                | inr within ↦ rw within (returns m')
              ])

  accept_a-Keeps :
      (t : W) (y y' : List W) (h tolerance an1 : W) (f_end : List W) (k : List (List W))
      (s : Members W)
      → HasSize n y
      → HasSize n y'
      → HasSize n f_end
      → IsMatrix n k
      → Yields (Keeps config n s) (accept_a f config t y y' h tolerance an1 f_end k s)
  unfolding accept_a
  accept_a-Keeps t y y' h tolerance an1 f_end k s size size' s_end m = rw size.sized (
      Yields-bind (calc_vn-Yields n k m) λ vn1 _.
        Yields-bind (set_column-Yields 0 _ n f_end k (omega arith) s_end m) λ k' m'.
          Yields-bind (control-Controlled f n system config 40 (lit 72 0) (t + h) y' _ _ size')
            λ s' c.
              yields
                (keeps config n 40 s s' _ k' y' _ m' size' c (switch_a-Switched config _ _ vn1 s')))

  pub step_dispfa-Keeps :
      (inner fuel : ℕ) (t : W) (y : List W) (h tolerance : W) (s : Members W)
      → HasSize n y
      → IsMatrix n s.k
      → Post (Keeps config n s) Never (step_dispfa f config inner fuel t y h tolerance s)
  unfolding step_dispfa
  step_dispfa-Keeps inner zero t y h tolerance s size m = spins
  step_dispfa-Keeps inner (suc fuel) t y h0 tolerance s size m = rw size.sized (
      Post-bind (start_a-Yields inner t y h0 tolerance s.k size m) λ r m'.
        Post-after (stages-Yields f n system 4 2 t y r.h r.k (omega arith) (omega arith) size m')
          λ k mk.
            Post-after
              (points-Yields _ n y k (dot-Total p72 (record { sized = refl })) size.sized mk)
              λ y' size'. Post-after (system _ y' size') λ f_end s_end.
                Post-after (end_error-Yields r.h n f_end k (lit 0 0) s_end mk) λ largest _.
                  elim (Bool-cases (lt tolerance (largest * ca1a))) [
                    | inl above ↦ rw above (
                        Post-after (scale_column-Yields _ n k mk) λ k' m''.
                          step_dispfa-Keeps inner fuel t y _ tolerance (record s { k = k' }) size
                            m'')
                    | inr within ↦ rw within (
                        Yields-Post
                          (accept_a-Keeps t y y' r.h tolerance _ f_end k s size size' s_end mk))
                  ])
