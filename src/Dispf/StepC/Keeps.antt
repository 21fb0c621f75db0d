-- ===== src/Dispf/StepC/Keeps.antt =====
-- DISPFSolver::StepDISPFC on a system of equations.
use odeclient_server.Base.Lists.{ℕ, zero, suc, refl, List, HasSize, arith, Bool-cases, inl, inr}
use odeclient_server.Base.Outcome.{
  Yields, yields, Yields-bind, Yields-Post, Post, spins, Never, Post-after,
}
use odeclient_server.Base.Double.{Double, lit, ◌+◌, lt}
use odeclient_server.Solver.{OdeFunction, IsSystem}
use odeclient_server.Dispf.{Config, Members, p36, shrink}
use odeclient_server.Dispf.Sizes.{
  IsMatrix, dot-Total, points-Yields, set_column-Yields, scale_column-Yields, end_error-Yields,
  calc_vn-Yields, stages-Yields,
}
use odeclient_server.Dispf.Control.{control-Controlled}
use odeclient_server.Dispf.Steps.{Keeps, keeps, cn1-Yields, switch_c-Switched}
use odeclient_server.Dispf.StepC.{finish_c, loop_c, step_dispfc}

module _ {ℓ} {W : Type ℓ} ⦃d : Double W⦄ (f : OdeFunction W) (config : Config W) (n : ℕ)
    (system : IsSystem n f) where
  finish_c-Keeps :
      (t : W) (y : List W) (h tolerance : W) (k : List (List W)) (s : Members W)
      → HasSize n y
      → IsMatrix n k
      → Yields (Keeps config n s) (finish_c f config t y h tolerance k s)
  unfolding finish_c
  finish_c-Keeps t y h tolerance k s size m = rw size.sized (
      Yields-bind (points-Yields _ n y k (dot-Total p36 (record { sized = refl })) size.sized m)
        λ y' size'. Yields-bind (system _ y' size') λ ff s_ff.
          Yields-bind (end_error-Yields h n ff k (lit 0 0) s_ff m) λ largest _.
            Yields-bind (calc_vn-Yields n k m) λ vn _.
              Yields-bind (control-Controlled f n system config 34 (lit 72 0) (t + h) y' h _ size')
                λ s' c. yields (
                  keeps config n 34 s s' _ k y' _ m size' c
                    (switch_c-Switched config tolerance _ _ s')))

  loop_c-Keeps :
      (fuel : ℕ) (t : W) (y : List W) (h tolerance : W) (k : List (List W)) (s : Members W)
      → HasSize n y
      → IsMatrix n k
      → Post (Keeps config n s) Never (loop_c f config fuel t y h tolerance k s)
  unfolding loop_c
  loop_c-Keeps zero t y h tolerance k s size m = spins
  loop_c-Keeps (suc fuel) t y h tolerance k s size m = rw size.sized (
      Post-after (stages-Yields f n system 5 1 t y h k (omega arith) (omega arith) size m) λ k' m'.
        Post-after (cn1-Yields n k' m') λ error _. elim (Bool-cases (lt tolerance error)) [
          | inl above ↦ rw above (
              Post-after (scale_column-Yields (shrink tolerance error) n k' m')
                λ k'' m''. loop_c-Keeps fuel t y _ tolerance k'' s size m'')
          | inr within ↦ rw within (Yields-Post (finish_c-Keeps t y h tolerance k' s size m'))
        ])

  pub step_dispfc-Keeps :
      (fuel : ℕ) (t : W) (y : List W) (h tolerance : W) (s : Members W)
      → HasSize n y
      → IsMatrix n s.k
      → Post (Keeps config n s) Never (step_dispfc f config fuel t y h tolerance s)
  unfolding step_dispfc
  step_dispfc-Keeps fuel t y h tolerance s size m = rw size.sized (
      Post-after (system t y size) λ ff s_ff.
        Post-after (set_column-Yields 0 h n ff s.k (omega arith) s_ff m)
          λ k m'. loop_c-Keeps fuel t y h tolerance k s size m')
