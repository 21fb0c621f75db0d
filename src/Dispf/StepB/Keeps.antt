-- ===== src/Dispf/StepB/Keeps.antt =====
-- DISPFSolver::StepDISPFB on a system of equations.
use odeclient_server.Base.Lists.{ℕ, zero, suc, refl, List, HasSize, arith, Bool-cases, inl, inr}
use odeclient_server.Base.Outcome.{
  Yields, yields, Yields-bind, Yields-Post, Post, returns, spins, Never, Post-bind, Post-after,
}
use odeclient_server.Base.Double.{Double, lit, ◌+◌, ◌*◌, lt}
use odeclient_server.Solver.{OdeFunction, IsSystem}
use odeclient_server.Dispf.{Stepped, Config, Members, p28, ca1b, d_coef}
use odeclient_server.Dispf.Sizes.{
  IsMatrix, dot-Total, points-Yields, set_column-Yields, scale_column-Yields, max_over-Yields,
  end_error-Yields, calc_vn-Yields, stages-Yields,
}
use odeclient_server.Dispf.Control.{control-Controlled}
use odeclient_server.Dispf.Steps.{
  Keeps, keeps, cn1-Yields, switch_b-Switched, first_difference-Total, quarter-Total,
}
use odeclient_server.Dispf.StepA.{Started, first_difference}
use odeclient_server.Dispf.StepB.{start_b, accept_b, step_dispfb}

module _ {ℓ} {W : Type ℓ} ⦃d : Double W⦄ (f : OdeFunction W) (config : Config W) (n : ℕ)
    (system : IsSystem n f) where
  start_b-Yields :
      (fuel : ℕ) (t : W) (y : List W) (h tolerance : W) (k : List (List W))
      → HasSize n y
      → IsMatrix n k
      → Post (λ (r : Started W). IsMatrix n r.k) Never (start_b f fuel t y h tolerance k)
  unfolding start_b
  start_b-Yields zero t y h tolerance k size m = spins
  start_b-Yields (suc fuel) t y h tolerance k size m = rw size.sized (
      Post-after (points-Yields _ n y k quarter-Total size.sized m) λ y0 s0.
        Post-after (system _ y0 s0) λ f_stage s_f.
          Post-after (set_column-Yields 1 h n f_stage k (omega arith) s_f m) λ k' m'.
            Post-after (max_over-Yields first_difference n k' (lit 0 0) first_difference-Total m')
              λ largest _. elim (Bool-cases (lt tolerance (largest * (ca1b * d_coef)))) [
                | inl above ↦ rw above (
                    Post-after (scale_column-Yields _ n k' m')
                      λ k'' m''. start_b-Yields fuel t y _ tolerance k'' size m'')
                | inr within ↦ rw within (returns m')
              ])

  pub accept_b-Keeps :
      (t : W) (y y' : List W) (h tolerance an1 : W) (f_end : List W) (k : List (List W))
      (s : Members W)
      → HasSize n y
      → HasSize n y'
      → HasSize n f_end
      → IsMatrix n k
      → Yields (Keeps config n s) (accept_b f config t y y' h tolerance an1 f_end k s)
  unfolding accept_b
  accept_b-Keeps t y y' h tolerance an1 f_end k s size size' s_end m = rw size.sized (
      Yields-bind (cn1-Yields n k m) λ error _. Yields-bind (calc_vn-Yields n k m) λ vn1 _.
        Yields-bind (set_column-Yields 0 _ n f_end k (omega arith) s_end m) λ k' m'.
          Yields-bind (control-Controlled f n system config 40 (lit 285 1) (t + h) y' _ _ size')
            λ s1 c1.
              Yields-bind (control-Controlled f n system config 40 (lit 285 1) (t + h) y' _ _ size')
                λ s2 c2.
                  let sw = switch_b-Switched config tolerance _ _ vn1 an1 error s1 in
                  let r = keeps config n 40 s s1 _ k' y' h m' size' c1 sw in
                  yields (record {
                    size = size';
                    matrix = rw c2.k_eq r.matrix;
                    fixed = λ e. rw c2.method_eq (r.fixed e);
                    uncontrolled = λ e. rw (c2.disabled e) (r.uncontrolled e);
                  }))

  -- What the acceptance gives, for any point, size and matrix that the step comes to, the step gives.
  pub step_dispfb-Post {κ} :
      (P : Stepped W → Type κ) (inner fuel : ℕ) (t : W) (y : List W) (h tolerance : W)
      (s : Members W)
      → ((y' : List W) (h' an1 : W) (f_end : List W) (k k0 : List (List W))
          → HasSize n y'
          → HasSize n f_end
          → IsMatrix n k
          → Yields P (accept_b f config t y y' h' tolerance an1 f_end k (record s { k = k0 })))
      → HasSize n y
      → IsMatrix n s.k
      → Post P Never (step_dispfb f config inner fuel t y h tolerance s)
  unfolding step_dispfb
  step_dispfb-Post P inner zero t y h tolerance s accepts size m = spins
  step_dispfb-Post P inner (suc fuel) t y h0 tolerance s accepts size m = rw size.sized (
      Post-bind (start_b-Yields inner t y h0 tolerance s.k size m) λ r m'.
        Post-after (stages-Yields f n system 4 2 t y r.h r.k (omega arith) (omega arith) size m')
          λ k mk.
            Post-after
              (points-Yields _ n y k (dot-Total p28 (record { sized = refl })) size.sized mk)
              λ y' size'. Post-after (system _ y' size') λ f_end s_end.
                Post-after (end_error-Yields r.h n f_end k (lit 0 0) s_end mk) λ largest _.
                  elim (Bool-cases (lt tolerance (largest * (ca1b * d_coef)))) [
                    | inl above ↦ rw above (
                        Post-after (scale_column-Yields _ n k mk) λ k' m''.
                          step_dispfb-Post P inner fuel t y _ tolerance (record s { k = k' })
                            accepts size m'')
                    | inr within ↦
                        rw within (Yields-Post (accepts y' r.h _ f_end k s.k size' s_end mk))
                  ])

  pub step_dispfb-Keeps :
      (inner fuel : ℕ) (t : W) (y : List W) (h tolerance : W) (s : Members W)
      → HasSize n y
      → IsMatrix n s.k
      → Post (Keeps config n s) Never (step_dispfb f config inner fuel t y h tolerance s)
  step_dispfb-Keeps inner fuel t y h tolerance s size m =
      step_dispfb-Post (Keeps config n s) inner fuel t y h tolerance s
        (λ y' h' an1 f_end k k0.
          accept_b-Keeps t y y' h' tolerance an1 f_end k (record s { k = k0 }) size)
        size m
