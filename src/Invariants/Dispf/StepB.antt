-- ===== src/Invariants/Dispf/StepB.antt =====
-- DISPFSolver::StepDISPFB in an invariant family.
use odeclient_server.Base.Lists.{◌≡◌, ℕ, zero, suc, refl, List, arith, Bool-cases, inl, inr}
use odeclient_server.Base.Outcome.{Post, returns, spins, Post-bind, Post-after}
use odeclient_server.Base.Double.{Double, lit, ◌+◌, ◌*◌, ◌/◌, lt}
use odeclient_server.Solver.{OdeFunction, IsSystem}
use odeclient_server.Dispf.{
  Config, Members, p28, ca1b, d_coef, max_over, end_error, calc_vn, points,
}
use odeclient_server.Dispf.Control.{control-Controlled}
use odeclient_server.Dispf.Steps.{switch_b-Switched, quarter-Total}
use odeclient_server.Dispf.StepA.{Started, first_difference}
use odeclient_server.Dispf.StepB.{quarter, start_b, accept_b, step_dispfb}
use odeclient_server.Dispf.StepC.{cn1}
use odeclient_server.Invariants.{Any, anything, IsInvariant}
use odeclient_server.Invariants.Columns.{
  HasColumns, Point, Increment, slope_at, set_column_at, scale_column_at, point_at,
  multiple-columns, at-Post, entry,
}
use odeclient_server.Invariants.Dispf.{Stays, weighted_at, stages_at}

module _ {ℓ} {W : Type ℓ} ⦃d : Double W⦄ {f : OdeFunction W} {P Z : List W → Type ℓ}
    (inv : IsInvariant f P Z) (n : ℕ) (system : IsSystem n f) (config : Config W) where
  quarter-Post : (row : List W) → Post (λ x. x ≡ lit 1 0 / lit 4 0 * entry row 0) Any (quarter row)
  unfolding quarter
  quarter-Post row = Post-bind (at-Post row) λ k0 e. returns (rw e)

  quarter_at :
      {y : List W} {k : List (List W)}
      → Point inv n y
      → HasColumns inv n k
      → Post (Point inv n) Any (points quarter y k)
  quarter_at {k = k} p cols =
      point_at inv n system quarter _ quarter-Post quarter-Total p cols
        (multiple-columns inv n (lit 1 0 / lit 4 0) k cols)

  start_b-Post :
      (fuel : ℕ) (t : W) {y : List W} (h tolerance : W) {k : List (List W)}
      → Point inv n y
      → HasColumns inv n k
      → Post (λ (r : Started W). HasColumns inv n r.k) Any (start_b f fuel t y h tolerance k)
  unfolding start_b
  start_b-Post zero t h tolerance p cols = spins
  start_b-Post (suc fuel) t {y} h tolerance p cols = rw p.1.sized (
      Post-bind (quarter_at p cols) λ y0 p0. Post-bind (slope_at inv n system _ p0) λ f_stage z.
        Post-bind (set_column_at inv n system 1 h (omega arith) z cols) λ k' cols'.
          Post-bind (anything (max_over first_difference n k' (lit 0 0))) λ largest _.
            elim (Bool-cases (lt tolerance (largest * (ca1b * d_coef)))) [
              | inl above ↦ rw above (
                  Post-bind (scale_column_at inv n system _ cols')
                    λ k'' cols''. start_b-Post fuel t _ tolerance p cols'')
              | inr within ↦ rw within (returns cols')
            ])

  accept_b-Post :
      (t : W) {y y' : List W} (h tolerance an1 : W) {f_end : List W} {k : List (List W)}
      (s : Members W)
      → Point inv n y
      → Point inv n y'
      → Increment inv n f_end
      → HasColumns inv n k
      → Post (Stays inv n) Any (accept_b f config t y y' h tolerance an1 f_end k s)
  unfolding accept_b
  accept_b-Post t {y} {y'} h tolerance an1 {f_end} {k} s p p' z cols = rw p.1.sized (
      Post-bind (anything (cn1 n k)) λ error _. Post-bind (anything (calc_vn k)) λ vn1 _.
        Post-bind (set_column_at inv n system 0 _ (omega arith) z cols) λ k' cols'.
          Post-after (control-Controlled f n system config 40 (lit 285 1) (t + h) y' _ _ p'.1)
            λ s1 c1.
              Post-after (control-Controlled f n system config 40 (lit 285 1) (t + h) y' _ _ p'.1)
                λ s2 c2. returns (record {
                  point = p';
                  columns =
                      rw
                        (
                          c2.k_eq,
                          (switch_b-Switched config tolerance _ _ vn1 an1 error s1).k_eq,
                          c1.k_eq,
                        )
                        cols';
                }))

  pub step_dispfb-Post :
      (inner fuel : ℕ) (t : W) {y : List W} (h tolerance : W) (s : Members W)
      → Point inv n y
      → HasColumns inv n s.k
      → Post (Stays inv n) Any (step_dispfb f config inner fuel t y h tolerance s)
  unfolding step_dispfb
  step_dispfb-Post inner zero t h tolerance s p cols = spins
  step_dispfb-Post inner (suc fuel) t {y} h0 tolerance s p cols = rw p.1.sized (
      Post-bind (start_b-Post inner t h0 tolerance p cols) λ r cols1.
        Post-bind (stages_at inv n system 4 2 t r.h (omega arith) p cols1) λ k cols2.
          Post-bind (weighted_at inv n system p28 (record { sized = refl }) p cols2) λ y' p'.
            Post-bind (slope_at inv n system _ p') λ f_end z.
              Post-bind (anything (end_error r.h n f_end k (lit 0 0))) λ largest _.
                elim (Bool-cases (lt tolerance (largest * (ca1b * d_coef)))) [
                  | inl above ↦ rw above (
                      Post-bind (scale_column_at inv n system _ cols2) λ k' cols3.
                        step_dispfb-Post inner fuel t _ tolerance (record s { k = k' }) p cols3)
                  | inr within ↦ rw within (accept_b-Post t r.h tolerance _ s p p' z cols2)
                ])
