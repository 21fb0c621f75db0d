-- ===== src/Invariants/Dispf/StepA.antt =====
-- DISPFSolver::StepDISPFA in an invariant family.
use odeclient_server.Base.Lists.{ℕ, zero, suc, refl, List, arith, Bool-cases, inl, inr}
use odeclient_server.Base.Outcome.{Post, returns, spins, Post-bind, Post-after}
use odeclient_server.Base.Double.{Double, lit, ◌+◌, ◌*◌, lt}
use odeclient_server.Solver.{OdeFunction, IsSystem}
use odeclient_server.Dispf.{Config, Members, p72, ca1a, max_over, end_error, calc_vn}
use odeclient_server.Dispf.Control.{control-Controlled}
use odeclient_server.Dispf.Steps.{switch_a-Switched}
use odeclient_server.Dispf.StepA.{Started, first_difference, start_a, accept_a, step_dispfa}
use odeclient_server.Invariants.{Any, anything, IsInvariant}
use odeclient_server.Invariants.Columns.{
  HasColumns, Point, Increment, slope_at, set_column_at, scale_column_at,
}
use odeclient_server.Invariants.Dispf.{Stays, stad_scalar_at, weighted_at, stages_at}

module _ {ℓ} {W : Type ℓ} ⦃d : Double W⦄ {f : OdeFunction W} {P Z : List W → Type ℓ}
    (inv : IsInvariant f P Z) (n : ℕ) (system : IsSystem n f) (config : Config W) where
  start_a-Post :
      (fuel : ℕ) (t : W) {y : List W} (h tolerance : W) {k : List (List W)}
      → Point inv n y
      → HasColumns inv n k
      → Post (λ (r : Started W). HasColumns inv n r.k) Any (start_a f fuel t y h tolerance k)
  unfolding start_a
  start_a-Post zero t h tolerance p cols = spins
  start_a-Post (suc fuel) t {y} h tolerance p cols = rw p.1.sized (
      Post-bind (stad_scalar_at inv n system 1 (omega arith) p cols) λ y0 p0.
        Post-bind (slope_at inv n system _ p0) λ f_stage z.
          Post-bind (set_column_at inv n system 1 h (omega arith) z cols) λ k' cols'.
            Post-bind (anything (max_over first_difference n k' (lit 0 0))) λ largest _.
              elim (Bool-cases (lt tolerance (largest * ca1a))) [
                | inl above ↦ rw above (
                    Post-bind (scale_column_at inv n system _ cols')
                      λ k'' cols''. start_a-Post fuel t _ tolerance p cols'')
                | inr within ↦ rw within (returns cols')
              ])

  accept_a-Post :
      (t : W) {y y' : List W} (h tolerance an1 : W) {f_end : List W} {k : List (List W)}
      (s : Members W)
      → Point inv n y
      → Point inv n y'
      → Increment inv n f_end
      → HasColumns inv n k
      → Post (Stays inv n) Any (accept_a f config t y y' h tolerance an1 f_end k s)
  unfolding accept_a
  accept_a-Post t {y} {y'} h tolerance an1 {f_end} {k} s p p' z cols = rw p.1.sized (
      Post-bind (anything (calc_vn k)) λ vn1 _.
        Post-bind (set_column_at inv n system 0 _ (omega arith) z cols) λ k' cols'.
          Post-after (control-Controlled f n system config 40 (lit 72 0) (t + h) y' _ _ p'.1)
            λ s' c. returns (record {
              point = p';
              columns = rw ((switch_a-Switched config _ _ vn1 s').k_eq, c.k_eq) cols';
            }))

  pub step_dispfa-Post :
      (inner fuel : ℕ) (t : W) {y : List W} (h tolerance : W) (s : Members W)
      → Point inv n y
      → HasColumns inv n s.k
      → Post (Stays inv n) Any (step_dispfa f config inner fuel t y h tolerance s)
  unfolding step_dispfa
  step_dispfa-Post inner zero t h tolerance s p cols = spins
  step_dispfa-Post inner (suc fuel) t {y} h0 tolerance s p cols = rw p.1.sized (
      Post-bind (start_a-Post inner t h0 tolerance p cols) λ r cols1.
        Post-bind (stages_at inv n system 4 2 t r.h (omega arith) p cols1) λ k cols2.
          Post-bind (weighted_at inv n system p72 (record { sized = refl }) p cols2) λ y' p'.
            Post-bind (slope_at inv n system _ p') λ f_end z.
              Post-bind (anything (end_error r.h n f_end k (lit 0 0))) λ largest _.
                elim (Bool-cases (lt tolerance (largest * ca1a))) [
                  | inl above ↦ rw above (
                      Post-bind (scale_column_at inv n system _ cols2) λ k' cols3.
                        step_dispfa-Post inner fuel t _ tolerance (record s { k = k' }) p cols3)
                  | inr within ↦ rw within (accept_a-Post t r.h tolerance _ s p p' z cols2)
                ])
