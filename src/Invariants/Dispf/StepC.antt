-- ===== src/Invariants/Dispf/StepC.antt =====
-- DISPFSolver::StepDISPFC in an invariant family.
use odeclient_server.Base.Lists.{ℕ, zero, suc, refl, List, arith, Bool-cases, inl, inr}
use odeclient_server.Base.Outcome.{Post, returns, spins, Post-bind, Post-after}
use odeclient_server.Base.Double.{Double, lit, ◌+◌, lt}
use odeclient_server.Solver.{OdeFunction, IsSystem}
use odeclient_server.Dispf.{Config, Members, p36, end_error, calc_vn}
use odeclient_server.Dispf.Control.{control-Controlled}
use odeclient_server.Dispf.Steps.{switch_c-Switched}
use odeclient_server.Dispf.StepC.{cn1, finish_c, loop_c, step_dispfc}
use odeclient_server.Invariants.{Any, anything, IsInvariant}
use odeclient_server.Invariants.Columns.{
  HasColumns, Point, slope_at, set_column_at, scale_column_at,
}
use odeclient_server.Invariants.Dispf.{Stays, weighted_at, stages_at}

module _ {ℓ} {W : Type ℓ} ⦃d : Double W⦄ {f : OdeFunction W} {P Z : List W → Type ℓ}
    (inv : IsInvariant f P Z) (n : ℕ) (system : IsSystem n f) (config : Config W) where
  finish_c-Post :
      (t : W) {y : List W} (h tolerance : W) {k : List (List W)} (s : Members W)
      → Point inv n y
      → HasColumns inv n k
      → Post (Stays inv n) Any (finish_c f config t y h tolerance k s)
  unfolding finish_c
  finish_c-Post t {y} h tolerance {k} s p cols = rw p.1.sized (
      Post-bind (weighted_at inv n system p36 (record { sized = refl }) p cols) λ y' p'.
        Post-bind (slope_at inv n system _ p') λ ff z.
          Post-bind (anything (end_error h n ff k (lit 0 0))) λ largest _.
            Post-bind (anything (calc_vn k)) λ vn _.
              Post-after (control-Controlled f n system config 34 (lit 72 0) (t + h) y' h _ p'.1)
                λ s' c. returns (record {
                  point = p';
                  columns = rw ((switch_c-Switched config tolerance _ _ s').k_eq, c.k_eq) cols;
                }))

  loop_c-Post :
      (fuel : ℕ) (t : W) {y : List W} (h tolerance : W) {k : List (List W)} (s : Members W)
      → Point inv n y
      → HasColumns inv n k
      → Post (Stays inv n) Any (loop_c f config fuel t y h tolerance k s)
  unfolding loop_c
  loop_c-Post zero t h tolerance s p cols = spins
  loop_c-Post (suc fuel) t {y} h tolerance s p cols = rw p.1.sized (
      Post-bind (stages_at inv n system 5 1 t h (omega arith) p cols) λ k' cols'.
        Post-bind (anything (cn1 n k')) λ error _. elim (Bool-cases (lt tolerance error)) [
          | inl above ↦ rw above (
              Post-bind (scale_column_at inv n system _ cols')
                λ k'' cols''. loop_c-Post fuel t _ tolerance s p cols'')
          | inr within ↦ rw within (finish_c-Post t h tolerance s p cols')
        ])

  pub step_dispfc-Post :
      (fuel : ℕ) (t : W) {y : List W} (h tolerance : W) (s : Members W)
      → Point inv n y
      → HasColumns inv n s.k
      → Post (Stays inv n) Any (step_dispfc f config fuel t y h tolerance s)
  unfolding step_dispfc
  step_dispfc-Post fuel t {y} h tolerance s p cols = rw p.1.sized (
      Post-bind (slope_at inv n system t p) λ ff z.
        Post-bind (set_column_at inv n system 0 h (omega arith) z cols)
          λ k cols'. loop_c-Post fuel t h tolerance s p cols')
