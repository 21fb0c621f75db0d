-- ===== src/Invariants/Dispf.antt =====
-- DISPFSolver.cpp: the stages, and what a step leaves, in an invariant family.
pub mod StepA
pub mod StepB
pub mod StepC
pub mod Solve
use Prim.Native.Nat.{pred, ◌+◌ as plus}
use odeclient_server.Base.Lists.{ℕ, zero, suc, ◌≡◌, ◌≤◌, List, HasSize, arith}
use odeclient_server.Base.Outcome.{Outcome, Post, returns, Post-bind}
use odeclient_server.Base.Double.{Double, lit}
use odeclient_server.Solver.{OdeFunction, IsSystem}
use odeclient_server.Dispf.{
  Members, Stepped, stad_scalar, dot, b_row, a_coef, at, points, stage, stages,
}
use odeclient_server.Dispf.Sizes.{stad_scalar-Total, dot-Total}
use odeclient_server.Invariants.{Any, anything, IsInvariant}
use odeclient_server.Invariants.Columns.{
  HasColumns, Point, dot_value, dot-Post, dot-columns, slope_at, point_at, set_column_at,
}

module _ {ℓ} {W : Type ℓ} ⦃d : Double W⦄ {f : OdeFunction W} {P Z : List W → Type ℓ}
    (inv : IsInvariant f P Z) (n : ℕ) where
  -- What a step leaves.
  pub record Stays (r : Stepped W) : Type ℓ where
    pub point : Point inv n r.y
    pub columns : HasColumns inv n r.members.k

  module _ (system : IsSystem n f) where
    pub stad_scalar_at :
        (m : ℕ) {y : List W} {k : List (List W)}
        → m ≤ 5
        → Point inv n y
        → HasColumns inv n k
        → Post (Point inv n) Any (points (stad_scalar m) y k)
    unfolding stad_scalar
    stad_scalar_at m {k = k} h p cols =
        point_at inv n system (stad_scalar m) _ (λ row. dot-Post m (lit 0 0) (b_row m) row)
          (stad_scalar-Total m h) p cols (dot-columns inv n m (b_row m) k cols)

    pub weighted_at :
        (cs : List W) {y : List W} {k : List (List W)}
        → HasSize 6 cs
        → Point inv n y
        → HasColumns inv n k
        → Post (Point inv n) Any (points (dot 6 (lit 0 0) cs) y k)
    weighted_at cs {k = k} h p cols =
        point_at inv n system _ _ (λ row. dot-Post 6 (lit 0 0) cs row) (dot-Total cs h) p cols
          (dot-columns inv n 6 cs k cols)

    stage_at :
        (m : ℕ) (t : W) {y : List W} (h : W) {k : List (List W)}
        → m ≤ 5
        → Point inv n y
        → HasColumns inv n k
        → Post (HasColumns inv n) Any (stage f m t y h n k)
    unfolding stage
    stage_at m t h le p cols = Post-bind (stad_scalar_at m le p cols) λ y0 p0.
        Post-bind (anything (at a_coef (pred m))) λ a _.
          Post-bind (slope_at inv n system _ p0)
            λ fm z. set_column_at inv n system m h (omega arith) z cols

    pub stages_at :
        (count m : ℕ) (t : W) {y : List W} (h : W) {k : List (List W)}
        → plus m count ≤ 6
        → Point inv n y
        → HasColumns inv n k
        → Post (HasColumns inv n) Any (stages f count m t y h n k)
    unfolding stages
    stages_at zero m t h le p cols = returns cols
    stages_at (suc count) m t h le p cols =
        Post-bind (stage_at m t h (omega arith) p cols)
          λ k' cols'. stages_at count (suc m) t h (omega arith) p cols'
