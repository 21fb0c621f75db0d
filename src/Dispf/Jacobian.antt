-- ===== src/Dispf/Jacobian.antt =====
-- DISPFSolver::EstimateJacobianEigenvalue. The matrix `J` is kept by columns: the sums and maxima
-- over `j` are taken in the same order as in the source.
use odeclient_server.Base.Lists.{
  ℕ, zero, suc, List, [], ◌∷◌, map, length, set, replicate, if◌then◌else◌,
}
use odeclient_server.Base.Int.{ℤ, is}
use odeclient_server.Base.Outcome.{Outcome, ok, throw, undefined, ◌>>=◌}
use odeclient_server.Base.Double.{Double, lit, ◌+◌, ◌-◌, ◌*◌, ◌/◌, fabs, eq, max}
use odeclient_server.Solver.{OdeFunction}
use odeclient_server.Dispf.{at}

module _ {ℓ} {W : Type ℓ} ⦃d : Double W⦄ where
  -- `J[i][j] = (f_pert[i] - f0[i]) / eps` for each `i < n`.
  unfoldable pub difference_column : ℕ → List W → List W → Outcome (List W)
  difference_column zero f_pert f0 = ok []
  difference_column (suc n) (a ∷ f_pert) (b ∷ f0) = do
    rest ← difference_column n f_pert f0
    ok ((a - b) / lit 1 8 ∷ rest)
  difference_column (suc n) _ _ = throw undefined

  -- `y_vec[i] += column[i] * x` for each `i`.
  unfoldable pub add_column : W → List W → List W → List W
  add_column x (v ∷ y_vec) (a ∷ column) = (v + a * x) ∷ add_column x y_vec column
  add_column x y_vec _ = y_vec

  -- `y_vec = J x`, from the columns and the components of `x`.
  unfoldable pub multiply : List (List W) → List W → List W → List W
  multiply (column ∷ columns) (x ∷ xs) y_vec = multiply columns xs (add_column x y_vec column)
  multiply _ _ y_vec = y_vec

  unfoldable pub max_abs : List W → W → W
  max_abs [] norm = norm
  max_abs (v ∷ vs) norm = max_abs vs (max norm (fabs v))

  -- The power iteration, with `left` of its hundred rounds to go.
  unfoldable pub power_iteration : ℕ → List (List W) → List W → W → W
  power_iteration zero columns x lambda = lambda
  power_iteration (suc left) columns x lambda =
      let y_vec = multiply columns x (map (λ _. lit 0 0) x) in
      let norm = max_abs y_vec (lit 0 0) in
      let rest = power_iteration left columns (map (λ v. v / norm) y_vec) norm in
      if eq norm (lit 0 0) then lambda else rest

  -- `row_max[i] = max(row_max[i], fabs(column[i]))` for each `i`.
  unfoldable pub max_column : List W → List W → List W
  max_column (m ∷ row_max) (a ∷ column) = max m (fabs a) ∷ max_column row_max column
  max_column row_max _ = row_max

  unfoldable pub row_maxima : List (List W) → List W → List W
  row_maxima [] row_max = row_max
  row_maxima (column ∷ columns) row_max = row_maxima columns (max_column row_max column)

  unfoldable pub sum_of : List W → W → W
  sum_of [] sum = sum
  sum_of (v ∷ vs) sum = sum_of vs (sum + v)

  abbrev pub eigenvalue : ℤ → ℕ → List (List W) → W
  eigenvalue method n columns =
      if is method 2
      then sum_of (row_maxima columns (replicate n (lit 0 0))) (lit 0 0) / lit n 0
      else power_iteration 100 columns (replicate n (lit 1 0)) (lit 0 0)

  module _ (f : OdeFunction W) where
    -- The columns from `j` on, `left` of them.
    unfoldable pub columns_from : ℕ → ℕ → W → List W → List W → Outcome (List (List W))
    columns_from zero j t y f0 = ok []
    columns_from (suc left) j t y f0 = do
      yj ← at y j
      f_pert ← f t (set y j (yj + lit 1 8))
      column ← difference_column (length y) f_pert f0
      rest ← columns_from left (suc j) t y f0
      ok (column ∷ rest)

    unfoldable pub estimate_jacobian_eigenvalue : ℤ → W → List W → Outcome W
    estimate_jacobian_eigenvalue method t y = do
      f0 ← f t y
      columns ← columns_from (length y) 0 t y f0
      ok (eigenvalue method (length y) columns)
