-- ===== src/Dispf/Sizes.antt =====
-- DISPFSolver.cpp: the loops over the matrix `k` and its bounds.
use Prim.Native.Nat.{pred}
use odeclient_server.Base.Lists.{
  ℕ, zero, suc, ◌≡◌, ◌≤◌, ◌<◌, refl, List, [], ◌∷◌, length, set, All, HasSize, arith, ltb, true,
}
use odeclient_server.Base.Outcome.{Outcome, ok, Yields, yields, Yields-bind}
use odeclient_server.Base.Double.{Double, lit, ◌*◌}
use odeclient_server.Solver.{OdeFunction, IsSystem}
use odeclient_server.Dispf.{
  at, dot, stad_scalar, b_row, points, put, set_column, scale_column, max_over, end_error,
  vn_of_row, calc_vn, a_coef, stage, stages,
}

-- The matrix `k`: `n` rows of six numbers.
pub record IsMatrix {ℓ} {W : Type ℓ} (n : ℕ) (k : List (List W)) : Type 0 where
  pub rows : length k ≡ n
  pub columns : All (HasSize 6) k

module _ {ℓ} {A : Type ℓ} where
  length-set : (xs : List A) (i : ℕ) (v : A) → length (set xs i v) ≡ length xs
  length-set [] i v = refl
  length-set (x ∷ xs) zero v = refl
  length-set (x ∷ xs) (suc i) v = ground (arith, length-set xs i v)

  pub set-HasSize : {n : ℕ} {xs : List A} (i : ℕ) (v : A) → HasSize n xs → HasSize n (set xs i v)
  set-HasSize {xs = xs} i v s = record { sized = omega (arith, length-set xs i v, s.sized) }

module _ {ℓ} {W : Type ℓ} ⦃d : Double W⦄ where
  -- What is computed from a row of six numbers, whatever its value.
  abbrev pub Total : (List W → Outcome W) → Type ℓ
  Total entry = (row : List W) → HasSize 6 row → Yields (λ _. Unit {0}) (entry row)

  pub at-Yields : (row : List W) (j : ℕ) → j < length row → Yields (λ _. Unit {0}) (at row j)
  at-Yields [] j h = absurd (omega arith)
  at-Yields (x ∷ row) zero h = yields tt
  at-Yields (x ∷ row) (suc j) h = at-Yields row j (omega arith)

  dot-Yields :
      (count : ℕ) (sum : W) (cs row : List W)
      → count ≤ length cs
      → count ≤ length row
      → Yields (λ _. Unit {0}) (dot count sum cs row)
  unfolding dot
  dot-Yields zero sum cs row p q = yields tt
  dot-Yields (suc count) sum [] row p q = absurd (omega arith)
  dot-Yields (suc count) sum (c ∷ cs) [] p q = absurd (omega arith)
  dot-Yields (suc count) sum (c ∷ cs) (x ∷ row) p q =
      dot-Yields count _ cs row (omega arith) (omega arith)

  pub dot-Total : (cs : List W) → HasSize 6 cs → Total (dot 6 (lit 0 0) cs)
  dot-Total cs s row s' =
      dot-Yields 6 (lit 0 0) cs row (omega (arith, s.sized)) (omega (arith, s'.sized))

  b_row-HasSize : (m : ℕ) → m ≤ 5 → HasSize {A = W} m (b_row m)
  unfolding b_row
  b_row-HasSize zero h = record { sized = refl }
  b_row-HasSize (suc zero) h = record { sized = refl }
  b_row-HasSize (suc (suc zero)) h = record { sized = refl }
  b_row-HasSize (suc (suc (suc zero))) h = record { sized = refl }
  b_row-HasSize (suc (suc (suc (suc zero)))) h = record { sized = refl }
  b_row-HasSize (suc (suc (suc (suc (suc zero))))) h = record { sized = refl }
  b_row-HasSize (suc (suc (suc (suc (suc (suc m)))))) h = absurd (omega arith)

  pub stad_scalar-Total : (m : ℕ) → m ≤ 5 → Total (stad_scalar m)
  unfolding stad_scalar
  stad_scalar-Total m h row s =
      dot-Yields m (lit 0 0) (b_row m) row (omega (arith, (b_row-HasSize m h).sized))
        (omega (arith, s.sized))

  pub points-Yields :
      (increment : List W → Outcome W) (n : ℕ) (y : List W) (k : List (List W))
      → Total increment
      → length y ≡ n
      → IsMatrix n k
      → Yields (HasSize n) (points increment y k)
  unfolding points
  points-Yields increment n [] k total e m = yields (record { sized = e })
  points-Yields increment n (x ∷ y) [] total e m = absurd (omega (arith, m.rows))
  points-Yields increment zero (x ∷ y) (row ∷ k) total e m = absurd (omega arith)
  points-Yields increment (suc n) (x ∷ y) (row ∷ k) total e m =
      let (s, ss) = m.columns in
      Yields-bind (total row s) λ dx _.
        Yields-bind
          (points-Yields increment n y k total (omega arith)
            (record { rows = omega (arith, m.rows); columns = ss }))
          λ rest r. yields (record { sized = omega (arith, r.sized) })

  -- A write within the row.
  pub put-set : (row : List W) (j : ℕ) (v : W) → j < length row → put row j v ≡ ok (set row j v)
  unfolding put
  put-set row j v h = let e : ltb j (length row) ≡ true = ground (arith, h) in rw e refl

  pub set_column-Yields :
      (c : ℕ) (h : W) (n : ℕ) (fm : List W) (k : List (List W))
      → c < 6
      → HasSize n fm
      → IsMatrix n k
      → Yields (IsMatrix n) (set_column c h n fm k)
  unfolding set_column
  set_column-Yields c h zero fm k lt s m = yields m
  set_column-Yields c h (suc n) [] k lt s m = absurd (omega (arith, s.sized))
  set_column-Yields c h (suc n) (x ∷ fm) [] lt s m = absurd (omega (arith, m.rows))
  set_column-Yields c h (suc n) (x ∷ fm) (row ∷ k) lt s m =
      let (r, rs) = m.columns in
      rw (put-set row c (x * h) (omega (arith, r.sized))) (
        Yields-bind
          (set_column-Yields c h n fm k lt (record { sized = omega (arith, s.sized) })
            (record { rows = omega (arith, m.rows); columns = rs }))
          λ rest m'. yields (record {
            rows = omega (arith, m'.rows);
            columns = (set-HasSize c (x * h) r, m'.columns);
          }))

  pub scale_column-Yields :
      (factor : W) (n : ℕ) (k : List (List W))
      → IsMatrix n k
      → Yields (IsMatrix n) (scale_column factor n k)
  unfolding scale_column
  scale_column-Yields factor zero k m = yields m
  scale_column-Yields factor (suc n) [] m = absurd (omega (arith, m.rows))
  scale_column-Yields factor (suc n) (row ∷ k) m =
      let (r, rs) = m.columns in
      Yields-bind (at-Yields row 0 (omega (arith, r.sized))) λ x _.
        rw (put-set row 0 (x * factor) (omega (arith, r.sized))) (
          Yields-bind
            (scale_column-Yields factor n k (record { rows = omega (arith, m.rows); columns = rs }))
            λ rest m'. yields (record {
              rows = omega (arith, m'.rows);
              columns = (set-HasSize 0 (x * factor) r, m'.columns);
            }))

  pub max_over-Yields :
      (entry : List W → Outcome W) (n : ℕ) (k : List (List W)) (acc : W)
      → Total entry
      → IsMatrix n k
      → Yields (λ _. Unit {0}) (max_over entry n k acc)
  unfolding max_over
  max_over-Yields entry zero k acc total m = yields tt
  max_over-Yields entry (suc n) [] acc total m = absurd (omega (arith, m.rows))
  max_over-Yields entry (suc n) (row ∷ k) acc total m =
      let (r, rs) = m.columns in
      Yields-bind (total row r) λ x _.
        max_over-Yields entry n k _ total (record { rows = omega (arith, m.rows); columns = rs })

  pub end_error-Yields :
      (h : W) (n : ℕ) (f_end : List W) (k : List (List W)) (acc : W)
      → HasSize n f_end
      → IsMatrix n k
      → Yields (λ _. Unit {0}) (end_error h n f_end k acc)
  unfolding end_error
  end_error-Yields h zero f_end k acc s m = yields tt
  end_error-Yields h (suc n) [] k acc s m = absurd (omega (arith, s.sized))
  end_error-Yields h (suc n) (x ∷ f_end) [] acc s m = absurd (omega (arith, m.rows))
  end_error-Yields h (suc n) (x ∷ f_end) (row ∷ k) acc s m =
      let (r, rs) = m.columns in
      Yields-bind (at-Yields row 0 (omega (arith, r.sized))) λ k0 _.
        end_error-Yields h n f_end k _ (record { sized = omega (arith, s.sized) })
          (record { rows = omega (arith, m.rows); columns = rs })

  vn_of_row-Total : Total (vn_of_row)
  unfolding vn_of_row
  vn_of_row-Total row s = Yields-bind (at-Yields row 1 (omega (arith, s.sized))) λ k1 _.
      Yields-bind (at-Yields row 0 (omega (arith, s.sized)))
        λ k0 _. Yields-bind (at-Yields row 2 (omega (arith, s.sized))) λ k2 _. yields tt

  pub calc_vn-Yields :
      (n : ℕ) (k : List (List W)) → IsMatrix n k → Yields (λ _. Unit {0}) (calc_vn k)
  unfolding calc_vn
  calc_vn-Yields n k m =
      Yields-bind
        (max_over-Yields vn_of_row (length k) k (lit 0 0) vn_of_row-Total
          (record { rows = refl; columns = m.columns }))
        λ vn _. yields tt

  module _ (f : OdeFunction W) (n : ℕ) (system : IsSystem n f) where
    stage-Yields :
        (c : ℕ) (t : W) (y : List W) (h : W) (k : List (List W))
        → 1 ≤ c
        → c ≤ 5
        → HasSize n y
        → IsMatrix n k
        → Yields (IsMatrix n) (stage f c t y h n k)
    unfolding stage
    stage-Yields c t y h k p p' s m =
        Yields-bind (points-Yields (stad_scalar c) n y k (stad_scalar-Total c p') s.sized m)
          λ y0 s0. Yields-bind (at-Yields a_coef (pred c) (ground arith)) λ a _.
            Yields-bind (system _ y0 s0) λ fm sm. set_column-Yields c h n fm k (omega arith) sm m

    pub stages-Yields :
        (count c : ℕ) (t : W) (y : List W) (h : W) (k : List (List W))
        → 1 ≤ c
        → Prim.Native.Nat.◌+◌ c count ≤ 6
        → HasSize n y
        → IsMatrix n k
        → Yields (IsMatrix n) (stages f count c t y h n k)
    unfolding stages
    stages-Yields zero c t y h k p p' s m = yields m
    stages-Yields (suc count) c t y h k p p' s m =
        Yields-bind (stage-Yields c t y h k p (omega arith) s m)
          λ k' m'. stages-Yields count (suc c) t y h k' (omega arith) (omega arith) s m'
