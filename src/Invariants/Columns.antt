-- ===== src/Invariants/Columns.antt =====
-- DISPFSolver.cpp: the matrix `k`, kept by rows, as its columns, each an increment of an invariant
-- family.
use mathlib.Core.Path.{sym, subst, fun_ext}
use odeclient_server.Base.Lists.{
  length-map, length-map, HasSize, replicate, ℕ, zero, suc, ◌≡◌, ◌≢◌, ◌<◌, refl, ap, List, [], ◌∷◌,
  map, length, set, arith,
}
use odeclient_server.Base.Outcome.{Post-map, Outcome, throws, Post, returns, Post-bind}
use odeclient_server.Base.Double.{Double, lit, ◌+◌, ◌*◌}
use odeclient_server.Vectors.{zip_with}
use odeclient_server.Dispf.{at, dot, points, set_column, scale_column}
use odeclient_server.Dispf.Sizes.{
  IsMatrix, Total, put-set, points-Yields, set_column-Yields, scale_column-Yields,
}
use odeclient_server.Invariants.{IsInvariant, Any, both}
use odeclient_server.Solver.{OdeFunction, IsSystem}
use native.Mathlib.Decide.{ℕ_discrete}

module _ {ℓ} {W : Type ℓ} ⦃d : Double W⦄ where
  -- `row[j]`, and 0 past its end.
  pub entry : List W → ℕ → W
  entry [] j = lit 0 0
  entry (x ∷ row) zero = x
  entry (x ∷ row) (suc j) = entry row j

  abbrev pub column : ℕ → List (List W) → List W
  column j k = map (λ row. entry row j) k

  tail : List W → List W
  tail [] = []
  tail (x ∷ row) = row

  entry-tail : (row : List W) (j : ℕ) → entry row (suc j) ≡ entry (tail row) j
  unfolding entry tail
  entry-tail [] j = refl
  entry-tail (x ∷ row) j = refl

  -- What `dot` comes to.
  pub dot_value : ℕ → W → List W → List W → W
  dot_value zero sum cs row = sum
  dot_value (suc count) sum [] row = sum
  dot_value (suc count) sum (c ∷ cs) row = dot_value count (sum + c * entry row 0) cs (tail row)

  pub dot-Post :
      (count : ℕ) (sum : W) (cs row : List W)
      → Post (λ x. x ≡ dot_value count sum cs row) Any (dot count sum cs row)
  unfolding dot dot_value entry tail
  dot-Post zero sum cs row = returns refl
  dot-Post (suc count) sum [] row = throws tt
  dot-Post (suc count) sum (c ∷ cs) [] = throws tt
  dot-Post (suc count) sum (c ∷ cs) (x ∷ row) = dot-Post count (sum + c * x) cs row

  pub at-Post : (row : List W) → Post (λ x. x ≡ entry row 0) Any (at row 0)
  unfolding entry
  at-Post [] = throws tt
  at-Post (x ∷ row) = returns refl

  zip_with-map :
      (k : List (List W)) (g h : List W → W) (c : W)
      → zip_with (λ x y. x + y) (map g k) (map (λ x. c * x) (map h k))
        ≡ map (λ row. g row + c * h row) k
  zip_with-map [] g h c = refl
  zip_with-map (row ∷ k) g h c = ap (λ xs. (g row + c * h row) ∷ xs) (zip_with-map k g h c)

  points-Post :
      (increment : List W → Outcome W) (value : List W → W)
      → ((row : List W) → Post (λ x. x ≡ value row) Any (increment row))
      → (y : List W) (k : List (List W))
      → Post (λ y'. y' ≡ zip_with (λ x z. x + z) y (map value k)) Any (points increment y k)
  unfolding points
  points-Post increment value h [] k = returns refl
  points-Post increment value h (x ∷ y) [] = throws tt
  points-Post increment value h (x ∷ y) (row ∷ k) =
      Post-bind (h row)
        λ dx e. Post-bind (points-Post increment value h y k) λ rest e'. returns (rw (e, e'))

  entry-set_self : (row : List W) (m : ℕ) (v : W) → m < length row → entry (set row m v) m ≡ v
  unfolding entry
  entry-set_self [] m v h = absurd (omega arith)
  entry-set_self (x ∷ row) zero v h = refl
  entry-set_self (x ∷ row) (suc m) v h = entry-set_self row m v (omega arith)

  entry-set_other : (row : List W) (m j : ℕ) (v : W) → j ≢ m → entry (set row m v) j ≡ entry row j
  unfolding entry
  entry-set_other [] m j v h = refl
  entry-set_other (x ∷ row) zero zero v h = absurd (h refl)
  entry-set_other (x ∷ row) zero (suc j) v h = refl
  entry-set_other (x ∷ row) (suc m) zero v h = refl
  entry-set_other (x ∷ row) (suc m) (suc j) v h = entry-set_other row m j v (λ e. h (ap suc e))

  -- The column `m` is `new`, the others are those of `k`.
  record Replaced (m : ℕ) (new : List W) (k k' : List (List W)) : Type ℓ where
    written : column m k' ≡ new
    others : (j : ℕ) → j ≢ m → column j k' ≡ column j k

  Replaced-row :
      (m : ℕ) (v : W) (new row : List W) (k k' : List (List W))
      → m < length row
      → Replaced m new k k'
      → Replaced m (v ∷ new) (row ∷ k) (set row m v ∷ k')
  Replaced-row m v new row k k' h r = record {
    written = rw (entry-set_self row m v h, r.written);
    others = λ j ne. rw (entry-set_other row m j v ne, r.others j ne);
  }

  set_column-Post :
      (m : ℕ) (h : W) (n : ℕ) (fm : List W) (k : List (List W))
      → m < 6
      → length fm ≡ n
      → IsMatrix n k
      → Post (Replaced m (map (λ x. x * h) fm) k) Any (set_column m h n fm k)
  unfolding set_column
  set_column-Post m h zero [] [] lt size matrix =
      returns (record { written = refl; others = λ j ne. refl })
  set_column-Post m h zero (x ∷ fm) k lt size matrix = absurd (omega arith)
  set_column-Post m h zero [] (row ∷ k) lt size matrix = absurd (omega (arith, matrix.rows))
  set_column-Post m h (suc n) [] k lt size matrix = throws tt
  set_column-Post m h (suc n) (x ∷ fm) [] lt size matrix = throws tt
  set_column-Post m h (suc n) (x ∷ fm) (row ∷ k) lt size matrix =
      let (s, ss) = matrix.columns in
      rw (put-set row m (x * h) (omega (arith, s.sized))) (
        Post-bind
          (set_column-Post m h n fm k lt (omega arith)
            (record { rows = omega (arith, matrix.rows); columns = ss }))
          λ rest r. returns (Replaced-row m _ _ row k rest (omega (arith, s.sized)) r))

  scale_column-Post :
      (factor : W) (n : ℕ) (k : List (List W))
      → IsMatrix n k
      → Post (Replaced 0 (map (λ x. x * factor) (column 0 k)) k) Any (scale_column factor n k)
  unfolding scale_column
  scale_column-Post factor zero [] matrix =
      returns (record { written = refl; others = λ j ne. refl })
  scale_column-Post factor zero (row ∷ k) matrix = absurd (omega (arith, matrix.rows))
  scale_column-Post factor (suc n) [] matrix = throws tt
  scale_column-Post factor (suc n) (row ∷ k) matrix =
      let (s, ss) = matrix.columns in
      Post-bind (at-Post row) λ x e. rw (put-set row 0 (x * factor) (omega (arith, s.sized))) (
        Post-bind
          (scale_column-Post factor n k
            (record { rows = omega (arith, matrix.rows); columns = ss }))
          λ rest r. returns (rw e (Replaced-row 0 _ _ row k rest (omega (arith, s.sized)) r)))

  entry-replicate : (m j : ℕ) → entry (replicate m (lit 0 0)) j ≡ lit 0 0
  unfolding entry
  entry-replicate zero j = refl
  entry-replicate (suc m) zero = refl
  entry-replicate (suc m) (suc j) = entry-replicate m j

  pub column-zeros :
      (n m j : ℕ) → column j (replicate n (replicate m (lit 0 0))) ≡ replicate n (lit 0 0)
  column-zeros zero m j = refl
  column-zeros (suc n) m j = rw (entry-replicate m j, column-zeros n m j)

module _ {ℓ} {W : Type ℓ} ⦃d : Double W⦄ {f : OdeFunction W} {P Z : List W → Type ℓ}
    (inv : IsInvariant f P Z) where
  dots :
      (count : ℕ) (cs : List W) (g : List W → W) (rest : List W → List W) (k : List (List W))
      → Z (map g k)
      → ((j : ℕ) → Z (map (λ row. entry (rest row) j) k))
      → Z (map (λ row. dot_value count (g row) cs (rest row)) k)
  unfolding dot_value
  dots zero cs g rest k zg zs = zg
  dots (suc count) [] g rest k zg zs = zg
  dots (suc count) (c ∷ cs) g rest k zg zs =
      dots count cs (λ row. g row + c * entry (rest row) 0) (λ row. tail (rest row)) k
        (subst Z (zip_with-map k g (λ row. entry (rest row) 0) c) (
          inv.sum _ _
            (omega (
              arith,
              length-map g k,
              length-map (λ row. entry (rest row) 0) k,
              length-map (λ x. c * x) (map (λ row. entry (rest row) 0) k),
            ))
            zg (inv.scale_left c _ (zs 0))))
        λ j. subst Z (ap (λ e. map e k) (fun_ext λ row. entry-tail (rest row) j)) (zs (suc j))

  -- The matrix `k`: `n` rows of six numbers, its columns increments.
  pub record HasColumns (n : ℕ) (k : List (List W)) : Type ℓ where
    pub matrix : IsMatrix n k
    pub columns : (j : ℕ) → Z (column j k)

  -- A point and an increment of `n` numbers.
  abbrev pub Point : ℕ → List W → Type ℓ
  Point n y = P y × HasSize n y

  abbrev pub Increment : ℕ → List W → Type ℓ
  Increment n z = Z z × HasSize n z

  map-zeros : (k : List (List W)) → replicate (length k) (lit 0 0) ≡ map (λ row. lit {W = W} 0 0) k
  map-zeros [] = refl
  map-zeros (row ∷ k) = ap (λ xs. lit 0 0 ∷ xs) (map-zeros k)

  map-column :
      (c : W) (k : List (List W)) → map (λ x. c * x) (column 0 k) ≡ map (λ row. c * entry row 0) k
  map-column c [] = refl
  map-column c (row ∷ k) = ap (λ xs. (c * entry row 0) ∷ xs) (map-column c k)

  pub multiple-columns :
      (n : ℕ) (c : W) (k : List (List W)) → HasColumns n k → Z (map (λ row. c * entry row 0) k)
  multiple-columns n c k h = subst Z (map-column c k) (inv.scale_left c _ (h.columns 0))

  pub dot-columns :
      (n count : ℕ) (cs : List W) (k : List (List W))
      → HasColumns n k
      → Z (map (dot_value count (lit 0 0) cs) k)
  dot-columns n count cs k h =
      dots count cs (λ row. lit 0 0) (λ row. row) k (subst Z (map-zeros k) (inv.zeros (length k)))
        h.columns

  module _ (n : ℕ) (system : IsSystem n f) where
    pub slope_at : (t : W) {y : List W} → Point n y → Post (Increment n) Any (f t y)
    slope_at t {y} (p, size) = both (system t y size) (inv.slope t y p)

    pub point_at :
        (increment : List W → Outcome W) (value : List W → W)
        → ((row : List W) → Post (λ x. x ≡ value row) Any (increment row))
        → Total increment
        → {y : List W} {k : List (List W)} → Point n y
        → HasColumns n k
        → Z (map value k)
        → Post (Point n) Any (points increment y k)
    point_at increment value h total {y} {k} (p, size) cols z =
        both (points-Yields increment n y k total size.sized cols.matrix) (
          Post-map
            (λ y' e.
              subst P (sym e) (
                inv.move y _ (omega (arith, size.sized, cols.matrix.rows, length-map value k)) p z))
            (points-Post increment value h y k))

    Replaced-columns :
        (m : ℕ) (new : List W) (k k' : List (List W))
        → Z new
        → HasColumns n k
        → Replaced m new k k'
        → IsMatrix n k'
        → HasColumns n k'
    Replaced-columns m new k k' z cols r matrix = record {
      matrix = matrix;
      columns = λ j. elim (ℕ_discrete j m) [
        | yes e ↦ rw e (subst Z (sym r.written) z)
        | no ne ↦ subst Z (sym (r.others j ne)) (cols.columns j)
      ];
    }

    pub set_column_at :
        (m : ℕ) (h : W) {fm : List W} {k : List (List W)}
        → m < 6
        → Increment n fm
        → HasColumns n k
        → Post (HasColumns n) Any (set_column m h n fm k)
    set_column_at m h {fm} {k} lt (z, size) cols =
        Post-map
          (λ k' (r, matrix). Replaced-columns m _ k k' (inv.scale_right h fm z) cols r matrix)
          (both (set_column-Yields m h n fm k lt size cols.matrix)
            (set_column-Post m h n fm k lt size.sized cols.matrix))

    pub scale_column_at :
        (factor : W) {k : List (List W)}
        → HasColumns n k
        → Post (HasColumns n) Any (scale_column factor n k)
    scale_column_at factor {k} cols =
        Post-map
          (λ k' (r, matrix).
            Replaced-columns 0 _ k k' (inv.scale_right factor _ (cols.columns 0)) cols r matrix)
          (both (scale_column-Yields factor n k cols.matrix)
            (scale_column-Post factor n k cols.matrix))
