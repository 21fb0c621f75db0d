-- ===== src/Solver/Trail.antt =====
-- The contract of `Solve`: what it adds to the storage is a chain of steps from the initial point.
use odeclient_server.Base.Lists.{
  ℕ, All, All-append, HasSize, refl, ◌≡◌, List, [], ◌∷◌, ◌++◌, append_assoc, append-nil, true,
}
use odeclient_server.Base.Double.{Double, lt}
use odeclient_server.Storage.{Storage, Row, add}

-- The points before the last one, from the first on, where `R` holds from each point to the next.
pub data Chain {ℓ κ} {W : Type ℓ} (R : Row W → Row W → Type κ) (first : Row W)
    : List (Row W) → Row W → Type (ℓ ⊔ κ) where
  start : Chain R first [] first
  onward :
      {rows : List (Row W)} {p q : Row W}
      → Chain R first rows p
      → R p q
      → Chain R first (rows ++ (p ∷ [])) q

-- The storage holds what it held before, then the chain, and ends with `last`.
pub record Trail {ℓ κ} {W : Type ℓ} (R : Row W → Row W → Type κ) (base : Storage W)
    (first last : Row W) (storage : Storage W) : Type (ℓ ⊔ κ) where
  pub rows : List (Row W)
  pub stored : storage ≡ (base ++ rows) ++ (last ∷ [])
  pub chain : Chain R first rows last

module _ {ℓ κ} {W : Type ℓ} {R : Row W → Row W → Type κ} where
  pub Trail-start :
      (base : Storage W) (t : W) (y : List W) → Trail R base (t, y) (t, y) (add base t y)
  unfolding add
  Trail-start base t y = record { rows = []; stored = rw append-nil; chain = start }

  pub Trail-add :
      {base : Storage W} {first p : Row W} (t : W) (y : List W) {storage : Storage W}
      → Trail R base first p storage
      → R p (t, y)
      → Trail R base first (t, y) (add storage t y)
  unfolding add
  Trail-add {base} {p} t y tr r = record {
    rows = tr.rows ++ (p ∷ []);
    stored = rw (tr.stored, append_assoc base tr.rows (p ∷ []));
    chain = onward tr.chain r;
  }

-- What every solver promises of the storage that it fills from empty: the points begin with the
-- initial one, each has a number for each equation, and all but the last are before `tEnd`.
pub record IsTrajectory {ℓ} {W : Type ℓ} ⦃d : Double W⦄ (n : ℕ) (t_end : W) (first : Row W)
    (storage : Storage W) : Type ℓ where
  pub starts : (rest : List (Row W)) × (storage ≡ first ∷ rest)
  pub sized : All (λ row. HasSize n row.1) storage
  pub early :
      (rows : List (Row W)) × (last : Row W) × (storage ≡ rows ++ (last ∷ []))
      × All (λ row. lt row.0 t_end ≡ true) rows

module _ {ℓ κ} {W : Type ℓ} {R : Row W → Row W → Type κ} {first : Row W} where
  Chain-starts :
      {rows : List (Row W)} {p : Row W}
      → Chain R first rows p
      → (rest : List (Row W)) × (rows ++ (p ∷ []) ≡ first ∷ rest)
  Chain-starts start = ([], refl)
  Chain-starts (onward {rows} {p} {q} c r) =
      let (rest, e) = Chain-starts c in (rest ++ (q ∷ []), rw e)

  -- What holds of the first point and of where each step leads holds of all points.
  Chain-All {μ} :
      (P : Row W → Type μ)
      → P first
      → ((p q : Row W) → R p q → P q)
      → {rows : List (Row W)} {p : Row W} → Chain R first rows p
      → All P (rows ++ (p ∷ []))
  Chain-All P h keep start = (h, tt)
  Chain-All P h keep (onward {rows} {p} {q} c r) =
      All-append P (rows ++ (p ∷ [])) (q ∷ []) (Chain-All P h keep c) (keep p q r, tt)

  -- What holds of where each step begins holds of all points but the last.
  Chain-before {μ} :
      (P : Row W → Type μ)
      → ((p q : Row W) → R p q → P p)
      → {rows : List (Row W)} {p : Row W} → Chain R first rows p
      → All P rows
  Chain-before P keep start = tt
  Chain-before P keep (onward {rows} {p} {q} c r) =
      All-append P rows (p ∷ []) (Chain-before P keep c) (keep p q r, tt)

  pub Trail-IsTrajectory :
      ⦃d : Double W⦄ (n : ℕ) {t_end : W}
      → ((p q : Row W) → R p q → HasSize n q.1)
      → ((p q : Row W) → R p q → lt p.0 t_end ≡ true)
      → HasSize n first.1
      → {last : Row W} {storage : Storage W} → Trail R [] first last storage
      → IsTrajectory n t_end first storage
  Trail-IsTrajectory n {t_end} keep before h {last} tr = rw tr.stored (record {
    starts = Chain-starts tr.chain;
    sized = Chain-All (λ row. HasSize n row.1) h keep tr.chain;
    early = (tr.rows, last, refl, Chain-before (λ row. lt row.0 t_end ≡ true) before tr.chain);
  })

  -- What each step carries on from its point to the next holds of all points.
  Chain-carries {μ} :
      (P : Row W → Type μ)
      → P first
      → ((p q : Row W) → R p q → P p → P q)
      → {rows : List (Row W)} {p : Row W} → Chain R first rows p
      → All P rows × P p
  Chain-carries P h keep start = (tt, h)
  Chain-carries P h keep (onward {rows} {p} {q} c r) =
      let (before, last) = Chain-carries P h keep c in
      (All-append P rows (p ∷ []) before (last, tt), keep p q r last)

  pub Trail-carries {μ} :
      (P : Row W → Type μ)
      → P first
      → ((p q : Row W) → R p q → P p → P q)
      → {last : Row W} {storage : Storage W} → Trail R [] first last storage
      → All P storage
  Trail-carries P h keep {last} tr =
      let (before, end) = Chain-carries P h keep tr.chain in
      rw tr.stored (All-append P tr.rows (last ∷ []) before (end, tt))
