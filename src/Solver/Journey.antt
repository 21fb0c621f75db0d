-- ===== src/Solver/Journey.antt =====
-- The rounds of `Solve` one after the other: what a round keeps for the next one is a state (the step
-- size, and for DISPDSolver the scheme), which the first round has from the arguments of `Solve` and
-- each later one from the round before it.
use odeclient_server.Base.Lists.{◌≡◌, List, [], ◌∷◌, ◌++◌, append_assoc, append-nil}
use odeclient_server.Storage.{Storage, Row, add}
use odeclient_server.Solver.Trail.{Chain, start, onward, Trail}

module _ {ℓ} {W X : Type ℓ} (Moves : X → Row W → X → Row W → Type ℓ)
    (Retries : X → Row W → X → Type ℓ) where
  -- The points before the last one. `Moves x p x' q` is a round that goes on from the point `p` to
  -- `q`, and `Retries x p x'` one that stays at `p`.
  pub data Course (x0 : X) (first : Row W) : List (Row W) → X → Row W → Type ℓ where
    begins : Course x0 first [] x0 first
    retries :
        {rows : List (Row W)} {x x' : X} {p : Row W}
        → Course x0 first rows x p
        → Retries x p x'
        → Course x0 first rows x' p
    moves :
        {rows : List (Row W)} {x x' : X} {p q : Row W}
        → Course x0 first rows x p
        → Moves x p x' q
        → Course x0 first (rows ++ (p ∷ [])) x' q

  -- The storage holds what it held before, then the points of a course, and ends with `last`.
  pub record Journey (base : Storage W) (x0 : X) (first : Row W) (x : X) (last : Row W)
      (storage : Storage W) : Type ℓ where
    pub rows : List (Row W)
    pub stored : storage ≡ (base ++ rows) ++ (last ∷ [])
    pub course : Course x0 first rows x last

  pub Journey-start :
      (base : Storage W) (x : X) (t : W) (y : List W)
      → Journey base x (t, y) x (t, y) (add base t y)
  unfolding add
  Journey-start base x t y = record { rows = []; stored = rw append-nil; course = begins }

  module _ {base : Storage W} {x0 x : X} {first p : Row W} {storage : Storage W} where
    pub Journey-stay :
        (x' : X)
        → Journey base x0 first x p storage
        → Retries x p x'
        → Journey base x0 first x' p storage
    Journey-stay x' j r = record { rows = j.rows; stored = j.stored; course = retries j.course r }

    pub Journey-add :
        (x' : X) (t : W) (y : List W)
        → Journey base x0 first x p storage
        → Moves x p x' (t, y)
        → Journey base x0 first x' (t, y) (add storage t y)
    unfolding add
    Journey-add x' t y j m = record {
      rows = j.rows ++ (p ∷ []);
      stored = rw (j.stored, append_assoc base j.rows (p ∷ []));
      course = moves j.course m;
    }

  -- A move, whatever the states around it.
  abbrev pub Moved : Row W → Row W → Type ℓ
  Moved p q = (x : X) × (x' : X) × Moves x p x' q

  Course-Chain :
      {x0 : X} {first : Row W} {rows : List (Row W)} {x : X} {p : Row W}
      → Course x0 first rows x p
      → Chain Moved first rows p
  Course-Chain begins = start
  Course-Chain (retries course r) = Course-Chain course
  Course-Chain (moves course m) = onward (Course-Chain course) (_, _, m)

  pub Journey-Trail :
      {base : Storage W} {x0 x : X} {first last : Row W} {storage : Storage W}
      → Journey base x0 first x last storage
      → Trail Moved base first last storage
  Journey-Trail j = record { rows = j.rows; stored = j.stored; chain = Course-Chain j.course }
