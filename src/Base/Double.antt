-- ===== src/Base/Double.antt =====
-- The type `double` and what the sources use of it, as an interface: antt has no floating point.
-- `lit m d` is the decimal literal m · 10^-d, and an integer converts as `lit n 0`. The comparisons
-- are those of IEEE 754, false where an operand is NaN. The functions of <algorithm> are as the C++
-- standard defines them.
use odeclient_server.Base.Lists.{arith, refl, ℕ, ◌≡◌, Bool, false, if◌then◌else◌}

pub record Double {ℓ} (W : Type ℓ) : Type ℓ where
  pub lit : ℕ → ℕ → W
  pub plus : W → W → W
  pub minus : W → W → W
  pub times : W → W → W
  pub over : W → W → W
  pub pow : W → W → W
  pub negate : W → W
  pub fabs : W → W
  pub sqrt : W → W
  pub log : W → W
  pub exp : W → W
  pub cos : W → W
  pub lt : W → W → Bool
  pub le : W → W → Bool
  pub eq : W → W → Bool

infixl 65 ◌+◌ ◌-◌
infixl 70 ◌*◌ ◌/◌
module _ {ℓ} {W : Type ℓ} ⦃d : Double W⦄ where
  abbrev pub lit : ℕ → ℕ → W
  lit = d.lit

  abbrev pub ◌+◌ : W → W → W
  ◌+◌ = d.plus

  abbrev pub ◌-◌ : W → W → W
  ◌-◌ = d.minus

  abbrev pub ◌*◌ : W → W → W
  ◌*◌ = d.times

  abbrev pub ◌/◌ : W → W → W
  ◌/◌ = d.over

  abbrev pub pow : W → W → W
  pow = d.pow

  abbrev pub negate : W → W
  negate = d.negate

  abbrev pub fabs : W → W
  fabs = d.fabs

  abbrev pub sqrt : W → W
  sqrt = d.sqrt

  abbrev pub log : W → W
  log = d.log

  abbrev pub exp : W → W
  exp = d.exp

  abbrev pub cos : W → W
  cos = d.cos

  abbrev pub lt : W → W → Bool
  lt = d.lt

  abbrev pub le : W → W → Bool
  le = d.le

  abbrev pub eq : W → W → Bool
  eq = d.eq

  abbrev pub max : W → W → W
  max a b = if lt a b then b else a

  abbrev pub min : W → W → W
  min a b = if lt b a then b else a

  abbrev pub clamp : W → W → W → W
  clamp x lo hi = if lt x lo then lo else if lt hi x then hi else x

-- Documented behaviour of `double`.
module _ {ℓ} (W : Type ℓ) ⦃d : Double W⦄ where
  abbrev pub IsIrreflexive : Type ℓ
  IsIrreflexive = (x : W) → lt x x ≡ false

  -- NaN: the arithmetic carries it on, and each comparison with it is false.
  pub record NanLaws : Type (ℓ ⊔ 1) where
    pub IsNan : W → Type 0
    pub plus_left : (x y : W) → IsNan x → IsNan (x + y)
    pub plus_right : (x y : W) → IsNan y → IsNan (x + y)
    pub minus_left : (x y : W) → IsNan x → IsNan (x - y)
    pub times_left : (x y : W) → IsNan x → IsNan (x * y)
    pub times_right : (x y : W) → IsNan y → IsNan (x * y)
    pub over_left : (x y : W) → IsNan x → IsNan (x / y)
    pub over_right : (x y : W) → IsNan y → IsNan (x / y)
    pub pow_left : (x y : W) → IsNan x → eq y (lit 0 0) ≡ false → IsNan (pow x y)
    pub sqrt_nan : (x : W) → IsNan x → IsNan (sqrt x)
    pub lt_left : (x y : W) → IsNan x → lt x y ≡ false
    pub le_left : (x y : W) → IsNan x → le x y ≡ false

module _ {ℓ} {W : Type ℓ} ⦃d : Double W⦄ where
  -- `h'` is `h` scaled by a factor that is not below `lo` and not above `hi`.
  pub record Scaled (lo hi h h' : W) : Type ℓ where
    pub factor : W
    pub scaled : h' ≡ h * factor
    pub at_least : lt factor lo ≡ false
    pub at_most : lt hi factor ≡ false

  pub clamp-Scaled :
      IsIrreflexive W → (h x lo hi : W) → lt hi lo ≡ false → Scaled lo hi h (h * clamp x lo hi)
  clamp-Scaled irreflexive h x lo hi order = record {
    factor = clamp x lo hi;
    scaled = refl;
    at_least = ground (arith, irreflexive lo);
    at_most = ground (arith, irreflexive hi);
  }

  pub lt-max_right : IsIrreflexive W → (x lo : W) → lt (max x lo) lo ≡ false
  lt-max_right irreflexive x lo = ground (arith, irreflexive lo)

  pub lt-min_right : IsIrreflexive W → (x hi : W) → lt hi (min x hi) ≡ false
  lt-min_right irreflexive x hi = ground (arith, irreflexive hi)
