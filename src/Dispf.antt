-- ===== src/Dispf.antt =====
-- Server/src/odesolvers-lib/src/DISPFSolver.cpp and include/DISPFSolver.hpp: the members, the
-- coefficients and what the three steps share. The children have the steps and `Solve`. `Y0` is
-- written whole before each read, and `F` is never read, so neither is a field here.
pub mod Jacobian
pub mod Stability
pub mod StepC
pub mod StepA
pub mod StepB
pub mod Solve
pub mod Sizes
pub mod Control
pub mod Steps
pub mod Trajectory
pub mod Fuel
use Prim.Native.Nat.{pred, ◌^◌}
use odeclient_server.Vectors.{zip_with}
use odeclient_server.Base.Lists.{
  length, ℕ, zero, suc, List, [], ◌∷◌, get_elem?, set, ltb, Option, none, some, Bool, true, false,
  not, if◌then◌else◌,
}
use odeclient_server.Base.Int.{ℤ, is}
use odeclient_server.Base.Outcome.{Outcome, ok, throw, undefined, ◌>>=◌}
use odeclient_server.Base.Double.{
  Double, lit, ◌+◌, ◌-◌, ◌*◌, ◌/◌, negate, fabs, log, pow, lt, max, min,
}
use odeclient_server.Solver.{OdeFunction}

-- `enum Method`.
pub data Method : Type 0 where
  dispfa dispfb dispfc : Method

-- The members that the constructor sets and no function changes. `jacobianMethod` is read only where
-- the control is enabled.
pub record Config {ℓ} (W : Type ℓ) : Type ℓ where
  pub gamma : W
  pub variable_order : Bool
  pub stability_control_enabled : Bool
  pub jacobian_method : ℤ

-- The members that change: the matrix `k` by rows, `currentMethod`, `vnBreakCount`, `jumpToRadau5`.
pub record Members {ℓ} (W : Type ℓ) : Type ℓ where
  pub k : List (List W)
  pub current_method : Method
  pub vn_break_count : ℕ
  pub jump_to_radau5 : Bool

-- The references `y` and `h` of a step, and the members, when it returns.
pub record Stepped {ℓ} (W : Type ℓ) : Type ℓ where
  pub y : List W
  pub h : W
  pub members : Members W

abbrev pub fixed_method : ℤ → Method
fixed_method i =
    if is i 1 then dispfa else if is i 2 then dispfb else if is i 5 then dispfc else dispfa

module _ {ℓ} {W : Type ℓ} where
  -- `DISPFSolver::DISPFSolver`.
  unfoldable pub construct : W → ℤ → ℤ → ℤ → Config W × Members W
  construct gamma i j k = (
    record {
      gamma = gamma;
      variable_order = is i 0;
      stability_control_enabled = is j 0;
      jacobian_method = k;
    },
    record {
      k = [];
      current_method = if is i 0 then dispfa else fixed_method i;
      vn_break_count = 0;
      jump_to_radau5 = false;
    },
  )

module _ {ℓ} {W : Type ℓ} ⦃d : Double W⦄ where
  -- `B[stage - 1]`.
  unfoldable pub b_row : ℕ → List W
  b_row (suc zero) = lit 1 0 / lit 4 0 ∷ []
  b_row (suc (suc zero)) = lit 3 0 / lit 32 0 ∷ lit 9 0 / lit 32 0 ∷ []
  b_row (suc (suc (suc zero))) =
      (lit 1932 0 / lit 2197 0)
      ∷ (negate (lit 7200 0) / lit 2197 0)
      ∷ (lit 7296 0 / lit 2197 0)
      ∷ []
  b_row (suc (suc (suc (suc zero)))) =
      (lit 439 0 / lit 216 0)
      ∷ negate (lit 8 0)
      ∷ (lit 3680 0 / lit 513 0)
      ∷ (negate (lit 845 0) / lit 4104 0)
      ∷ []
  b_row (suc (suc (suc (suc (suc zero))))) =
      (negate (lit 8 0) / lit 27 0)
      ∷ lit 2 0
      ∷ (negate (lit 3544 0) / lit 2565 0)
      ∷ (lit 1859 0 / lit 4104 0)
      ∷ (negate (lit 11 0) / lit 40 0)
      ∷ []
  b_row _ = []

  abbrev pub p36 : List W
  p36 =
      (lit 16 0 / lit 135 0)
      ∷ lit 0 0
      ∷ (lit 6656 0 / lit 12825 0)
      ∷ (lit 28561 0 / lit 56430 0)
      ∷ (negate (lit 9 0) / lit 50 0)
      ∷ (lit 2 0 / lit 55 0)
      ∷ []

  abbrev pub p4 : List W
  p4 =
      (lit 25 0 / lit 216 0)
      ∷ lit 0 0
      ∷ (lit 1408 0 / lit 2565 0)
      ∷ (lit 2197 0 / lit 4104 0)
      ∷ (negate (lit 1 0) / lit 5 0)
      ∷ lit 0 0
      ∷ []

  abbrev pub p72 : List W
  p72 =
      lit 41975960186956 14
      ∷ lit 44944365216575 14
      ∷ lit 1296419611922 13
      ∷ lit 12199235635231 16
      ∷ negate (lit 66250690732054 18)
      ∷ lit 11118997045939 19
      ∷ []

  abbrev pub p28 : List W
  p28 =
      negate (lit 38402741318519 14)
      ∷ lit 28983442536296 14
      ∷ lit 10619636598535 13
      ∷ lit 36673230572343 15
      ∷ negate (lit 46504806400000 16)
      ∷ lit 20657863636364 17
      ∷ []

  abbrev pub a_coef : List W
  a_coef =
      (lit 1 0 / lit 4 0) ∷ (lit 3 0 / lit 8 0) ∷ (lit 12 0 / lit 13 0) ∷ lit 1 0 ∷ lit 5 1 ∷ []

  abbrev pub q : W
  q = lit 11 1

  abbrev pub lnq : W
  lnq = lit 1 0 / log q

  abbrev pub ca1a : W
  ca1a = lit 1351851851851851851852 21

  abbrev pub ca1b : W
  ca1b = lit 314690666666666666667 21

  abbrev pub d_coef : W
  d_coef = lit 24 2

  -- `MAXDOUBLE`, 100.0e+300.
  abbrev pub max_double : W
  max_double = lit (10 ^ 302) 0

  abbrev pub element : Option W → Outcome W
  element none = throw undefined
  element (some x) = ok x

  abbrev pub at : List W → ℕ → Outcome W
  at row j = element (get_elem? row j)

  -- `for (j = 0; j < count; ++j) sum += coefficients[j] * row[j]`.
  unfoldable pub dot : ℕ → W → List W → List W → Outcome W
  dot zero sum coefficients row = ok sum
  dot (suc count) sum (c ∷ coefficients) (x ∷ row) = dot count (sum + c * x) coefficients row
  dot (suc count) sum _ _ = throw undefined

  -- `StadScalar`, on the row `k[eqNum]`.
  unfoldable pub stad_scalar : ℕ → List W → Outcome W
  stad_scalar stage row = dot stage (lit 0 0) (b_row stage) row

  -- `Y0[i] = y[i] + increment(k[i])` for each `i < n`.
  unfoldable pub points : (List W → Outcome W) → List W → List (List W) → Outcome (List W)
  points increment [] k = ok []
  points increment (x ∷ y) (row ∷ k) = do
    dx ← increment row
    rest ← points increment y k
    ok ((x + dx) ∷ rest)
  points increment (x ∷ y) [] = throw undefined

  -- `row[j] = v`.
  unfoldable pub put : List W → ℕ → W → Outcome (List W)
  put row j v = if ltb j (length row) then ok (set row j v) else throw undefined

  -- `k[i][m] = fm[i] * h` for each `i < n`.
  unfoldable pub set_column : ℕ → W → ℕ → List W → List (List W) → Outcome (List (List W))
  set_column m h zero fm k = ok k
  set_column m h (suc n) (x ∷ fm) (row ∷ k) = do
    row' ← put row m (x * h)
    rest ← set_column m h n fm k
    ok (row' ∷ rest)
  set_column m h (suc n) _ _ = throw undefined

  -- `k[i][0] *= factor` for each `i < n`.
  unfoldable pub scale_column : W → ℕ → List (List W) → Outcome (List (List W))
  scale_column factor zero k = ok k
  scale_column factor (suc n) (row ∷ k) = do
    x ← at row 0
    row' ← put row 0 (x * factor)
    rest ← scale_column factor n k
    ok (row' ∷ rest)
  scale_column factor (suc n) [] = throw undefined

  -- `error = max(error, fabs(entry(k[i])))` over the first `n` rows.
  unfoldable pub max_over : (List W → Outcome W) → ℕ → List (List W) → W → Outcome W
  max_over entry zero k acc = ok acc
  max_over entry (suc n) (row ∷ k) acc = do x ← entry row; max_over entry n k (max acc (fabs x))
  max_over entry (suc n) [] acc = throw undefined

  -- `error = max(error, fabs(f_end[i] * h - k[i][0]))` over the first `n` rows.
  unfoldable pub end_error : W → ℕ → List W → List (List W) → W → Outcome W
  end_error h zero f_end k acc = ok acc
  end_error h (suc n) (x ∷ f_end) (row ∷ k) acc = do
    k0 ← at row 0
    end_error h n f_end k (max acc (fabs (x * h - k0)))
  end_error h (suc n) _ _ acc = throw undefined

  -- `cn1 += (P36[j] - P4[j]) * k[i][j]` for `j < 6`.
  abbrev pub p_difference : List W
  p_difference = zip_with (λ a b. a - b) p36 p4

  -- `CalcVn`.
  unfoldable pub vn_of_row : List W → Outcome W
  vn_of_row row = do
    k1 ← at row 1
    k0 ← at row 0
    k2 ← at row 2
    let difference = k1 - k0
    let divisor = if lt (fabs difference) (lit 1 15) then lit 1 15 else difference
    ok ((lit 32 0 * k2 - lit 48 0 * k1 + lit 16 0 * k0) / divisor)

  unfoldable pub calc_vn : List (List W) → Outcome W
  calc_vn k = do vn ← max_over vn_of_row (length k) k (lit 0 0); ok (vn / lit 9 0)

  abbrev pub fifth_root : W → W → W
  fifth_root tolerance error = pow (tolerance / error) (lit 1 0 / lit 5 0)

  -- The factors of a smaller and of the next step.
  abbrev pub shrink : W → W → W
  shrink tolerance error = min (lit 9 1) (max (lit 5 1) (fifth_root tolerance error))

  abbrev pub grow : W → W → W
  grow tolerance error = min (lit 2 0) (max (lit 9 1) (fifth_root tolerance error))

  module _ (f : OdeFunction W) where
    -- Stage `m`: `Y0`, `f` there, and the column `m` of `k`.
    unfoldable pub stage : ℕ → W → List W → W → ℕ → List (List W) → Outcome (List (List W))
    stage m t y h n k = do
      y0 ← points (stad_scalar m) y k
      a ← at a_coef (pred m)
      fm ← f (t + a * h) y0
      set_column m h n fm k

    -- The stages from `m` on, `count` of them.
    unfoldable pub stages : ℕ → ℕ → W → List W → W → ℕ → List (List W) → Outcome (List (List W))
    stages zero m t y h n k = ok k
    stages (suc count) m t y h n k = stage m t y h n k >>= stages count (suc m) t y h n
