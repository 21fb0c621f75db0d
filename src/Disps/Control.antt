-- ===== src/Disps/Control.antt =====
-- DISPSSolver.cpp, the controls of accuracy and stability. The variant is `variants_[currentIndex_]`,
-- which is the one that `Solve` steps with.
use odeclient_server.Base.Lists.{List, Bool, true, false, ◌==◌, ◌&&◌, if◌then◌else◌}
use odeclient_server.Base.Outcome.{Outcome, ok, ◌>>=◌}
use odeclient_server.Base.Double.{Double, lit, ◌+◌, ◌-◌, ◌*◌, ◌/◌, fabs, pow, lt}
use odeclient_server.Disps.{DispsVariant, at, subtract, norm}

-- The result of a control, with the references `newH` and `needSwitch`.
pub record Verdict {ℓ} (W : Type ℓ) : Type ℓ where
  pub accept : Bool
  pub new_h : W
  pub need_switch : Bool

module _ {ℓ} {W : Type ℓ} ⦃d : Double W⦄ where
  abbrev pub eps : W
  eps = lit 1 15

  -- `(Norm(diff) * Norm(diff)) / ((k_norm + eps) * (Norm(diff) + eps))`.
  abbrev pub vn : W → W → W
  vn diff_norm k_norm = (diff_norm * diff_norm) / ((k_norm + eps) * (diff_norm + eps))

  unfoldable pub control1st_order : DispsVariant W → List (List W) → W → W → Outcome (Verdict W)
  control1st_order variant k_stages h tolerance = do
    k1 ← at k_stages 0
    k2 ← at k_stages 1
    let delta11 = (lit 2 0 * fabs (lit 1 0 - lit 2 0 * norm k1)) / (norm k2 + eps)
    diff ← subtract k2 k1
    let a_prime = delta11 * norm diff
    let need_switch = lt variant.gamma (vn (norm diff) (norm k2))
    ok (
        if lt tolerance a_prime
        then record {
          accept = false;
          new_h = h * lit 8 1 * pow (tolerance / (a_prime + eps)) (lit 5 1);
          need_switch = need_switch;
        }
        else record { accept = true; new_h = h * lit 12 1; need_switch = need_switch })

  -- `variant.stages == 5 && variant.order == 2`.
  abbrev pub is_disps25 : DispsVariant W → Bool
  is_disps25 variant = (variant.stages == 5) && (variant.order == 2)

  unfoldable pub control2nd_order : DispsVariant W → List (List W) → W → W → Outcome (Verdict W)
  control2nd_order variant k_stages h tolerance = do
    k1 ← at k_stages 0
    let delta11 = lit 1 0 - lit 4 0 * norm k1
    k3 ← at k_stages 2
    k2 ← at k_stages 1
    diff ← subtract k3 k2
    let b_prime = delta11 * norm diff
    let need_switch = lt variant.gamma (vn (norm diff) (norm k3))
    let q = if is_disps25 variant then lit 4 1 else lit 8 1
    ok (
        if lt tolerance b_prime
        then record {
          accept = false;
          new_h = h * q * pow (tolerance / (b_prime + eps)) (lit 1 0 / lit 3 0);
          need_switch = if is_disps25 variant then true else need_switch;
        }
        else record { accept = true; new_h = h * lit 11 1; need_switch = need_switch })

  unfoldable pub control3rd_order : DispsVariant W → List (List W) → W → W → Outcome (Verdict W)
  control3rd_order variant k_stages h tolerance = do
    k1 ← at k_stages 0
    k2 ← at k_stages 1
    let g_n1 = (lit 1 0 - lit 2 0 * norm k1) / (lit 2 0 * norm k2 + eps)
    k4 ← at k_stages 3
    k3 ← at k_stages 2
    diff ← subtract k4 k3
    let c_prime = g_n1 * norm diff
    let need_switch = lt variant.gamma (vn (norm diff) (norm k4))
    ok (
        if lt tolerance c_prime
        then record {
          accept = false;
          new_h = h * lit 8 1 * pow (tolerance / (c_prime + eps)) (lit 25 2);
          need_switch = need_switch;
        }
        else record { accept = true; new_h = h * lit 105 2; need_switch = need_switch })

  -- The choice of the control in `Solve`, by the order of the variant.
  unfoldable pub control : DispsVariant W → List (List W) → W → W → Outcome (Verdict W)
  control variant k_stages h tolerance =
      if variant.order == 1
      then control1st_order variant k_stages h tolerance
      else if variant.order == 2
      then control2nd_order variant k_stages h tolerance
      else control3rd_order variant k_stages h tolerance
