-- ===== src/Dispf/Steps.antt =====
-- DISPFSolver::Step on a system of equations: what it throws and what it changes.
use odeclient_server.Base.Lists.{Bool, ℕ, ◌≡◌, refl, List, HasSize, false, arith}
use odeclient_server.Base.Outcome.{Yields, yields, Yields-bind}
use odeclient_server.Base.Double.{Double, lit}
use odeclient_server.Dispf.{Method, Config, Members, Stepped, p_difference}
use odeclient_server.Dispf.Sizes.{IsMatrix, Total, at-Yields, dot-Total, max_over-Yields}
use odeclient_server.Dispf.Control.{Controlled}
use odeclient_server.Dispf.StepA.{first_difference, switch_a}
use odeclient_server.Dispf.StepB.{quarter, switch_b}
use odeclient_server.Dispf.StepC.{cn1, switch_c}

module _ {ℓ} {W : Type ℓ} ⦃d : Double W⦄ where
  -- What a step leaves: a point and a matrix of the dimension `n`; the method, where the order is
  -- fixed; the jump, where the control is disabled.
  pub record KeepsAll (config : Config W) (n : ℕ) (method : Method) (jump : Bool) (r : Stepped W)
      : Type ℓ where
    pub size : HasSize n r.y
    pub matrix : IsMatrix n r.members.k
    pub fixed : config.variable_order ≡ false → r.members.current_method ≡ method
    pub uncontrolled : config.stability_control_enabled ≡ false → r.members.jump_to_radau5 ≡ jump

  abbrev pub Keeps : Config W → ℕ → Members W → Stepped W → Type ℓ
  Keeps config n s = KeepsAll config n s.current_method s.jump_to_radau5

  pub first_difference-Total : Total {W = W} first_difference
  unfolding first_difference
  first_difference-Total row s =
      Yields-bind (at-Yields row 1 (omega (arith, s.sized)))
        λ k1 _. Yields-bind (at-Yields row 0 (omega (arith, s.sized))) λ k0 _. yields tt

  pub quarter-Total : Total {W = W} quarter
  unfolding quarter
  quarter-Total row s = Yields-bind (at-Yields row 0 (omega (arith, s.sized))) λ k0 _. yields tt

  pub cn1-Yields : (n : ℕ) (k : List (List W)) → IsMatrix n k → Yields (λ _. Unit {0}) (cn1 n k)
  unfolding cn1
  cn1-Yields n k m =
      Yields-bind
        (max_over-Yields _ n k (lit 0 0) (dot-Total p_difference (record { sized = refl })) m)
        λ largest _. yields tt

  -- A switch of the method keeps the rest, and the method too where the order is fixed.
  pub record Switched (config : Config W) (s s' : Members W) : Type ℓ where
    pub k_eq : s'.k ≡ s.k
    pub jump_eq : s'.jump_to_radau5 ≡ s.jump_to_radau5
    pub fixed : config.variable_order ≡ false → s' ≡ s

  pub switch_a-Switched :
      (config : Config W) (vn rn vn1 : W) (s : Members W)
      → Switched config s (switch_a config vn rn vn1 s)
  switch_a-Switched config vn rn vn1 s = record {
    k_eq = ground arith;
    jump_eq = ground arith;
    fixed = λ e. ground arith;
  }

  pub switch_b-Switched :
      (config : Config W) (tolerance vn rn vn1 an1 error : W) (s : Members W)
      → Switched config s (switch_b config tolerance vn rn vn1 an1 error s)
  switch_b-Switched config tolerance vn rn vn1 an1 error s = record {
    k_eq = ground arith;
    jump_eq = ground arith;
    fixed = λ e. ground arith;
  }

  pub switch_c-Switched :
      (config : Config W) (tolerance vn an1 : W) (s : Members W)
      → Switched config s (switch_c config tolerance vn an1 s)
  switch_c-Switched config tolerance vn an1 s = record {
    k_eq = ground arith;
    jump_eq = ground arith;
    fixed = λ e. ground arith;
  }

  -- The control after the matrix is written, followed by a switch.
  pub keeps :
      (config : Config W) (n limit : ℕ) (s s' s'' : Members W) (k : List (List W)) (y : List W)
      (h : W)
      → IsMatrix n k
      → HasSize n y
      → Controlled config limit (record s { k = k }) s'
      → Switched config s' s''
      → Keeps config n s (record { y = y; h = h; members = s'' })
  keeps config n limit s s' s'' k y h m size c sw = record {
    size = size;
    matrix = rw (sw.k_eq, c.k_eq) m;
    fixed = λ e. rw (sw.fixed e, c.method_eq) refl;
    uncontrolled = λ e. rw (sw.jump_eq, c.disabled e) refl;
  }
