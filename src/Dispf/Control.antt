-- ===== src/Dispf/Control.antt =====
-- DISPFSolver.cpp: the estimate of the Jacobian and the stability control, on a system of equations.
use odeclient_server.Base.Lists.{
  ℕ, zero, suc, ◌≡◌, refl, List, [], ◌∷◌, length, HasSize, Bool, true, false, arith, Bool-cases,
  inl, inr,
}
use odeclient_server.Base.Outcome.{Yields-value, Yields, yields, Yields-bind}
use odeclient_server.Base.Double.{Double, lit, ◌+◌}
use odeclient_server.Base.Int.{ℤ}
use odeclient_server.Solver.{OdeFunction, IsSystem}
use odeclient_server.Dispf.{Config, Members}
use odeclient_server.Dispf.Sizes.{at-Yields, set-HasSize}
use odeclient_server.Dispf.Jacobian.{difference_column, columns_from, estimate_jacobian_eigenvalue}
use odeclient_server.Dispf.Stability.{is_stiff, count_break, control_stability}

module _ {ℓ} {W : Type ℓ} ⦃d : Double W⦄ where
  difference_column-Yields :
      (n : ℕ) (f_pert f0 : List W)
      → HasSize n f_pert
      → HasSize n f0
      → Yields (λ _. Unit {0}) (difference_column n f_pert f0)
  unfolding difference_column
  difference_column-Yields zero f_pert f0 s s' = yields tt
  difference_column-Yields (suc n) [] f0 s s' = absurd (omega (arith, s.sized))
  difference_column-Yields (suc n) (a ∷ f_pert) [] s s' = absurd (omega (arith, s'.sized))
  difference_column-Yields (suc n) (a ∷ f_pert) (b ∷ f0) s s' =
      Yields-bind
        (difference_column-Yields n f_pert f0 (record { sized = omega (arith, s.sized) })
          (record { sized = omega (arith, s'.sized) }))
        λ rest _. yields tt

  -- What the control leaves of the members: nothing is changed where it is disabled, and else only
  -- the counter and the jump.
  pub record Controlled (config : Config W) (limit : ℕ) (s s' : Members W) : Type ℓ where
    pub disabled : config.stability_control_enabled ≡ false → s' ≡ s
    pub stiff : Bool
    pub enabled : config.stability_control_enabled ≡ true → s' ≡ count_break limit stiff s
    pub k_eq : s'.k ≡ s.k
    pub method_eq : s'.current_method ≡ s.current_method

  count_break-k :
      (limit : ℕ) (stiff : Bool) (s : Members W)
      → ((count_break limit stiff s).k ≡ s.k)
        × ((count_break limit stiff s).current_method ≡ s.current_method)
  count_break-k limit true s = (refl, refl)
  count_break-k limit false s = (refl, refl)

  module _ (f : OdeFunction W) (n : ℕ) (system : IsSystem n f) where
    columns_from-Yields :
        (left j : ℕ) (t : W) (y f0 : List W)
        → Prim.Native.Nat.◌+◌ j left ≡ n
        → HasSize n y
        → HasSize n f0
        → Yields (λ _. Unit {0}) (columns_from f left j t y f0)
    unfolding columns_from
    columns_from-Yields zero j t y f0 e s s0 = yields tt
    columns_from-Yields (suc left) j t y f0 e s s0 =
        Yields-bind (at-Yields y j (omega (arith, s.sized))) λ yj _.
          Yields-bind (system t _ (set-HasSize j (yj + lit 1 8) s)) λ f_pert s1.
            Yields-bind
              (difference_column-Yields (length y) f_pert f0
                (record { sized = omega (arith, s1.sized, s.sized) })
                (record { sized = omega (arith, s0.sized, s.sized) }))
              λ column _.
                Yields-bind (columns_from-Yields left (suc j) t y f0 (omega arith) s s0)
                  λ rest _. yields tt

    estimate-Yields :
        (method : ℤ) (t : W) (y : List W)
        → HasSize n y
        → Yields (λ _. Unit {0}) (estimate_jacobian_eigenvalue f method t y)
    unfolding estimate_jacobian_eigenvalue
    estimate-Yields method t y s = Yields-bind (system t y s) λ f0 s0.
        Yields-bind (columns_from-Yields (length y) 0 t y f0 (omega (arith, s.sized)) s s0)
          λ columns _. yields tt

    pub control-Controlled :
        (config : Config W) (limit : ℕ) (interval t : W) (y : List W) (h : W) (s : Members W)
        → HasSize n y
        → Yields (Controlled config limit s) (control_stability f config limit interval t y h s)
    unfolding control_stability
    control-Controlled config limit interval t y h s size =
        elim (Bool-cases config.stability_control_enabled) [
          | inl on ↦ rw on (
              Yields-bind (estimate-Yields config.jacobian_method t y size) λ lambda_est _.
                let (k_eq, method_eq) = count_break-k limit _ s in
                yields (record {
                  disabled = λ off. absurd cc;
                  stiff = _;
                  enabled = λ _. refl;
                  k_eq = k_eq;
                  method_eq = method_eq;
                }))
          | inr off ↦ rw off (
              yields (record {
                disabled = λ _. refl;
                stiff = false;
                enabled = λ on. absurd cc;
                k_eq = refl;
                method_eq = refl;
              }))
        ]

    -- Where the control is enabled, the estimate at one point and size counts the same way for all
    -- members.
    pub control_enabled :
        (config : Config W) (limit : ℕ) (interval t : W) (y : List W) (h : W)
        → config.stability_control_enabled ≡ true
        → HasSize n y
        → (stiff : Bool) × ((s : Members W)
            → Yields
                (λ s'. s' ≡ count_break limit stiff s)
                (control_stability f config limit interval t y h s))
    unfolding control_stability
    control_enabled config limit interval t y h on size =
        let (lambda_est, e, _) = Yields-value (estimate-Yields config.jacobian_method t y size) in
        (is_stiff config.gamma interval h lambda_est, λ s. rw (on, e) (yields refl))
