-- ===== src/Dispf/Fuel.antt =====
-- DISPFSolver::Step with more fuel.
use odeclient_server.Base.Lists.{ℕ, zero, suc, ◌≤◌, refl, inl, inr, List, length, arith}
use odeclient_server.Base.Double.{Double, lit, lt, ◌+◌, ◌*◌}
use odeclient_server.Base.Fuel.{Extends, Extends-same, Extends-bind, Extends-if}
use odeclient_server.Solver.{OdeFunction}
use odeclient_server.Dispf.{
  Config, Members, Method, dispfa, dispfb, dispfc, p72, p28, ca1a, ca1b, d_coef, dot, stad_scalar,
  points, set_column, scale_column, max_over, end_error, shrink, stages,
}
use odeclient_server.Dispf.StepA.{first_difference, start_a, step_dispfa}
use odeclient_server.Dispf.StepB.{quarter, start_b, step_dispfb}
use odeclient_server.Dispf.StepC.{cn1, loop_c, step_dispfc}
use odeclient_server.Dispf.Solve.{State, step_by, step, round}

module _ {ℓ} {W : Type ℓ} ⦃d : Double W⦄ (f : OdeFunction W) where
  start_a-Extends :
      (n m : ℕ)
      → n ≤ m
      → (t : W) (y : List W) (h tolerance : W) (k : List (List W))
      → Extends (start_a f n t y h tolerance k) (start_a f m t y h tolerance k)
  unfolding start_a
  start_a-Extends zero m more t y h tolerance k = inl refl
  start_a-Extends (suc n) zero more t y h tolerance k = absurd (omega arith)
  start_a-Extends (suc n) (suc m) more t y h tolerance k =
      Extends-same (points (stad_scalar 1) y k) λ y0.
        Extends-same (f (t + lit 25 2 * h) y0) λ f_stage.
          Extends-same (set_column 1 h (length y) f_stage k) λ k'.
            Extends-same (max_over first_difference (length y) k' (lit 0 0)) λ largest.
              Extends-if (lt tolerance (largest * ca1a))
                (Extends-same (scale_column (shrink tolerance (largest * ca1a)) (length y) k')
                  λ k''. start_a-Extends n m (omega arith) t y _ tolerance k'')
                (inr refl)

  start_b-Extends :
      (n m : ℕ)
      → n ≤ m
      → (t : W) (y : List W) (h tolerance : W) (k : List (List W))
      → Extends (start_b f n t y h tolerance k) (start_b f m t y h tolerance k)
  unfolding start_b
  start_b-Extends zero m more t y h tolerance k = inl refl
  start_b-Extends (suc n) zero more t y h tolerance k = absurd (omega arith)
  start_b-Extends (suc n) (suc m) more t y h tolerance k = Extends-same (points quarter y k) λ y0.
      Extends-same (f (t + lit 25 2 * h) y0) λ f_stage.
        Extends-same (set_column 1 h (length y) f_stage k) λ k'.
          Extends-same (max_over first_difference (length y) k' (lit 0 0)) λ largest.
            Extends-if (lt tolerance (largest * (ca1b * d_coef)))
              (Extends-same
                (scale_column (shrink tolerance (largest * (ca1b * d_coef))) (length y) k')
                λ k''. start_b-Extends n m (omega arith) t y _ tolerance k'')
              (inr refl)

  module _ (config : Config W) where
    step_dispfa-Extends :
        (i j : ℕ)
        → i ≤ j
        → (n m : ℕ) → n ≤ m
        → (t : W) (y : List W) (h tolerance : W) (s : Members W)
        → Extends
            (step_dispfa f config i n t y h tolerance s)
            (step_dispfa f config j m t y h tolerance s)
    unfolding step_dispfa
    step_dispfa-Extends i j inner zero m more t y h tolerance s = inl refl
    step_dispfa-Extends i j inner (suc n) zero more t y h tolerance s = absurd (omega arith)
    step_dispfa-Extends i j inner (suc n) (suc m) more t y h tolerance s =
        Extends-bind (start_a-Extends i j inner t y h tolerance s.k) λ r.
          Extends-same (stages f 4 2 t y r.h (length y) r.k) λ k.
            Extends-same (points (dot 6 (lit 0 0) p72) y k) λ y'.
              Extends-same (f (t + r.h) y') λ f_end.
                Extends-same (end_error r.h (length y) f_end k (lit 0 0)) λ largest.
                  Extends-if (lt tolerance (largest * ca1a))
                    (Extends-same (scale_column (shrink tolerance (largest * ca1a)) (length y) k)
                      λ k'. step_dispfa-Extends i j inner n m (omega arith) t y _ tolerance _)
                    (inr refl)

    step_dispfb-Extends :
        (i j : ℕ)
        → i ≤ j
        → (n m : ℕ) → n ≤ m
        → (t : W) (y : List W) (h tolerance : W) (s : Members W)
        → Extends
            (step_dispfb f config i n t y h tolerance s)
            (step_dispfb f config j m t y h tolerance s)
    unfolding step_dispfb
    step_dispfb-Extends i j inner zero m more t y h tolerance s = inl refl
    step_dispfb-Extends i j inner (suc n) zero more t y h tolerance s = absurd (omega arith)
    step_dispfb-Extends i j inner (suc n) (suc m) more t y h tolerance s =
        Extends-bind (start_b-Extends i j inner t y h tolerance s.k) λ r.
          Extends-same (stages f 4 2 t y r.h (length y) r.k) λ k.
            Extends-same (points (dot 6 (lit 0 0) p28) y k) λ y'.
              Extends-same (f (t + r.h) y') λ f_end.
                Extends-same (end_error r.h (length y) f_end k (lit 0 0)) λ largest.
                  Extends-if (lt tolerance (largest * (ca1b * d_coef)))
                    (Extends-same
                      (scale_column (shrink tolerance (largest * (ca1b * d_coef))) (length y) k)
                      λ k'. step_dispfb-Extends i j inner n m (omega arith) t y _ tolerance _)
                    (inr refl)

    loop_c-Extends :
        (n m : ℕ)
        → n ≤ m
        → (t : W) (y : List W) (h tolerance : W) (k : List (List W)) (s : Members W)
        → Extends (loop_c f config n t y h tolerance k s) (loop_c f config m t y h tolerance k s)
    unfolding loop_c
    loop_c-Extends zero m more t y h tolerance k s = inl refl
    loop_c-Extends (suc n) zero more t y h tolerance k s = absurd (omega arith)
    loop_c-Extends (suc n) (suc m) more t y h tolerance k s =
        Extends-same (stages f 5 1 t y h (length y) k) λ k'.
          Extends-same (cn1 (length y) k') λ error.
            Extends-if (lt tolerance error)
              (Extends-same (scale_column (shrink tolerance error) (length y) k')
                λ k''. loop_c-Extends n m (omega arith) t y _ tolerance k'' s)
              (inr refl)

    step_by-Extends :
        (n m : ℕ)
        → n ≤ m
        → (method : Method) (t : W) (y : List W) (h tolerance : W) (s : Members W)
        → Extends
            (step_by f config n method t y h tolerance s)
            (step_by f config m method t y h tolerance s)
    unfolding step_by step_dispfc
    step_by-Extends n m more dispfa t y h tolerance s =
        step_dispfa-Extends n m more n m more t y h tolerance s
    step_by-Extends n m more dispfb t y h tolerance s =
        step_dispfb-Extends n m more n m more t y h tolerance s
    step_by-Extends n m more dispfc t y h tolerance s = Extends-same (f t y) λ ff.
        Extends-same (set_column 0 h (length y) ff s.k)
          λ k. loop_c-Extends n m more t y h tolerance k s

    pub round-Extends :
        (n m : ℕ)
        → n ≤ m
        → (t_end tolerance : W) (s : State W)
        → Extends (round f config n t_end tolerance s) (round f config m t_end tolerance s)
    unfolding round step
    round-Extends n m more t_end tolerance s =
        Extends-bind
          (step_by-Extends n m more s.members.current_method s.run.t s.run.y _ tolerance s.members)
          λ r. inr refl
