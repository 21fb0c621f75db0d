-- ===== src/Dispf/StepB/Counter.antt =====
-- DISPFSolver::StepDISPFB: the stability control stands twice in it.
use Prim.Native.Nat.{◌+◌ as plus}
use odeclient_server.Base.Lists.{
  ℕ, ◌≡◌, ap, ◌⊎◌, refl, List, HasSize, Bool, true, false, inl, inr, arith,
}
use odeclient_server.Base.Outcome.{Yields, yields, Yields-bind, Post, Never}
use odeclient_server.Base.Double.{Double, lit, ◌+◌, ◌*◌}
use odeclient_server.Solver.{OdeFunction, IsSystem}
use odeclient_server.Dispf.{grow, Config, Members, Stepped}
use odeclient_server.Dispf.Sizes.{IsMatrix, set_column-Yields, calc_vn-Yields}
use odeclient_server.Dispf.Control.{control_enabled}
use odeclient_server.Dispf.Steps.{cn1-Yields}
use odeclient_server.Dispf.Stability.{count_break}
use odeclient_server.Dispf.StepB.{switch_b, accept_b, step_dispfb}
use odeclient_server.Dispf.StepB.Keeps.{step_dispfb-Post}

module _ {ℓ} {W : Type ℓ} ⦃d : Double W⦄ where
  -- The counter is reset, or it goes up by 2.
  abbrev pub CountsTwice : Members W → Stepped W → Type 0
  CountsTwice s r =
      (r.members.vn_break_count ≡ 0) ⊎ (r.members.vn_break_count ≡ plus s.vn_break_count 2)

  switch_b-count :
      (config : Config W) (tolerance vn rn vn1 an1 error : W) (s : Members W)
      → (switch_b config tolerance vn rn vn1 an1 error s).vn_break_count ≡ s.vn_break_count
  switch_b-count config tolerance vn rn vn1 an1 error s = ground arith

  module _ (f : OdeFunction W) (config : Config W) (n : ℕ) (system : IsSystem n f)
      (on : config.stability_control_enabled ≡ true) where
    twice :
        (stiff : Bool) (y : List W) (h : W) (s0 s1 s2 s s' : Members W)
        → s0.vn_break_count ≡ s.vn_break_count
        → s1 ≡ count_break 40 stiff s0
        → s'.vn_break_count ≡ s1.vn_break_count
        → s2 ≡ count_break 40 stiff s'
        → CountsTwice s (record { y = y; h = h; members = s2 })
    twice true y h s0 s1 s2 s s' e0 e1 e' e2 =
        inr (omega (arith, ap (λ s. s.vn_break_count) e1, ap (λ s. s.vn_break_count) e2, e', e0))
    twice false y h s0 s1 s2 s s' e0 e1 e' e2 = inl (ap (λ s. s.vn_break_count) e2)

    accept_b-CountsTwice :
        (t : W) (y y' : List W) (h tolerance an1 : W) (f_end : List W) (k : List (List W))
        (s : Members W)
        → HasSize n y
        → HasSize n y'
        → HasSize n f_end
        → IsMatrix n k
        → Yields (CountsTwice s) (accept_b f config t y y' h tolerance an1 f_end k s)
    unfolding accept_b
    accept_b-CountsTwice t y y' h tolerance an1 f_end k s size size' s_end m = rw size.sized (
        Yields-bind (cn1-Yields n k m) λ error _. Yields-bind (calc_vn-Yields n k m) λ vn1 _.
          Yields-bind (set_column-Yields 0 _ n f_end k (omega arith) s_end m) λ k' m'.
            let (stiff, e) =
              control_enabled f n system config 40 (lit 285 1) (t + h) y' (h * grow tolerance an1)
                on size' in
            Yields-bind (e _) λ s1 e1. Yields-bind (e _) λ s2 e2. yields (
              twice stiff y' (h * grow tolerance an1) _ s1 s2 s _ refl e1
                (switch_b-count config tolerance _ _ vn1 an1 error s1) e2))

    -- With the control enabled, an accepted step of StepDISPFB resets `vnBreakCount` or raises it by
    -- 2.
    pub step_dispfb-CountsTwice :
        (inner fuel : ℕ) (t : W) (y : List W) (h tolerance : W) (s : Members W)
        → HasSize n y
        → IsMatrix n s.k
        → Post (CountsTwice s) Never (step_dispfb f config inner fuel t y h tolerance s)
    step_dispfb-CountsTwice inner fuel t y h tolerance s size m =
        step_dispfb-Post f config n system (CountsTwice s) inner fuel t y h tolerance s
          (λ y' h' an1 f_end k k0.
            accept_b-CountsTwice t y y' h' tolerance an1 f_end k (record s { k = k0 }) size)
          size m
