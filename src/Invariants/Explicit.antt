-- ===== src/Invariants/Explicit.antt =====
-- EulerSolver, RK2Solver, RK23SSolver and STEKSSolver: their steps stay in an invariant family.
use odeclient_server.Base.Lists.{ℕ, ◌≡◌, List, Bool-cases, inl, inr}
use odeclient_server.Base.Outcome.{ok, Post, returns, Post-bind}
use odeclient_server.Base.Double.{Double, lt}
use odeclient_server.Solver.{OdeFunction, Attempt, accepted, rejected}
use odeclient_server.Euler.Step.{IsAccepted}
use odeclient_server.Rk2
use odeclient_server.Rk2.{Trial}
use odeclient_server.Rk2.Step.{Tries, settled, tried}
use odeclient_server.Rk23s
use odeclient_server.Steks
use odeclient_server.Steks.{Stages}
use odeclient_server.Vectors.{multiply_scalar_by_vector as mul, subtract_vectors}
use odeclient_server.Invariants.{Any, anything, IsInvariant, Post-value, times, summed, moved}

module _ {ℓ} {W : Type ℓ} ⦃d : Double W⦄ {f : OdeFunction W} {P Z : List W → Type ℓ}
    (inv : IsInvariant f P Z) where
  abbrev pub Stays : Attempt W → Type ℓ
  Stays (accepted y h) = P y
  Stays (rejected h) = Unit

  pub euler_step-stays :
      {n : ℕ} {t : W} {y : List W} {h tolerance : W} {y' : List W} {h' : W}
      → P y
      → IsAccepted f n t y h tolerance y' h'
      → P y'
  euler_step-stays {t = t} {y} {h} p a =
      Post-value (moved inv p (times inv h (Post-value (inv.slope t y p) a.slope_eq))) a.moved

  rk2_trial-Post :
      (t : W) (y : List W) (h : W)
      → P y
      → Post (λ (r : Trial W). P r.y_next) Any (Rk2.trial f t y h)
  unfolding Rk2.trial
  rk2_trial-Post t y h p = Post-bind (inv.slope t y p) λ f1 z1.
      Post-bind (moved inv p (times inv _ (times inv h z1))) λ y2 p2.
        Post-bind (inv.slope _ y2 p2) λ f2 z2.
          Post-bind (summed inv (times inv _ (times inv h z1)) (times inv _ (times inv h z2)))
            λ k12 z12. Post-bind (moved inv p z12) λ y_next p_next.
              Post-bind (anything (f _ y_next)) λ f_next _.
                Post-bind (anything (subtract_vectors (mul h f2) (mul h f1))) λ diff1 _.
                  Post-bind (anything (subtract_vectors (mul h f_next) (mul h f1)))
                    λ diff2 _. returns p_next

  pub rk2_step-stays :
      {t : W} {y : List W} {tolerance h : W} {r : List W × W}
      → P y
      → Tries f t y tolerance h r
      → P r.0
  rk2_step-stays {t} {y} p (settled {h} e within) = Post-value (rk2_trial-Post t y h p) e
  rk2_step-stays p (tried e above rest) = rk2_step-stays p rest

  rk23s_combine-Post :
      {y k1 k2 k3 : List W} → P y → Z k1 → Z k2 → Z k3 → Post P Any (Rk23s.combine y k1 k2 k3)
  unfolding Rk23s.combine
  rk23s_combine-Post p z1 z2 z3 =
      Post-bind (summed inv (times inv _ z2) (times inv _ z3))
        λ k23 z23. Post-bind (summed inv (times inv _ z1) z23) λ k123 z123. moved inv p z123

  rk23s_step-Post :
      (t : W) (y : List W) (h tolerance : W) → P y → Post Stays Any (Rk23s.step f t y h tolerance)
  unfolding Rk23s.step
  rk23s_step-Post t y h tolerance p = Post-bind (inv.slope t y p) λ f1 z1.
      let k1 = times inv h z1 in
      Post-bind (moved inv p (times inv _ k1)) λ y2 p2. Post-bind (inv.slope _ y2 p2) λ f2 z2.
        let k2 = times inv h z2 in
        Post-bind (summed inv (times inv _ k1) (times inv _ k2)) λ k12 z12.
          Post-bind (moved inv p z12) λ y3 p3. Post-bind (inv.slope _ y3 p3) λ f3 z3.
            Post-bind (anything (Rk23s.compute_error (mul h f1) (mul h f2) (mul h f3) h tolerance))
              λ error _. elim (Bool-cases (lt tolerance error)) [
                | inl above ↦ rw above (returns tt)
                | inr within ↦
                    rw within
                      (Post-bind (rk23s_combine-Post p k1 k2 (times inv h z3)) λ y' p'. returns p')
              ]

  pub rk23s_step-stays :
      (t : W) (y : List W) (h tolerance : W) {y' : List W} {h' : W}
      → P y
      → Rk23s.step f t y h tolerance ≡ ok (accepted y' h')
      → P y'
  rk23s_step-stays t y h tolerance p e = Post-value (rk23s_step-Post t y h tolerance p) e

  -- The stages that the next point of STEKS is made of.
  record AreIncrements (s : Stages W) : Type ℓ where
    z1 : Z s.k1
    z4 : Z s.k4
    z5 : Z s.k5

  steks_stages-Post :
      (t : W) (y : List W) (h : W) → P y → Post AreIncrements Any (Steks.stages f t y h)
  unfolding Steks.stages
  steks_stages-Post t y h p = Post-bind (inv.slope t y p) λ f1 z1.
      let k1 = times inv h z1 in
      Post-bind (moved inv p (times inv _ k1)) λ y2 p2. Post-bind (inv.slope _ y2 p2) λ f2 z2.
        Post-bind (moved inv p (times inv _ k1)) λ y31 p31.
          Post-bind (moved inv p31 (times inv _ (times inv h z2))) λ y3 p3.
            Post-bind (inv.slope _ y3 p3) λ f3 z3.
              let k3 = times inv h z3 in
              Post-bind (moved inv p (times inv _ k1)) λ y41 p41.
                Post-bind (moved inv p41 (times inv _ k3)) λ y4 p4.
                  Post-bind (inv.slope _ y4 p4) λ f4 z4.
                    let k4 = times inv h z4 in
                    Post-bind (moved inv p (times inv _ k1)) λ y51 p51.
                      Post-bind (moved inv p51 (times inv _ k3)) λ y53 p53.
                        Post-bind (moved inv p53 (times inv _ k4)) λ y5 p5.
                          Post-bind (inv.slope _ y5 p5)
                            λ f5 z5. returns (record { z1 = k1; z4 = k4; z5 = times inv h z5 })

  steks_combine-Post :
      {y : List W} (s : Stages W) → P y → AreIncrements s → Post P Any (Steks.combine y s)
  unfolding Steks.combine
  steks_combine-Post s p a = Post-bind (moved inv p (times inv _ a.z1)) λ left pl.
      Post-bind (summed inv (times inv _ a.z4) (times inv _ a.z5)) λ right zr. moved inv pl zr

  steks_step-Post :
      (t : W) (y : List W) (h tolerance : W) → P y → Post Stays Any (Steks.step f t y h tolerance)
  unfolding Steks.step
  steks_step-Post t y h tolerance p = Post-bind (steks_stages-Post t y h p) λ s a.
      Post-bind (anything (Steks.compute_error s h tolerance)) λ error _.
        elim (Bool-cases (lt tolerance error)) [
          | inl above ↦ rw above (returns tt)
          | inr within ↦ rw within (Post-bind (steks_combine-Post s p a) λ y' p'. returns p')
        ]

  pub steks_step-stays :
      (t : W) (y : List W) (h tolerance : W) {y' : List W} {h' : W}
      → P y
      → Steks.step f t y h tolerance ≡ ok (accepted y' h')
      → P y'
  steks_step-stays t y h tolerance p e = Post-value (steks_step-Post t y h tolerance p) e
