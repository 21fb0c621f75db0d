-- ===== src/Invariants/Disps.antt =====
-- DISPSSolver: a step of any number of stages stays in an invariant family, whatever the weights.
use odeclient_server.Base.Lists.{
  ℕ, suc, ◌≡◌, ◌==◌, List, [], ◌∷◌, All, length, Bool-cases, inl, inr, arith,
}
use odeclient_server.Base.Outcome.{ok, throws, Post, returns, Post-bind, ◌>>=◌}
use odeclient_server.Base.Double.{Double}
use odeclient_server.Solver.{OdeFunction}
use odeclient_server.Disps.{DispsVariant, at, add, mul}
use odeclient_server.Disps.Stages.{combine, step3_stage, step5_stage, step6_stage, do_one_step}
use odeclient_server.Invariants.{Any, anything, IsInvariant, Post-value}

module _ {ℓ} {W : Type ℓ} ⦃d : Double W⦄ {f : OdeFunction W} {P Z : List W → Type ℓ}
    (inv : IsInvariant f P Z) where
  times : (s : W) {z : List W} → Z z → Z (mul s z)
  unfolding mul
  times s {z} = inv.scale_left s z

  moved : {y z : List W} → P y → Z z → Post P Any (add y z)
  unfolding add
  moved {y} {z} p zz = elim (Bool-cases (length y == length z)) [
    | inl e ↦ rw e (returns (inv.move y z (ground (arith, e)) p zz))
    | inr e ↦ rw e (throws tt)
  ]

  combine-Post :
      (y p : List W) (ks : List (List W)) (i : ℕ) → P y → All Z ks → Post P Any (combine y p ks i)
  unfolding combine
  combine-Post y p [] i h zs = returns h
  combine-Post y p (k ∷ ks) i h (z, zs) =
      Post-bind (anything (at p i))
        λ weight _. Post-bind (moved h (times weight z)) λ y' h'. combine-Post y' p ks (suc i) h' zs

  abbrev Stays : List W × List (List W) → Type ℓ
  Stays r = P r.0

  finish-Post :
      (y p : List W) (ks : List (List W))
      → P y
      → All Z ks
      → Post Stays Any (combine y p ks 0 >>= λ y'. ok (y', ks))
  finish-Post y p ks h zs = Post-bind (combine-Post y p ks 0 h zs) λ y' h'. returns h'

  step3-Post :
      (t : W) (y : List W) (h : W) (p : List W) → P y → Post Stays Any (step3_stage f t y h p)
  unfolding step3_stage
  step3-Post t y h p py = Post-bind (inv.slope t y py) λ f1 z1.
      let k1 = times h z1 in
      Post-bind (moved py (times _ k1)) λ y2 p2. Post-bind (inv.slope _ y2 p2) λ f2 z2.
        let k2 = times h z2 in
        Post-bind (moved py (times _ k1)) λ y31 p31. Post-bind (moved p31 (times _ k2)) λ y3 p3.
          Post-bind (inv.slope _ y3 p3) λ f3 z3. finish-Post y p _ py (k1, (k2, (times h z3, tt)))

  step5-Post :
      (t : W) (y : List W) (h : W) (p : List W) → P y → Post Stays Any (step5_stage f t y h p)
  unfolding step5_stage
  step5-Post t y h p py = Post-bind (inv.slope t y py) λ f1 z1.
      let k1 = times h z1 in
      Post-bind (moved py (times _ k1)) λ y2 p2. Post-bind (inv.slope _ y2 p2) λ f2 z2.
        let k2 = times h z2 in
        Post-bind (moved py (times _ k1)) λ y31 p31. Post-bind (moved p31 (times _ k2)) λ y3 p3.
          Post-bind (inv.slope _ y3 p3) λ f3 z3.
            let k3 = times h z3 in
            Post-bind (moved py (times _ k1)) λ y41 p41. Post-bind (moved p41 (times _ k3)) λ y4 p4.
              Post-bind (inv.slope _ y4 p4) λ f4 z4.
                let k4 = times h z4 in
                Post-bind (moved py (times _ k1)) λ y51 p51.
                  Post-bind (moved p51 (times _ k3)) λ y53 p53.
                    Post-bind (moved p53 (times _ k4)) λ y5 p5.
                      Post-bind (inv.slope _ y5 p5)
                        λ f5 z5. finish-Post y p _ py (k1, (k2, (k3, (k4, (times h z5, tt)))))

  step6-Post :
      (t : W) (y : List W) (h : W) (p : List W) → P y → Post Stays Any (step6_stage f t y h p)
  unfolding step6_stage
  step6-Post t y h p py = Post-bind (inv.slope t y py) λ f1 z1.
      let k1 = times h z1 in
      Post-bind (moved py (times _ k1)) λ y2 p2. Post-bind (inv.slope _ y2 p2) λ f2 z2.
        let k2 = times h z2 in
        Post-bind (moved py (times _ k2)) λ y3 p3. Post-bind (inv.slope _ y3 p3) λ f3 z3.
          let k3 = times h z3 in
          Post-bind (moved py (times _ k3)) λ y4 p4. Post-bind (inv.slope _ y4 p4) λ f4 z4.
            let k4 = times h z4 in
            Post-bind (moved py (times _ k1)) λ y51 p51. Post-bind (moved p51 (times _ k4)) λ y5 p5.
              Post-bind (inv.slope _ y5 p5) λ f5 z5.
                let k5 = times h z5 in
                Post-bind (moved py k5) λ y6 p6.
                  Post-bind (inv.slope _ y6 p6)
                    λ f6 z6. finish-Post y p _ py (k1, (k2, (k3, (k4, (k5, (times h z6, tt))))))

  do_one_step-Post :
      (t : W) (y : List W) (h : W) (v : DispsVariant W)
      → P y
      → Post Stays Any (do_one_step f t y h v)
  unfolding do_one_step
  do_one_step-Post t y h v p = elim (Bool-cases (v.stages == 3)) [
    | inl e3 ↦ rw e3 (step3-Post t y h v.p p)
    | inr n3 ↦ elim (Bool-cases (v.stages == 5)) [
      | inl e5 ↦ rw (n3, e5) (step5-Post t y h v.p p)
      | inr n5 ↦ elim (Bool-cases (v.stages == 6)) [
        | inl e6 ↦ rw (n3, n5, e6) (step6-Post t y h v.p p)
        | inr n6 ↦ rw (n3, n5, n6) (throws tt)
      ]
    ]
  ]

  pub disps_step-stays :
      (t : W) (y : List W) (h : W) (v : DispsVariant W) {y' : List W} {ks : List (List W)}
      → P y
      → do_one_step f t y h v ≡ ok (y', ks)
      → P y'
  disps_step-stays t y h v p e = Post-value (do_one_step-Post t y h v p) e
