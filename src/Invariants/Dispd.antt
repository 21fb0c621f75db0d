-- ===== src/Invariants/Dispd.antt =====
-- DISPDSolver: a step that a pass takes stays in an invariant family, whatever the scheme.
use odeclient_server.Base.Lists.{arith, ℕ, ◌≡◌, List, Bool-cases, inl, inr}
use odeclient_server.Base.Outcome.{ok, Post, returns, Post-bind}
use odeclient_server.Base.Double.{Double, lit, lt}
use odeclient_server.Solver.{OdeFunction}
use odeclient_server.Dispd.{
  SchemeParams, KTerms, Pass, retry, taken, compute_aprime, compute_addouble_prime, compute_v,
  compute_k_terms, slack, stable_pass, accurate_pass, pass,
}
use odeclient_server.Vectors.{multiply_scalar_by_vector as mul}
use odeclient_server.Invariants.{Any, anything, IsInvariant, Post-value, times, summed, moved}

module _ {ℓ} {W : Type ℓ} ⦃d : Double W⦄ {f : OdeFunction W} {P Z : List W → Type ℓ}
    (inv : IsInvariant f P Z) (q : W) where
  record AreIncrements (k : KTerms W) : Type ℓ where
    z1 : Z k.k1
    z2 : Z k.k2
    z3 : Z k.k3

  abbrev Stays : Pass W → Type ℓ
  Stays (retry h) = Unit
  Stays (taken y h) = P y

  compute_k_terms-Post :
      (t : W) (y : List W) (h : W) → P y → Post AreIncrements Any (compute_k_terms f q t y h)
  unfolding compute_k_terms
  compute_k_terms-Post t y h p = Post-bind (inv.slope t y p) λ f1 z1.
      let k1 = times inv h z1 in
      Post-bind (moved inv p (times inv _ k1)) λ y2 p2. Post-bind (inv.slope _ y2 p2) λ f2 z2.
        let k2 = times inv h z2 in
        Post-bind (moved inv p (times inv _ k1)) λ y31 p31.
          Post-bind (moved inv p31 (times inv _ k2)) λ y3 p3.
            Post-bind (inv.slope _ y3 p3)
              λ f3 z3. returns (record { z1 = k1; z2 = k2; z3 = times inv h z3 })

  stable_pass-Post :
      (attempts : ℕ) (h tolerance a_prime sn vn : W) (k : KTerms W) (y_next : List W)
      → P y_next
      → Post Stays Any (stable_pass f q attempts h tolerance a_prime sn vn k y_next)
  unfolding stable_pass
  stable_pass-Post attempts h tolerance a_prime sn vn k y_next p =
      Post-bind (anything (compute_v k)) λ v _. returns (ground arith)

  accurate_pass-Post :
      (scheme : SchemeParams W) (attempts : ℕ) (t : W) (y : List W) (h tolerance a_prime sn : W)
      (k : KTerms W)
      → P y
      → AreIncrements k
      → Post Stays Any (accurate_pass f q scheme attempts t y h tolerance a_prime sn k)
  unfolding accurate_pass
  accurate_pass-Post scheme attempts t y h tolerance a_prime sn k p z =
      Post-bind (summed inv (times inv _ z.z2) (times inv _ z.z3)) λ k23 z23.
        Post-bind (summed inv (times inv _ z.z1) z23) λ k123 z123.
          Post-bind (moved inv p z123) λ y_next p_next.
            Post-bind (anything (f _ y_next)) λ f_next _.
              Post-bind (anything (compute_addouble_prime scheme h k.k1 (mul h f_next)))
                λ add_prime _.
                  elim (Bool-cases (lt (slack f q tolerance attempts add_prime) (lit 0 0))) [
                    | inl big ↦ rw big (returns tt)
                    | inr fine ↦
                        rw fine (stable_pass-Post attempts h tolerance a_prime sn _ k y_next p_next)
                  ]

  pass-Post :
      (scheme : SchemeParams W) (attempts : ℕ) (t : W) (y : List W) (h tolerance : W)
      → P y
      → Post Stays Any (pass f q scheme attempts t y h tolerance)
  unfolding pass
  pass-Post scheme attempts t y h tolerance p = Post-bind (compute_k_terms-Post t y h p) λ k z.
      Post-bind (anything (compute_aprime scheme k.k1 k.k2)) λ a_prime _.
        elim (Bool-cases (lt (slack f q tolerance attempts a_prime) (lit 0 0))) [
          | inl big ↦ rw big (returns tt)
          | inr fine ↦ rw fine (accurate_pass-Post scheme attempts t y h tolerance a_prime _ k p z)
        ]

  pub dispd_step-stays :
      (scheme : SchemeParams W) (attempts : ℕ) (t : W) (y : List W) (h tolerance : W) {y' : List W}
      {h' : W}
      → P y
      → pass f q scheme attempts t y h tolerance ≡ ok (taken y' h')
      → P y'
  dispd_step-stays scheme attempts t y h tolerance p e =
      Post-value (pass-Post scheme attempts t y h tolerance p) e
