-- ===== src/Disps/Quadrature.antt =====
-- DISPSSolver.cpp, DoOneStep on the system y0' = 1, y1' = y0, in exact arithmetic. From (x, y) the
-- solution after the time h is (x + h, y + h x + h^2 / 2).
use odeclient_server.Base.Lists.{
  ℕ, zero, suc, ◌≡◌, ◌∙◌, refl, sym, ap, List, [], ◌∷◌, ◌++◌, map, length, get_elem?-append,
  length-append, append_assoc, arith, inl, inr,
}
use odeclient_server.Base.Outcome.{ok, Yields, yields}
use odeclient_server.Base.Double.{Double, lit, ◌+◌, ◌*◌, ◌/◌, negate}
use odeclient_server.Base.Ring.{
  RingLaws, plus_interchange, zero_times, times_one, plus_times, times_left_comm,
}
use odeclient_server.Solver.Parabola.{parabola}
use odeclient_server.Disps.{DispsVariant, add, mul}
use odeclient_server.Disps.Stages.{combine, step3_stage, step5_stage, step6_stage, do_one_step}
use odeclient_server.Disps.Sizes.{IsVariant}

module _ {ℓ} {W : Type ℓ} ⦃d : Double W⦄ where
  -- The part of the step by which the point of a stage lies after the point of the step.
  abbrev pub nodes : ℕ → List W
  nodes (suc (suc (suc zero))) =
      lit 0 0 ∷ (lit 2 0 / lit 3 0) ∷ (lit 1 0 / lit 3 0 + lit 1 0 / lit 3 0) ∷ []
  nodes (suc (suc (suc (suc (suc zero))))) =
      lit 0 0
      ∷ (lit 1 0 / lit 3 0)
      ∷ (lit 1 0 / lit 6 0 + lit 1 0 / lit 6 0)
      ∷ (lit 1 0 / lit 8 0 + lit 1 0 / lit 8 0)
      ∷ (lit 1 0 / lit 2 0 + negate (lit 3 0) / lit 2 0 + lit 2 0)
      ∷ []
  nodes (suc (suc (suc (suc (suc (suc zero)))))) =
      lit 0 0
      ∷ lit 5 1
      ∷ lit 5 1
      ∷ lit 5 1
      ∷ (lit 497828275994247056 18 + lit 2171724005752944 18)
      ∷ lit 1 0
      ∷ []
  nodes _ = []

  -- The sum of the weights, and the sum of the weights times the nodes.
  abbrev pub sum : W → List W → W
  sum s [] = s
  sum s (w ∷ ws) = sum (s + w) ws

  abbrev pub moment : W → List W → List W → W
  moment s (w ∷ ws) (c ∷ cs) = moment (s + w * c) ws cs
  moment s _ _ = s

  -- (x + s h, y + s h x + m h^2).
  abbrev pub arrives : W → W → W → W → W → List W
  arrives x y h s m = (x + s * h) ∷ (y + s * (h * x) + m * (h * h)) ∷ []

  -- Where a step ends, by its weights and the nodes of its number of stages.
  abbrev pub quadrature : W → W → W → ℕ → List W → List W
  quadrature x y h stages p = arrives x y h (sum (lit 0 0) p) (moment (lit 0 0) p (nodes stages))

  module _ (ring : RingLaws W) (x y h : W) where
    -- A stage at the point with the first component a.
    abbrev stage : W → List W
    stage a = (h * lit 1 0) ∷ (h * a) ∷ []

    -- The first components of the points of the stages, by their nodes.
    data AreNodes : List W → List W → Type ℓ where
      nil : AreNodes [] []
      node :
          {a c : W} {xs cs : List W} → a ≡ x + c * h → AreNodes xs cs → AreNodes (a ∷ xs) (c ∷ cs)

    first_moves : (s w : W) → (x + s * h) + w * (h * lit 1 0) ≡ x + (s + w) * h
    first_moves s w =
        rw (times_one ring h, plus_times ring s w h) (ring.plus_assoc x (s * h) (w * h))

    node_part : (w c : W) → w * (h * (c * h)) ≡ (w * c) * (h * h)
    node_part w c =
        ap (λ r. w * r) (times_left_comm ring h c h) ∙ sym (ring.times_assoc w c (h * h))

    second_moves :
        (s m w c : W)
        → (y + s * (h * x) + m * (h * h)) + w * (h * (x + c * h))
          ≡ y + (s + w) * (h * x) + (m + w * c) * (h * h)
    second_moves s m w c =
        rw
          (
            ring.times_plus h x (c * h),
            ring.times_plus w (h * x) (h * (c * h)),
            node_part w c,
            plus_times ring s w (h * x),
            plus_times ring m (w * c) (h * h),
          )
          (plus_interchange ring (y + s * (h * x)) (m * (h * h)) (w * (h * x)) ((w * c) * (h * h))
            ∙ ap (λ r. r + (m * (h * h) + (w * c) * (h * h)))
                (ring.plus_assoc y (s * (h * x)) (w * (h * x))))

    length-snoc : (pre : List W) (w : W) → length (pre ++ (w ∷ [])) ≡ suc (length pre)
    length-snoc pre w = omega (arith, length-append pre (w ∷ []))

    combine-arrives :
        (pre ws : List W) {xs cs : List W} (s m : W)
        → AreNodes xs cs
        → length ws ≡ length cs
        → combine (arrives x y h s m) (pre ++ ws) (map stage xs) (length pre)
          ≡ ok (arrives x y h (sum s ws) (moment m ws cs))
    unfolding combine add mul
    combine-arrives pre [] s m nil e = refl
    combine-arrives pre [] s m (node q rest) e = absurd (omega arith)
    combine-arrives pre (w ∷ ws) s m nil e = absurd (omega arith)
    combine-arrives pre (w ∷ ws) s m (node {a} {c} {xs} {cs} q rest) e =
        let ih = combine-arrives (pre ++ (w ∷ [])) ws (s + w) (m + w * c) rest (omega arith) in
        rw (get_elem?-append pre w ws, q, first_moves s w, second_moves s m w c)
          (rw (length-snoc pre w, append_assoc pre (w ∷ []) ws) at ih)

    arrives_zero : arrives x y h (lit 0 0) (lit 0 0) ≡ x ∷ y ∷ []
    arrives_zero = rw (
      zero_times ring h,
      zero_times ring (h * x),
      zero_times ring (h * h),
      ring.plus_zero x,
      ring.plus_zero y,
      ring.plus_zero y,
    )

    combine_eq :
        (p : List W) {xs cs : List W}
        → AreNodes xs cs
        → length p ≡ length cs
        → combine (x ∷ y ∷ []) p (map stage xs) 0
          ≡ ok (arrives x y h (sum (lit 0 0) p) (moment (lit 0 0) p cs))
    combine_eq p a e = rw arrives_zero at (combine-arrives [] p (lit 0 0) (lit 0 0) a e)

    node_zero : x ≡ x + lit 0 0 * h
    node_zero = rw (zero_times ring h, ring.plus_zero x)

    node_one : (a : W) → x + a * (h * lit 1 0) ≡ x + a * h
    node_one a = rw (times_one ring h)

    node_two : (a b : W) → x + a * (h * lit 1 0) + b * (h * lit 1 0) ≡ x + (a + b) * h
    node_two a b = rw (node_one a) (first_moves a b)

    node_three :
        (a b c : W)
        → x + a * (h * lit 1 0) + b * (h * lit 1 0) + c * (h * lit 1 0) ≡ x + (a + b + c) * h
    node_three a b c = rw (node_two a b) (first_moves (a + b) c)

    node_whole : x + h * lit 1 0 ≡ x + lit 1 0 * h
    node_whole = rw (times_one ring h, ring.one_times h)

    abbrev Ends : ℕ → List W → List W × List (List W) → Type ℓ
    Ends stages p r = r.0 ≡ quadrature x y h stages p

    step3-Ends :
        (t : W) (p : List W)
        → length p ≡ 3
        → Yields (Ends 3 p) (step3_stage parabola t (x ∷ y ∷ []) h p)
    unfolding step3_stage add mul
    step3-Ends t p e =
        rw
          (combine_eq p
            (node node_zero (
              node (node_one (lit 2 0 / lit 3 0))
                (node (node_two (lit 1 0 / lit 3 0) (lit 1 0 / lit 3 0)) nil)))
            e)
          (yields refl)

    step5-Ends :
        (t : W) (p : List W)
        → length p ≡ 5
        → Yields (Ends 5 p) (step5_stage parabola t (x ∷ y ∷ []) h p)
    unfolding step5_stage add mul
    step5-Ends t p e =
        rw
          (combine_eq p
            (node node_zero (
              node (node_one (lit 1 0 / lit 3 0)) (
                node (node_two (lit 1 0 / lit 6 0) (lit 1 0 / lit 6 0)) (
                  node (node_two (lit 1 0 / lit 8 0) (lit 1 0 / lit 8 0)) (
                    node (node_three (lit 1 0 / lit 2 0) (negate (lit 3 0) / lit 2 0) (lit 2 0))
                      nil)))))
            e)
          (yields refl)

    step6-Ends :
        (t : W) (p : List W)
        → length p ≡ 6
        → Yields (Ends 6 p) (step6_stage parabola t (x ∷ y ∷ []) h p)
    unfolding step6_stage add mul
    step6-Ends t p e =
        rw
          (combine_eq p
            (node node_zero (
              node (node_one (lit 5 1)) (
                node (node_one (lit 5 1)) (
                  node (node_one (lit 5 1)) (
                    node (node_two (lit 497828275994247056 18) (lit 2171724005752944 18))
                      (node node_whole nil))))))
            e)
          (yields refl)

    -- In exact arithmetic a step of 3, 5 or 6 stages on y0' = 1, y1' = y0 takes (x, y) to
    -- (x + s h, y + s h x + m h^2), where s is the sum of the weights and m the sum of the weights
    -- times the nodes of the stages.
    pub do_one_step-quadrature :
        (t : W) (v : DispsVariant W)
        → IsVariant v
        → Yields
            (λ r. r.0 ≡ quadrature x y h v.stages v.p)
            (do_one_step parabola t (x ∷ y ∷ []) h v)
    unfolding do_one_step
    do_one_step-quadrature t v w = elim w.stages [
      | inl e ↦ rw e (step3-Ends t v.p (omega (arith, w.weights, e)))
      | inr (inl e) ↦ rw e (step5-Ends t v.p (omega (arith, w.weights, e)))
      | inr (inr e) ↦ rw e (step6-Ends t v.p (omega (arith, w.weights, e)))
    ]
