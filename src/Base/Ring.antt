-- ===== src/Base/Ring.antt =====
-- Exact arithmetic: the laws of a ring, which the arithmetic of `double` meets up to rounding. What is
-- stated under them is about the formulas of the sources, without their rounding errors.
use odeclient_server.Base.Lists.{◌≡◌, sym, ap, ◌∙◌}
use odeclient_server.Base.Double.{Double, lit, ◌+◌, ◌-◌, ◌*◌, negate}

pub record RingLaws {ℓ} (W : Type ℓ) ⦃d : Double W⦄ : Type ℓ where
  pub plus_assoc : (a b c : W) → (a + b) + c ≡ a + (b + c)
  pub plus_comm : (a b : W) → a + b ≡ b + a
  pub plus_zero : (a : W) → a + lit 0 0 ≡ a
  pub plus_negate : (a : W) → a + negate a ≡ lit 0 0
  pub minus_eq : (a b : W) → a - b ≡ a + negate b
  pub times_assoc : (a b c : W) → (a * b) * c ≡ a * (b * c)
  pub one_times : (a : W) → lit 1 0 * a ≡ a
  pub times_comm : (a b : W) → a * b ≡ b * a
  pub times_plus : (a b c : W) → a * (b + c) ≡ a * b + a * c

module _ {ℓ} {W : Type ℓ} ⦃d : Double W⦄ (ring : RingLaws W) where
  pub plus_interchange : (a b c e : W) → (a + b) + (c + e) ≡ (a + c) + (b + e)
  plus_interchange a b c e =
      ring.plus_assoc a b (c + e)
      ∙ ap (λ x. a + x)
          (sym (ring.plus_assoc b c e)
            ∙ ap (λ x. x + e) (ring.plus_comm b c)
            ∙ ring.plus_assoc c b e)
      ∙ sym (ring.plus_assoc a c (b + e))

  pub negate_plus : (a : W) → negate a + a ≡ lit 0 0
  negate_plus a = ring.plus_comm (negate a) a ∙ ring.plus_negate a

  pub zero_plus : (a : W) → lit 0 0 + a ≡ a
  zero_plus a = ring.plus_comm (lit 0 0) a ∙ ring.plus_zero a

  plus_cancel : (a b : W) → a + b ≡ a → b ≡ lit 0 0
  plus_cancel a b e =
      sym (zero_plus b)
      ∙ ap (λ x. x + b) (sym (negate_plus a))
      ∙ ring.plus_assoc (negate a) a b
      ∙ ap (λ x. negate a + x) e
      ∙ negate_plus a

  pub times_zero : (a : W) → a * lit 0 0 ≡ lit 0 0
  times_zero a =
      plus_cancel (a * lit 0 0) (a * lit 0 0)
        (sym (ring.times_plus a (lit 0 0) (lit 0 0)) ∙ ap (λ x. a * x) (ring.plus_zero (lit 0 0)))

  pub negate_times : (a b : W) → negate a * b + a * b ≡ lit 0 0
  negate_times a b =
      rw (ring.times_comm (negate a) b, ring.times_comm a b)
        (sym (ring.times_plus b (negate a) a) ∙ ap (λ x. b * x) (negate_plus a) ∙ times_zero b)

  pub plus_times : (a b c : W) → (a + b) * c ≡ a * c + b * c
  plus_times a b c =
      ring.times_comm (a + b) c
      ∙ ring.times_plus c a b
      ∙ ap (λ x. x + c * b) (ring.times_comm c a)
      ∙ ap (λ x. a * c + x) (ring.times_comm c b)

  pub zero_times : (a : W) → lit 0 0 * a ≡ lit 0 0
  zero_times a = ring.times_comm (lit 0 0) a ∙ times_zero a

  pub times_one : (a : W) → a * lit 1 0 ≡ a
  times_one a = ring.times_comm a (lit 1 0) ∙ ring.one_times a

  pub times_left_comm : (a b c : W) → a * (b * c) ≡ b * (a * c)
  times_left_comm a b c =
      sym (ring.times_assoc a b c) ∙ ap (λ x. x * c) (ring.times_comm a b) ∙ ring.times_assoc b a c
