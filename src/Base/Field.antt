-- ===== src/Base/Field.antt =====
-- Exact arithmetic with division: quotients of the integer literals of the sources.
use Prim.Native.Nat.{◌+◌ as plus, ◌*◌ as times}
use odeclient_server.Base.Lists.{ℕ, ◌≡◌, ◌≢◌, sym, ap, ◌∙◌}
use odeclient_server.Base.Double.{Double, lit, ◌+◌, ◌*◌, ◌/◌}
use odeclient_server.Base.Ring.{RingLaws, plus_times, zero_times, times_one, times_left_comm}

pub record FieldLaws {ℓ} (W : Type ℓ) ⦃d : Double W⦄ : Type ℓ where
  pub ring : RingLaws W
  pub over_eq : (a b : W) → a / b ≡ a * (lit 1 0 / b)
  pub inverse : (b : W) → b ≢ lit 0 0 → b * (lit 1 0 / b) ≡ lit 1 0
  pub lit_plus : (m n : ℕ) → lit {W = W} (plus m n) 0 ≡ lit m 0 + lit n 0
  pub lit_times : (m n : ℕ) → lit {W = W} (times m n) 0 ≡ lit m 0 * lit n 0
  pub two_ne : lit {W = W} 2 0 ≢ lit 0 0
  pub three_ne : lit {W = W} 3 0 ≢ lit 0 0

module _ {ℓ} {W : Type ℓ} ⦃d : Double W⦄ (field : FieldLaws W) where
  abbrev IsUnit : ℕ → Type ℓ
  IsUnit n = lit {W = W} n 0 ≢ lit 0 0

  pub ne_times : (m n : ℕ) → IsUnit m → IsUnit n → IsUnit (times m n)
  ne_times m n p q e = p (
      sym (times_one field.ring (lit m 0))
      ∙ ap (λ r. lit m 0 * r) (sym (field.inverse (lit n 0) q))
      ∙ sym (field.ring.times_assoc (lit m 0) (lit n 0) (lit 1 0 / lit n 0))
      ∙ ap (λ r. r * (lit 1 0 / lit n 0)) (sym (field.lit_times m n) ∙ e)
      ∙ zero_times field.ring (lit 1 0 / lit n 0))

  -- The inverse of a unit is the only one.
  inverse_unique : (b c : W) → b ≢ lit 0 0 → b * c ≡ lit 1 0 → c ≡ lit 1 0 / b
  inverse_unique b c p e =
      sym (field.ring.one_times c)
      ∙ ap (λ r. r * c) (sym (field.inverse b p) ∙ field.ring.times_comm b (lit 1 0 / b))
      ∙ field.ring.times_assoc (lit 1 0 / b) b c
      ∙ ap (λ r. (lit 1 0 / b) * r) e
      ∙ times_one field.ring (lit 1 0 / b)

  interchange : (a b c e : W) → (a * b) * (c * e) ≡ (a * c) * (b * e)
  interchange a b c e =
      field.ring.times_assoc a b (c * e)
      ∙ ap (λ r. a * r) (times_left_comm field.ring b c e)
      ∙ sym (field.ring.times_assoc a c (b * e))

  inverse-times :
      (m n : ℕ)
      → IsUnit m
      → IsUnit n
      → (lit 1 0 / lit m 0) * (lit 1 0 / lit n 0) ≡ lit 1 0 / lit {W = W} (times m n) 0
  inverse-times m n p q = inverse_unique (lit (times m n) 0) _ (ne_times m n p q) (
      ap (λ r. r * ((lit 1 0 / lit m 0) * (lit 1 0 / lit n 0))) (field.lit_times m n)
      ∙ interchange (lit m 0) (lit n 0) (lit 1 0 / lit m 0) (lit 1 0 / lit n 0)
      ∙ ap (λ r. r * (lit n 0 * (lit 1 0 / lit n 0))) (field.inverse (lit m 0) p)
      ∙ field.ring.one_times _
      ∙ field.inverse (lit n 0) q)

  pub quotient_plus :
      (a b c : ℕ) → lit a 0 / lit c 0 + lit b 0 / lit c 0 ≡ lit (plus a b) 0 / lit {W = W} c 0
  quotient_plus a b c =
      rw
        (
          field.over_eq (lit a 0) (lit c 0),
          field.over_eq (lit b 0) (lit c 0),
          field.over_eq (lit (plus a b) 0) (lit c 0),
          field.lit_plus a b,
        )
        (sym (plus_times field.ring (lit a 0) (lit b 0) (lit 1 0 / lit c 0)))

  pub quotient_times :
      (a b c e : ℕ)
      → IsUnit b
      → IsUnit e
      → (lit a 0 / lit b 0) * (lit c 0 / lit e 0) ≡ lit (times a c) 0 / lit {W = W} (times b e) 0
  quotient_times a b c e p q =
      rw
        (
          field.over_eq (lit a 0) (lit b 0),
          field.over_eq (lit c 0) (lit e 0),
          field.over_eq (lit (times a c) 0) (lit (times b e) 0),
        )
        (interchange (lit a 0) (lit 1 0 / lit b 0) (lit c 0) (lit 1 0 / lit e 0)
          ∙ ap (λ r. r * ((lit 1 0 / lit b 0) * (lit 1 0 / lit e 0))) (sym (field.lit_times a c))
          ∙ ap (λ r. lit (times a c) 0 * r) (inverse-times b e p q))

  pub quotient_self : (n : ℕ) → IsUnit n → lit n 0 / lit n 0 ≡ lit {W = W} 1 0
  quotient_self n p = field.over_eq (lit n 0) (lit n 0) ∙ field.inverse (lit n 0) p

  pub quotient_cancel :
      (k a b : ℕ)
      → IsUnit k
      → IsUnit b
      → lit (times k a) 0 / lit (times k b) 0 ≡ lit a 0 / lit {W = W} b 0
  quotient_cancel k a b p q =
      sym (quotient_times k k a b p q)
      ∙ ap (λ r. r * (lit a 0 / lit b 0)) (quotient_self k p)
      ∙ field.ring.one_times _
