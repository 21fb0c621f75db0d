-- ===== src/Base/Fuel.antt =====
-- A call with some fuel, or rounds, against the same call with more.
use odeclient_server.Base.Lists.{
  ℕ, zero, suc, ◌≡◌, ◌⊎◌, ◌≤◌, refl, sym, inl, inr, Bool, true, false, Bool-cases, if◌then◌else◌,
  arith,
}
use odeclient_server.Base.Outcome.{Outcome, ok, throw, out_of_fuel, ◌>>=◌, bind_assoc}
use odeclient_server.Base.Loop.{Flow, again, stop, after, loop, finished}

-- The fuel has run out in `r`, or `s` is the same.
abbrev pub Extends {ℓ} : {A : Type ℓ} → Outcome A → Outcome A → Type ℓ
Extends r s = (r ≡ out_of_fuel) ⊎ (s ≡ r)

module _ {ℓ κ} {A : Type ℓ} {B : Type κ} where
  pub Extends-same :
      (r : Outcome A) {k k' : A → Outcome B}
      → ((a : A) → Extends (k a) (k' a))
      → Extends (r >>= k) (r >>= k')
  Extends-same (ok a) h = h a
  Extends-same (throw e) h = inr refl
  Extends-same out_of_fuel h = inl refl

  pub Extends-bind :
      {r s : Outcome A} {k k' : A → Outcome B}
      → Extends r s
      → ((a : A) → Extends (k a) (k' a))
      → Extends (r >>= k) (s >>= k')
  Extends-bind {r} (inl e) h = inl (rw e)
  Extends-bind {r} (inr e) h = rw e (Extends-same r h)

pub Extends-if {ℓ} :
    {A : Type ℓ} {r s r' s' : Outcome A} (b : Bool)
    → Extends r s
    → Extends r' s'
    → Extends (if b then r else r') (if b then s else s')
Extends-if true h h' = h
Extends-if false h h' = h'

module _ {ℓ κ} {S : Type ℓ} {A : Type κ} (test : S → Bool) (body body' : S → Outcome (Flow S))
    (g : S → A) where
  after-Extends :
      (k k' : S → Outcome (Flow S))
      → ((s : S) → Extends (k s >>= finished g) (k' s >>= finished g))
      → (r r' : Outcome (Flow S)) → Extends r r'
      → Extends (after k r >>= finished g) (after k' r' >>= finished g)
  after-Extends k k' ih r r' (inl e) = inl (rw e)
  after-Extends k k' ih r r' (inr e) = rw e (same r)
    where
      same : (q : Outcome (Flow S)) → Extends (after k q >>= finished g) (after k' q >>= finished g)
      same (ok (again s)) = ih s
      same (ok (stop s)) = inr refl
      same (throw x) = inr refl
      same out_of_fuel = inl refl

  pub loop-Extends :
      ((s : S) → Extends (body s) (body' s))
      → (n m : ℕ) → n ≤ m
      → (s : S) → Extends (loop n test body s >>= finished g) (loop m test body' s >>= finished g)
  unfolding loop
  loop-Extends h zero m le s = inl refl
  loop-Extends h (suc n) zero le s = absurd (omega arith)
  loop-Extends h (suc n) (suc m) le s = elim (Bool-cases (test s)) [
    | inl e ↦
        rw (e, loop)
          (after-Extends (loop n test body) (loop m test body') (loop-Extends h n m (omega arith))
            (body s) (body' s) (h s))
    | inr e ↦ inr (rw (e, loop))
  ]

-- The same where a call follows.
pub Extends-then {ℓ κ μ} :
    {S : Type ℓ} {A : Type κ} {B : Type μ} (r s : Outcome (Flow S)) (g : S → A) (k : A → Outcome B)
    → Extends (r >>= finished g) (s >>= finished g)
    → Extends (r >>= λ q. finished g q >>= k) (s >>= λ q. finished g q >>= k)
Extends-then r s g k h =
    rw (sym (bind_assoc r (finished g) k), sym (bind_assoc s (finished g) k))
      (Extends-bind h λ a. inr refl)
