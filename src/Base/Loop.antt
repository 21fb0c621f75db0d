-- ===== src/Base/Loop.antt =====
-- `while (test) body`, where the body may `break` or throw, run for a number of rounds.
use odeclient_server.Base.Lists.{ℕ, zero, suc, ◌≡◌, Bool, true, false, Bool-cases, inl, inr}
use odeclient_server.Base.Outcome.{
  Error, Outcome, ok, throw, out_of_fuel, Post, returns, throws, spins, Post-ok, Post-throw, Yields,
  yields, Yields-ok,
}

-- A loop that goes on from a state, or has ended in it.
pub data Flow {ℓ} (S : Type ℓ) : Type ℓ where
  again stop : S → Flow S

abbrev pub after {ℓ} : {S : Type ℓ} → (S → Outcome (Flow S)) → Outcome (Flow S) → Outcome (Flow S)
after k (ok (again s)) = k s
after k (ok (stop s)) = ok (stop s)
after k (throw e) = throw e
after k out_of_fuel = out_of_fuel

-- What a loop has come to when it has ended.
abbrev pub finished {κ μ} : {S : Type κ} {A : Type μ} → (S → A) → Flow S → Outcome A
finished g (again s) = out_of_fuel
finished g (stop s) = ok (g s)

-- The first `n` rounds: `stop s` where the loop has ended by then, `again s` where it runs on.
unfoldable pub loop {ℓ} :
    {S : Type ℓ} → ℕ → (S → Bool) → (S → Outcome (Flow S)) → S → Outcome (Flow S)
loop zero test body s = ok (again s)
loop (suc n) test body s = elim (test s) [
  | true ↦ after (loop n test body) (body s)
  | false ↦ ok (stop s)
]

module _ {ℓ κ} {S : Type ℓ} where
  -- `P` holds of a state to go on from, `Q` of one that the loop has ended in.
  abbrev pub Owes : (S → Type κ) → (S → Type κ) → Flow S → Type κ
  Owes P Q (again s) = P s
  Owes P Q (stop s) = Q s

module _ {ℓ κ} {S : Type ℓ} (P Q : S → Type κ) (test : S → Bool) (body : S → Outcome (Flow S)) where
  after-Yields :
      (k : S → Outcome (Flow S)) (r : Outcome (Flow S))
      → Yields (Owes P Q) r
      → ((s : S) → P s → Yields (Owes P Q) (k s))
      → Yields (Owes P Q) (after k r)
  after-Yields k (ok (again s)) h next = next s (Yields-ok h)
  after-Yields k (ok (stop s)) h next = h
  after-Yields k (throw e) h next = elim h [ ]
  after-Yields k out_of_fuel h next = elim h [ ]

  -- The invariant rule for a body that always returns.
  pub loop-Yields :
      ((s : S) → P s → test s ≡ true → Yields (Owes P Q) (body s))
      → ((s : S) → P s → test s ≡ false → Q s)
      → (n : ℕ) (s : S) → P s
      → Yields (Owes P Q) (loop n test body s)
  unfolding loop
  loop-Yields keep exit zero s h = yields h
  loop-Yields keep exit (suc n) s h = elim (Bool-cases (test s)) [
    | inl e ↦
        rw (e, loop)
          (after-Yields (loop n test body) (body s) (keep s h e) (loop-Yields keep exit n))
    | inr e ↦ rw (e, loop) (yields (exit s h e))
  ]

  module _ (E : Error → Type 0) where
    after-Post :
        (k : S → Outcome (Flow S)) (r : Outcome (Flow S))
        → Post (Owes P Q) E r
        → ((s : S) → P s → Post (Owes P Q) E (k s))
        → Post (Owes P Q) E (after k r)
    after-Post k (ok (again s)) h next = next s (Post-ok h)
    after-Post k (ok (stop s)) h next = h
    after-Post k (throw e) h next = throws (Post-throw h)
    after-Post k out_of_fuel h next = spins

    -- The invariant rule for a body that may throw, or not return.
    pub loop-Post :
        ((s : S) → P s → test s ≡ true → Post (Owes P Q) E (body s))
        → ((s : S) → P s → test s ≡ false → Q s)
        → (n : ℕ) (s : S) → P s
        → Post (Owes P Q) E (loop n test body s)
    unfolding loop
    loop-Post keep exit zero s h = returns h
    loop-Post keep exit (suc n) s h = elim (Bool-cases (test s)) [
      | inl e ↦
          rw (e, loop) (after-Post (loop n test body) (body s) (keep s h e) (loop-Post keep exit n))
      | inr e ↦ rw (e, loop) (returns (exit s h e))
    ]

-- A loop that has ended stays ended, in the same state, whatever rounds are granted.
module _ {ℓ} {S : Type ℓ} (test : S → Bool) (body : S → Outcome (Flow S)) where
  pub loop-suc_of_stop :
      (n : ℕ) (s r : S) → loop n test body s ≡ ok (stop r) → loop (suc n) test body s ≡ ok (stop r)
  unfolding loop
  loop-suc_of_stop zero s r e = cc
  loop-suc_of_stop (suc n) s r e = elim (Bool-cases (test s)) [
    | inl t ↦ rw (t, loop) (go (loop-suc_of_stop n) (body s) (rw (t, loop) at e))
    | inr t ↦ rw (t, loop) (rw (t, loop) at e)
  ]
    where
      go :
          ((u v : S) → loop n test body u ≡ ok (stop v) → loop (suc n) test body u ≡ ok (stop v))
          → (b : Outcome (Flow S)) → after (loop n test body) b ≡ ok (stop r)
          → after (loop (suc n) test body) b ≡ ok (stop r)
      go ih (ok (again u)) p = ih u r p
      go ih (ok (stop u)) p = p
      go ih (throw x) p = cc
      go ih out_of_fuel p = cc
