-- ===== src/Solver/Adaptive.antt =====
-- The loop that the solvers with a rejecting `Step` share, for any `Step` that throws nothing else.
use odeclient_server.Base.Lists.{
  ℕ, ◌≡◌, ◌⊎◌, refl, List, HasSize, Bool, true, false, Bool-cases, inl, inr, if◌then◌else◌,
}
use odeclient_server.Base.Outcome.{Outcome, ok, Yields, yields, Yields-value, ◌>>=◌}
use odeclient_server.Base.Loop.{Flow, again, stop, loop, Owes, loop-Yields}
use odeclient_server.Base.Double.{Double, ◌+◌, ◌-◌, lt, min}
use odeclient_server.Storage.{Storage, Row, add}
use odeclient_server.Solver.{Attempt, accepted, rejected, catch_runtime_error, Run}
use odeclient_server.Solver.Journey.{Journey, Journey-stay, Journey-add}

module _ {ℓ} {W : Type ℓ} where
  -- An accepted step stays in dimension `n`.
  abbrev pub Keeps : ℕ → Attempt W → Type 0
  Keeps n (accepted y h) = HasSize n y
  Keeps n (rejected h) = Unit

module _ {ℓ} {W : Type ℓ} ⦃d : Double W⦄ (step : W → List W → W → Outcome (Attempt W))
    (too_small : W → Bool) (cut : W → W → W) (n : ℕ) (t_end : W) where
  abbrev pub settle_by : Run W → Attempt W → Flow (Run W)
  settle_by s (accepted y h) =
      again (record { t = s.t + h; y = y; h = h; storage = add s.storage (s.t + h) y })
  settle_by s (rejected h) = again (record s { h = cut s.h h })

  abbrev pub round_by : Run W → Outcome (Flow (Run W))
  round_by s =
      let h = min s.h (t_end - s.t) in
      let tried = catch_runtime_error h (step s.t s.y h) in
      if too_small h then ok (stop s) else tried >>= λ a. ok (settle_by s a)

  -- The step that a round with `h` tries from `t`: at most the time that is left.
  abbrev pub attempt : W → W → W
  attempt h t = min h (t_end - t)

  -- A round with `h` that goes on from `p` to `q`: a step that `Step` accepts. The time moves on by
  -- the size that `Step` leaves, with which the next round begins.
  pub record Moves (h : W) (p : Row W) (h_next : W) (q : Row W) : Type ℓ where
    pub before : lt p.0 t_end ≡ true
    pub large : too_small (attempt h p.0) ≡ false
    pub accepts : step p.0 p.1 (attempt h p.0) ≡ ok (accepted q.1 h_next)
    pub time : q.0 ≡ p.0 + h_next
    pub size : HasSize n q.1

  -- A round with `h` that stays at `p`: a step that `Step` rejects.
  pub record Retries (h : W) (p : Row W) (h_next : W) : Type ℓ where
    pub before : lt p.0 t_end ≡ true
    pub large : too_small (attempt h p.0) ≡ false
    pub h_left : W
    pub rejects : step p.0 p.1 (attempt h p.0) ≡ ok (rejected h_left)
    pub halved : h_next ≡ cut h h_left

  -- `Solve` ends where `t < tEnd` fails, or where the step that is left is too small.
  abbrev pub IsDone : Run W → Type 0
  IsDone s = (lt s.t t_end ≡ false) ⊎ (too_small (attempt s.h s.t) ≡ true)

  module _ (total : (t : W) (y : List W) (h : W) → HasSize n y → Yields (Keeps n) (step t y h))
      (base : Storage W) (step_size : W) (first : Row W) where
    abbrev pub Sound : Run W → Type ℓ
    Sound s = Journey Moves Retries base step_size first s.h (s.t, s.y) s.storage × HasSize n s.y

    settle-Sound :
        (s : Run W) (a : Attempt W)
        → Sound s
        → lt s.t t_end ≡ true
        → too_small (min s.h (t_end - s.t)) ≡ false
        → step s.t s.y (min s.h (t_end - s.t)) ≡ ok a
        → Keeps n a
        → Owes Sound (λ r. Sound r × IsDone r) (settle_by s a)
    settle-Sound s (accepted y h) (journey, size) before large e keeps = (
      Journey-add Moves Retries h (s.t + h) y journey
          (record { before = before; large = large; accepts = e; time = refl; size = keeps }),
      keeps,
    )
    settle-Sound s (rejected h) (journey, size) before large e keeps = (
      Journey-stay Moves Retries (cut s.h h) journey
          (record { before = before; large = large; h_left = h; rejects = e; halved = refl }),
      size,
    )

    round-Sound :
        (s : Run W)
        → Sound s
        → lt s.t t_end ≡ true
        → Yields (Owes Sound (λ r. Sound r × IsDone r)) (round_by s)
    round-Sound s sound before =
        let (a, e, keeps) = Yields-value (total s.t s.y (min s.h (t_end - s.t)) sound.1) in
        elim (Bool-cases (too_small (min s.h (t_end - s.t)))) [
          | inl small ↦ rw small (yields (sound, inr small))
          | inr large ↦ rw (large, e) (yields (settle-Sound s a sound before large e keeps))
        ]

    pub loop-Sound :
        (rounds : ℕ) (s : Run W)
        → Sound s
        → Yields (Owes Sound (λ r. Sound r × IsDone r)) (loop rounds (λ s. lt s.t t_end) round_by s)
    loop-Sound =
        loop-Yields Sound (λ r. Sound r × IsDone r) (λ s. lt s.t t_end) round_by round-Sound
          (λ s h e. (h, inl e))
