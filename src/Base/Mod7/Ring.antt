-- ===== src/Base/Mod7/Ring.antt =====
-- The laws of a ring for the integers modulo 7.
use odeclient_server.Base.Lists.{◌≡◌, refl, sym, ap, ◌∙◌}
use odeclient_server.Base.Ring.{RingLaws}
use odeclient_server.Base.Mod7.{
  Mod7, r0, r1, r2, r3, r4, r5, r6, next, plus, times, negate, mod7_double,
}

induction {ℓ} : (P : Mod7 → Type ℓ) → P r0 → ((a : Mod7) → P a → P (next a)) → (a : Mod7) → P a
induction P z s r0 = z
induction P z s r1 = s r0 z
induction P z s r2 = s r1 (s r0 z)
induction P z s r3 = s r2 (s r1 (s r0 z))
induction P z s r4 = s r3 (s r2 (s r1 (s r0 z)))
induction P z s r5 = s r4 (s r3 (s r2 (s r1 (s r0 z))))
induction P z s r6 = s r5 (s r4 (s r3 (s r2 (s r1 (s r0 z)))))

pub next_seven : (b : Mod7) → next (next (next (next (next (next (next b)))))) ≡ b
next_seven r0 = refl
next_seven r1 = refl
next_seven r2 = refl
next_seven r3 = refl
next_seven r4 = refl
next_seven r5 = refl
next_seven r6 = refl

pub next-plus : (a b : Mod7) → plus (next a) b ≡ next (plus a b)
next-plus r0 b = refl
next-plus r1 b = refl
next-plus r2 b = refl
next-plus r3 b = refl
next-plus r4 b = refl
next-plus r5 b = refl
next-plus r6 b = sym (next_seven b)

plus-next : (a b : Mod7) → plus a (next b) ≡ next (plus a b)
plus-next r0 b = refl
plus-next r1 b = refl
plus-next r2 b = refl
plus-next r3 b = refl
plus-next r4 b = refl
plus-next r5 b = refl
plus-next r6 b = refl

pub plus_zero : (a : Mod7) → plus a r0 ≡ a
plus_zero r0 = refl
plus_zero r1 = refl
plus_zero r2 = refl
plus_zero r3 = refl
plus_zero r4 = refl
plus_zero r5 = refl
plus_zero r6 = refl

plus_negate : (a : Mod7) → plus a (negate a) ≡ r0
plus_negate r0 = refl
plus_negate r1 = refl
plus_negate r2 = refl
plus_negate r3 = refl
plus_negate r4 = refl
plus_negate r5 = refl
plus_negate r6 = refl

plus_comm : (a b : Mod7) → plus a b ≡ plus b a
plus_comm a b =
    induction (λ a. plus a b ≡ plus b a) (sym (plus_zero b))
      (λ a ih. next-plus a b ∙ ap next ih ∙ sym (plus-next b a)) a

plus_assoc : (a b c : Mod7) → plus (plus a b) c ≡ plus a (plus b c)
plus_assoc a b c =
    induction (λ a. plus (plus a b) c ≡ plus a (plus b c)) refl
      (λ a ih.
        ap (λ x. plus x c) (next-plus a b)
        ∙ next-plus (plus a b) c
        ∙ ap next ih
        ∙ sym (next-plus a (plus b c)))
      a

seven_times : (b : Mod7) → plus b (times r6 b) ≡ r0
seven_times r0 = refl
seven_times r1 = refl
seven_times r2 = refl
seven_times r3 = refl
seven_times r4 = refl
seven_times r5 = refl
seven_times r6 = refl

pub next-times : (a b : Mod7) → times (next a) b ≡ plus b (times a b)
next-times r0 b = refl
next-times r1 b = refl
next-times r2 b = refl
next-times r3 b = refl
next-times r4 b = refl
next-times r5 b = refl
next-times r6 b = sym (seven_times b)

swap : (a b c : Mod7) → plus a (plus b c) ≡ plus b (plus a c)
swap a b c = sym (plus_assoc a b c) ∙ ap (λ x. plus x c) (plus_comm a b) ∙ plus_assoc b a c

times_zero : (a : Mod7) → times a r0 ≡ r0
times_zero r0 = refl
times_zero r1 = refl
times_zero r2 = refl
times_zero r3 = refl
times_zero r4 = refl
times_zero r5 = refl
times_zero r6 = refl

times-next : (a b : Mod7) → times a (next b) ≡ plus a (times a b)
times-next a b =
    induction (λ a. times a (next b) ≡ plus a (times a b)) refl
      (λ a ih.
        next-times a (next b)
        ∙ ap (plus (next b)) ih
        ∙ next-plus b (plus a (times a b))
        ∙ ap next (swap b a (times a b))
        ∙ sym (next-plus a (plus b (times a b)))
        ∙ ap (plus (next a)) (sym (next-times a b)))
      a

times_comm : (a b : Mod7) → times a b ≡ times b a
times_comm a b =
    induction (λ a. times a b ≡ times b a) (sym (times_zero b))
      (λ a ih. next-times a b ∙ ap (plus b) ih ∙ sym (times-next b a)) a

times_plus : (a b c : Mod7) → times a (plus b c) ≡ plus (times a b) (times a c)
times_plus a b c =
    induction (λ a. times a (plus b c) ≡ plus (times a b) (times a c)) refl
      (λ a ih.
        next-times a (plus b c)
        ∙ ap (plus (plus b c)) ih
        ∙ plus_assoc b c (plus (times a b) (times a c))
        ∙ ap (plus b) (swap c (times a b) (times a c))
        ∙ sym (plus_assoc b (times a b) (plus c (times a c)))
        ∙ ap (λ x. plus x (plus c (times a c))) (sym (next-times a b))
        ∙ ap (plus (times (next a) b)) (sym (next-times a c)))
      a

plus_times : (a b c : Mod7) → times (plus a b) c ≡ plus (times a c) (times b c)
plus_times a b c =
    times_comm (plus a b) c
    ∙ times_plus c a b
    ∙ ap (λ x. plus x (times c b)) (times_comm c a)
    ∙ ap (plus (times a c)) (times_comm c b)

times_assoc : (a b c : Mod7) → times (times a b) c ≡ times a (times b c)
times_assoc a b c =
    induction (λ a. times (times a b) c ≡ times a (times b c)) refl
      (λ a ih.
        ap (λ x. times x c) (next-times a b)
        ∙ plus_times b (times a b) c
        ∙ ap (plus (times b c)) ih
        ∙ sym (next-times a (times b c)))
      a

pub mod7-RingLaws : RingLaws Mod7
mod7-RingLaws = record {
  plus_assoc = plus_assoc;
  plus_comm = plus_comm;
  plus_zero = plus_zero;
  plus_negate = plus_negate;
  minus_eq = λ a b. refl;
  times_assoc = times_assoc;
  one_times = λ a. plus_zero a;
  times_comm = times_comm;
  times_plus = times_plus;
}
