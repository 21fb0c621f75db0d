-- ===== src/Base/Mod7/Field.antt =====
-- The laws of a field for the integers modulo 7.
use Prim.Native.Nat.{◌%◌, ◌+◌, ◌*◌}
use odeclient_server.Base.Lists.{ℕ, zero, suc, arith, ◌≡◌, ◌≢◌, refl, sym, ap, ◌∙◌}
use odeclient_server.Base.Field.{FieldLaws}
use odeclient_server.Base.Mod7.{
  Mod7, r0, r1, r2, r3, r4, r5, r6, next, plus, times, inverse, of_remainder, mod7_double,
}
use odeclient_server.Base.Mod7.Ring.{next_seven, next-plus, next-times, plus_zero, mod7-RingLaws}

-- A sum of `n` ones.
abbrev of_nat : ℕ → Mod7
of_nat zero = r0
of_nat (suc n) = next (of_nat n)

of_remainder-mod : (n : ℕ) → of_remainder (n % 7) ≡ of_nat n
of_remainder-mod zero = refl
of_remainder-mod (suc zero) = refl
of_remainder-mod (suc (suc zero)) = refl
of_remainder-mod (suc (suc (suc zero))) = refl
of_remainder-mod (suc (suc (suc (suc zero)))) = refl
of_remainder-mod (suc (suc (suc (suc (suc zero))))) = refl
of_remainder-mod (suc (suc (suc (suc (suc (suc zero)))))) = refl
of_remainder-mod (suc (suc (suc (suc (suc (suc (suc n))))))) =
    let e : suc (suc (suc (suc (suc (suc (suc n)))))) % 7 ≡ n % 7 = omega arith in
    ap of_remainder e ∙ of_remainder-mod n ∙ sym (next_seven (of_nat n))

of_nat-plus : (m n : ℕ) → of_nat (m + n) ≡ plus (of_nat m) (of_nat n)
of_nat-plus zero n = let e : 0 + n ≡ n = omega arith in ap of_nat e
of_nat-plus (suc m) n =
    let e : suc m + n ≡ suc (m + n) = omega arith in
    ap of_nat e ∙ ap next (of_nat-plus m n) ∙ sym (next-plus (of_nat m) (of_nat n))

of_nat-times : (m n : ℕ) → of_nat (m * n) ≡ times (of_nat m) (of_nat n)
of_nat-times zero n = let e : 0 * n ≡ 0 = omega arith in ap of_nat e
of_nat-times (suc m) n =
    let e : suc m * n ≡ n + m * n = omega arith in
    ap of_nat e
    ∙ of_nat-plus n (m * n)
    ∙ ap (plus (of_nat n)) (of_nat-times m n)
    ∙ sym (next-times (of_nat m) (of_nat n))

times_inverse : (b : Mod7) → b ≢ r0 → times b (plus (inverse b) r0) ≡ r1
times_inverse r0 ne = absurd (ne refl)
times_inverse r1 ne = refl
times_inverse r2 ne = refl
times_inverse r3 ne = refl
times_inverse r4 ne = refl
times_inverse r5 ne = refl
times_inverse r6 ne = refl

pub mod7-FieldLaws : FieldLaws Mod7
mod7-FieldLaws = record {
  ring = mod7-RingLaws;
  over_eq = λ a b. ap (times a) (sym (plus_zero (inverse b)));
  inverse = times_inverse;
  lit_plus = λ m n.
      rw (of_remainder-mod m, of_remainder-mod n) (of_remainder-mod (m + n) ∙ of_nat-plus m n);
  lit_times = λ m n.
      rw (of_remainder-mod m, of_remainder-mod n) (of_remainder-mod (m * n) ∙ of_nat-times m n);
  two_ne = λ e. absurd cc;
  three_ne = λ e. absurd cc;
}
