-- ===== src/Base/Mod7.antt =====
-- An exact arithmetic that the tests run on: the integers modulo 7, where 10 and the other
-- denominators of the sources are invertible, ordered by their remainders. The transcendental
-- functions are stand-ins.
pub mod Ring
pub mod Field
use Prim.Native.Nat.{◌%◌}
use odeclient_server.Base.Lists.{ℕ, zero, suc, Bool, ltb, ◌==◌, ◌||◌}
use odeclient_server.Base.Double.{Double}

pub data Mod7 : Type 0 where
  r0 r1 r2 r3 r4 r5 r6 : Mod7

-- `r + 1`.
abbrev pub next : Mod7 → Mod7
next r0 = r1
next r1 = r2
next r2 = r3
next r3 = r4
next r4 = r5
next r5 = r6
next r6 = r0

abbrev pub plus : Mod7 → Mod7 → Mod7
plus r0 b = b
plus r1 b = next b
plus r2 b = next (next b)
plus r3 b = next (next (next b))
plus r4 b = next (next (next (next b)))
plus r5 b = next (next (next (next (next b))))
plus r6 b = next (next (next (next (next (next b)))))

abbrev pub times : Mod7 → Mod7 → Mod7
times r0 b = r0
times r1 b = plus b r0
times r2 b = plus b (plus b r0)
times r3 b = plus b (plus b (plus b r0))
times r4 b = plus b (plus b (plus b (plus b r0)))
times r5 b = plus b (plus b (plus b (plus b (plus b r0))))
times r6 b = plus b (plus b (plus b (plus b (plus b (plus b r0)))))

abbrev pub negate : Mod7 → Mod7
negate r0 = r0
negate r1 = r6
negate r2 = r5
negate r3 = r4
negate r4 = r3
negate r5 = r2
negate r6 = r1

-- `1 / r`, and 0 for 0.
abbrev pub inverse : Mod7 → Mod7
inverse r0 = r0
inverse r1 = r1
inverse r2 = r4
inverse r3 = r5
inverse r4 = r2
inverse r5 = r3
inverse r6 = r6

abbrev remainder : Mod7 → ℕ
remainder r0 = 0
remainder r1 = 1
remainder r2 = 2
remainder r3 = 3
remainder r4 = 4
remainder r5 = 5
remainder r6 = 6

abbrev pub of_remainder : ℕ → Mod7
of_remainder zero = r0
of_remainder (suc zero) = r1
of_remainder (suc (suc zero)) = r2
of_remainder (suc (suc (suc zero))) = r3
of_remainder (suc (suc (suc (suc zero)))) = r4
of_remainder (suc (suc (suc (suc (suc zero))))) = r5
of_remainder _ = r6

-- m · 10^-d, where 1/10 is 5.
abbrev decimal : ℕ → ℕ → Mod7
decimal m zero = of_remainder (m % 7)
decimal m (suc d) = times r5 (decimal m d)

abbrev on_remainders : (ℕ → ℕ → Bool) → Mod7 → Mod7 → Bool
on_remainders test a b = test (remainder a) (remainder b)

instance abbrev pub mod7_double : Double Mod7
mod7_double = record {
  lit = decimal;
  plus = plus;
  minus = λ a b. plus a (negate b);
  times = times;
  over = λ a b. times a (inverse b);
  pow = λ a b. a;
  negate = negate;
  fabs = λ a. a;
  sqrt = λ a. a;
  log = λ a. a;
  exp = λ a. a;
  cos = λ a. a;
  lt = on_remainders ltb;
  le = on_remainders λ m n. ltb m n || (m == n);
  eq = on_remainders ◌==◌;
}
