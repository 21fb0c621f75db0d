-- ===== src/Base/Milli.antt =====
-- A small arithmetic that the tests run on: thousandths of a natural number, `none` for NaN,
-- differences cut off at 0. The transcendental functions are stand-ins.
use Prim.Native.Nat.{◌+◌, ◌-◌, ◌*◌, ◌/◌, ◌^◌}
use odeclient_server.Base.Lists.{ℕ, Bool, false, Option, none, some, ltb, ◌==◌, ◌||◌, if◌then◌else◌}
use odeclient_server.Base.Double.{Double}

abbrev pub Milli : Type 0
Milli = Option ℕ

abbrev pub on_two : (ℕ → ℕ → Milli) → Milli → Milli → Milli
on_two f (some a) (some b) = f a b
on_two f _ _ = none

abbrev pub on_numbers : (ℕ → ℕ → Bool) → Milli → Milli → Bool
on_numbers f (some a) (some b) = f a b
on_numbers f _ _ = false

abbrev pub quotient : ℕ → ℕ → Milli
quotient a b = if b == 0 then none else some (a * 1000 / b)

instance abbrev pub milli_double : Double Milli
milli_double = record {
  lit = λ m d. some (m * 1000 / 10 ^ d);
  plus = on_two λ a b. some (a + b);
  minus = on_two λ a b. some (a - b);
  times = on_two λ a b. some (a * b / 1000);
  over = on_two quotient;
  pow = λ a b. a;
  negate = λ a. a;
  fabs = λ a. a;
  sqrt = λ a. a;
  log = λ a. a;
  exp = λ a. a;
  cos = λ a. a;
  lt = on_numbers ltb;
  le = on_numbers λ a b. ltb a b || (a == b);
  eq = on_numbers ◌==◌;
}
