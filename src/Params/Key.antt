-- ===== src/Params/Key.antt =====
-- ParseUtils.cpp: which keys are read, and as which index.
use Prim.Native.Char.{Char, code}
use Prim.Native.Nat.{◌+◌, ◌-◌, ◌*◌, ◌/◌, ◌%◌, ◌^◌}
use Prim.Native.String.{◌++◌ as joined}
use text.Mathlib.TextEquality.{eq_iff, Char-path}
use text.Mathlib.Text.{◌==◌ as same_text}
use text.Mathlib.TextLemmas.{cons-append, nil-append, cons≢nil}
use odeclient_server.Base.Lists.{
  ℕ, zero, suc, ◌≡◌, ◌≢◌, ◌⊎◌, ◌==◌, ◌<◌, refl, ap, ◌∙◌, sym, String, none, some, Bool, true, false,
  ltb, if◌then◌else◌, arith, Bool-cases, inl, inr,
}
use odeclient_server.Base.Outcome.{ok}
use odeclient_server.Params.{is_digit, scan_index, read_index, stoi}

abbrev pub digit : ℕ → Char
digit zero = "0"
digit (suc zero) = "1"
digit (suc (suc zero)) = "2"
digit (suc (suc (suc zero))) = "3"
digit (suc (suc (suc (suc zero)))) = "4"
digit (suc (suc (suc (suc (suc zero))))) = "5"
digit (suc (suc (suc (suc (suc (suc zero)))))) = "6"
digit (suc (suc (suc (suc (suc (suc (suc zero))))))) = "7"
digit (suc (suc (suc (suc (suc (suc (suc (suc zero)))))))) = "8"
digit _ = "9"

-- The decimal digits of `n`, before `out`; `fuel` above `n` is enough.
unfoldable pub decimal : ℕ → ℕ → String → String
decimal zero n out = out
decimal (suc fuel) n out =
    let rest = decimal fuel (n / 10) (String.◌∷◌ (digit (n % 10)) out) in
    if ltb n 10 then String.◌∷◌ (digit n) out else rest

-- The key of the `n`-th initial value.
unfoldable pub key_of : ℕ → String
key_of n = String.◌∷◌ "y" (decimal (suc n) n "_init")

code-digit : (d : ℕ) → d < 10 → code (digit d) ≡ b'0' + d
code-digit zero h = omega arith
code-digit (suc zero) h = omega arith
code-digit (suc (suc zero)) h = omega arith
code-digit (suc (suc (suc zero))) h = omega arith
code-digit (suc (suc (suc (suc zero)))) h = omega arith
code-digit (suc (suc (suc (suc (suc zero))))) h = omega arith
code-digit (suc (suc (suc (suc (suc (suc zero)))))) h = omega arith
code-digit (suc (suc (suc (suc (suc (suc (suc zero))))))) h = omega arith
code-digit (suc (suc (suc (suc (suc (suc (suc (suc zero)))))))) h = omega arith
code-digit (suc (suc (suc (suc (suc (suc (suc (suc (suc d))))))))) h = ground arith

scan_index-digit :
    (seen : Bool) (d : ℕ) (s : String) (n : ℕ)
    → d < 10
    → scan_index seen (String.◌∷◌ (digit d) s) n ≡ scan_index true s (n * 10 + d)
unfolding scan_index
scan_index-digit seen d s n h =
    let e : is_digit (b'0' + d) ≡ true = ground arith in
    let back : (b'0' + d) - b'0' ≡ d = omega arith in rw (code-digit d h, e, back)

scan_index-decimal :
    (seen : Bool) (fuel n : ℕ) (out : String)
    → n < fuel
    → scan_index seen (decimal fuel n out) 0 ≡ scan_index true out n
unfolding decimal
scan_index-decimal seen zero n out h = absurd (omega arith)
scan_index-decimal seen (suc fuel) n out h = elim (Bool-cases (ltb n 10)) [
  | inl small ↦
      rw small
        (scan_index-digit seen n out 0 (ground arith) ∙ ap (scan_index true out) (omega arith))
  | inr large ↦ rw large (
      scan_index-decimal seen fuel (n / 10) (String.◌∷◌ (digit (n % 10)) out) (ground arith)
      ∙ scan_index-digit true (n % 10) out (n / 10) (omega arith)
      ∙ ap (scan_index true out) (omega arith))
]

-- The key of an index is read back as that index, and `std::stoi` takes it if it fits an `int`.
pub read_index-key_of : (n : ℕ) → (read_index (key_of n) ≡ some n) × (n < 2 ^ 31 → stoi n ≡ ok n)
unfolding read_index key_of scan_index stoi
read_index-key_of n = (scan_index-decimal false (suc n) n "_init" (omega arith), λ h. ground arith)

-- The number that digits spell behind `n`.
abbrev pub value : String → ℕ → ℕ
value String.[] n = n
value (String.◌∷◌ c s) n = value s (n * 10 + (code c - b'0'))

abbrev pub IsDigits : String → Type 0
IsDigits String.[] = Unit
IsDigits (String.◌∷◌ c s) = (is_digit (code c) ≡ true) × IsDigits s

-- What is read as `m` behind `n`: digits, at least one unless one was seen, and "_init".
pub record IsRead (seen : Bool) (s : String) (n m : ℕ) : Type 0 where
  pub digits : String
  pub split : s ≡ joined digits "_init"
  pub all : IsDigits digits
  pub spells : m ≡ value digits n
  pub some_digit : seen ≡ false → digits ≢ ""

scan_index-IsRead :
    (seen : Bool) (s : String) (n m : ℕ) → scan_index seen s n ≡ some m → IsRead seen s n m
unfolding scan_index
scan_index-IsRead seen String.[] n m e = absurd cc
scan_index-IsRead seen (String.◌∷◌ c s) n m e = elim (Bool-cases (is_digit (code c))) [
  | inl d ↦
      let r = scan_index-IsRead true s (n * 10 + (code c - b'0')) m (rw d at e) in
      record {
        digits = String.◌∷◌ c r.digits;
        split = ap (String.◌∷◌ c) r.split ∙ sym (cons-append c r.digits "_init");
        all = (d, r.all);
        spells = r.spells;
        some_digit = λ _. cons≢nil;
      }
  | inr d ↦ last d (Bool-cases seen) (Bool-cases (same_text (String.◌∷◌ c s) "_init"))
]
  where
    last :
        is_digit (code c) ≡ false
        → (seen ≡ true) ⊎ (seen ≡ false)
        → (same_text (String.◌∷◌ c s) "_init" ≡ true) ⊎ (same_text (String.◌∷◌ c s) "_init" ≡ false)
        → IsRead seen (String.◌∷◌ c s) n m
    last d (inl seen_eq) (inl same) =
        let got : some n ≡ some m = rw (d, seen_eq, same) at e in
        record {
          digits = "";
          split = (eq_iff (String.◌∷◌ c s) "_init").0 same ∙ sym (nil-append "_init");
          all = tt;
          spells = cc;
          some_digit = λ h. absurd cc;
        }
    last d (inl seen_eq) (inr other) =
        let got : none ≡ some m = rw (d, seen_eq, other) at e in absurd cc
    last d (inr unseen) _ = let got : none ≡ some m = rw (d, unseen) at e in absurd cc

-- A key that is read is "y", one digit or more, and "_init", and is read as the number that the
-- digits spell.
pub read_index_sound :
    (key : String) (n : ℕ)
    → read_index key ≡ some n
    → (digits : String) × (key ≡ joined "y" (joined digits "_init"))
      × IsDigits digits
      × (digits ≢ "")
      × (n ≡ value digits 0)
unfolding read_index
read_index_sound String.[] n e = absurd cc
read_index_sound (String.◌∷◌ c s) n e = elim (Bool-cases (code c == b'y')) [
  | inl y ↦
      let r = scan_index-IsRead false s 0 n (rw y at e) in
      (
        r.digits,
        begins r y
            ∙ sym (
                cons-append "y" "" (joined r.digits "_init")
                ∙ ap (String.◌∷◌ "y") (nil-append (joined r.digits "_init"))),
        r.all,
        r.some_digit refl,
        r.spells,
      )
  | inr other ↦ let got : none ≡ some n = rw other at e in absurd cc
]
  where
    begins :
        (r : IsRead false s 0 n)
        → (code c == b'y') ≡ true
        → String.◌∷◌ c s ≡ String.◌∷◌ "y" (joined r.digits "_init")
    begins r y =
        let head : c ≡ "y" = Char-path c "y" (ground arith) in
        ap (λ k. String.◌∷◌ k s) head ∙ ap (String.◌∷◌ "y") r.split
