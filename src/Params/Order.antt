-- ===== src/Params/Order.antt =====
-- Lists of values by their index, for the sort of ParseUtils.cpp.
use mathlib.Core.List.Permᴰ
use mathlib.Core.Path.{subst}
use odeclient_server.Base.Lists.{
  ℕ, ◌≡◌, ◌≢◌, ◌≤◌, ◌<◌, refl, sym, ap, ◌∙◌, List, [], ◌∷◌, All, Option, none, some, ◌==◌,
  if◌then◌else◌, arith,
}

module _ {ℓ} {A : Type ℓ} where
  -- The indices are distinct.
  abbrev pub IsDistinct : List (ℕ × A) → Type ℓ
  IsDistinct [] = Unit
  IsDistinct (x ∷ xs) = All (λ y. x.0 ≢ y.0) xs × IsDistinct xs

  -- The indices do not fall.
  abbrev pub IsSorted : List (ℕ × A) → Type ℓ
  IsSorted [] = Unit
  IsSorted (x ∷ xs) = All (λ y. x.0 ≤ y.0) xs × IsSorted xs

  -- The first value at an index.
  abbrev pub at_index : ℕ → List (ℕ × A) → Option A
  at_index i [] = none
  at_index i (x ∷ xs) = if x.0 == i then some x.1 else at_index i xs

  pub All-perm {κ} : (P : A → Type κ) → {xs ys : List A} → Permᴰ.Permᴰ xs ys → All P xs → All P ys
  All-perm P Permᴰ.nil a = tt
  All-perm P (Permᴰ.cons e p) (h, a) = (subst P e h, All-perm P p a)
  All-perm P (Permᴰ.swap e e') (h, (h', a)) = (subst P e' h', (subst P e h, a))
  All-perm P (Permᴰ.trans p q) a = All-perm P q (All-perm P p a)

module _ {ℓ} {A : Type ℓ} where
  -- What holds of a list with two heads exchanged.
  exchanged {κ} :
      (P : List (ℕ × A) → Type κ) {a b a' b' : ℕ × A} (xs : List (ℕ × A))
      → a ≡ b'
      → b ≡ a'
      → P (b ∷ a ∷ xs)
      → P (a' ∷ b' ∷ xs)
  exchanged P {b} {b'} xs e e' p = subst (λ x. P (x ∷ b' ∷ xs)) e' (subst (λ x. P (b ∷ x ∷ xs)) e p)

  pub IsDistinct-perm : {xs ys : List (ℕ × A)} → Permᴰ.Permᴰ xs ys → IsDistinct xs → IsDistinct ys
  IsDistinct-perm Permᴰ.nil h = tt
  IsDistinct-perm (Permᴰ.cons {l₂ = ys} e p) (ne, h) =
      (subst (λ x. All (λ y. x.0 ≢ y.0) ys) e (All-perm (λ y. _ ≢ y.0) p ne), IsDistinct-perm p h)
  IsDistinct-perm (Permᴰ.swap {l = xs} e e') ((ab, al), (bl, h)) =
      exchanged IsDistinct xs e e' (((λ q. ab (sym q)), bl), (al, h))
  IsDistinct-perm (Permᴰ.trans p q) h = IsDistinct-perm q (IsDistinct-perm p h)

  pub at_index-perm :
      (i : ℕ) {xs ys : List (ℕ × A)}
      → Permᴰ.Permᴰ xs ys
      → IsDistinct xs
      → at_index i xs ≡ at_index i ys
  at_index-perm i Permᴰ.nil h = refl
  at_index-perm i (Permᴰ.cons {a} {l₁ = xs} {l₂ = ys} e p) (ne, h) =
      subst (λ x. at_index i (a ∷ xs) ≡ at_index i (x ∷ ys)) e
        (ap (λ rest. if a.0 == i then some a.1 else rest) (at_index-perm i p h))
  at_index-perm i (Permᴰ.swap {a} {b} {l = xs} e e') ((ab, al), (bl, h)) =
      exchanged (λ ys. at_index i (a ∷ b ∷ xs) ≡ at_index i ys) xs e e' (ground arith)
  at_index-perm i (Permᴰ.trans p q) h =
      at_index-perm i p h ∙ at_index-perm i q (IsDistinct-perm p h)

  rises :
      (i : ℕ) (xs : List (ℕ × A))
      → All (λ y. i ≤ y.0) xs
      → All (λ y. i ≢ y.0) xs
      → All (λ y. i < y.0) xs
  rises i [] le ne = tt
  rises i (x ∷ xs) (le, les) (ne, nes) = (omega arith, rises i xs les nes)

  falls : (i j : ℕ) (xs : List (ℕ × A)) → i ≤ j → All (λ y. j < y.0) xs → All (λ y. i < y.0) xs
  falls i j [] h a = tt
  falls i j (x ∷ xs) h (p, a) = (omega arith, falls i j xs h a)

  at_index-none : (i : ℕ) (xs : List (ℕ × A)) → All (λ y. i < y.0) xs → at_index i xs ≡ none
  at_index-none i [] a = refl
  at_index-none i (x ∷ xs) (p, a) = ground (arith, at_index-none i xs a)

  -- Sorted lists with distinct indices that agree at each index are one list.
  pub IsSorted-eq :
      (xs ys : List (ℕ × A))
      → IsSorted xs
      → IsSorted ys
      → IsDistinct xs
      → IsDistinct ys
      → ((i : ℕ) → at_index i xs ≡ at_index i ys)
      → xs ≡ ys
  IsSorted-eq [] [] s s' d d' h = refl
  IsSorted-eq [] (y ∷ ys) s s' d d' h = absurd (ground (arith, h y.0))
  IsSorted-eq (x ∷ xs) [] s s' d d' h = absurd (ground (arith, h x.0))
  IsSorted-eq (x ∷ xs) (y ∷ ys) (sx, s) (sy, s') (dx, d) (dy, d') h =
      let above_x = rises x.0 xs sx dx in
      let above_y = rises y.0 ys sy dy in
      let index : x.0 ≡ y.0 = ground (
        arith,
        h x.0,
        h y.0,
        at_index-none x.0 ys,
        falls x.0 y.0 ys,
        at_index-none y.0 xs,
        falls y.0 x.0 xs,
      ) in
      let value : x.1 ≡ y.1 = ground (arith, h x.0) in
      let rest =
        IsSorted-eq xs ys s s' d d'
          λ i. ground (arith, h i, at_index-none i xs, at_index-none i ys) in
      cc (index, value, rest)
