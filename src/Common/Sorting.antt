-- ===== src/Common/Sorting.antt =====
-- `sort.Slice`: a sorted list of the same elements. Equal ones may come out in any order; here it is
-- the one that they had.
use Prim.Native.Nat.{ℕ, ◌+◌}
use mathlib.Core.Path.{◌≡◌, refl}
use mathlib.Core.Bool.{Bool, true, false, ◌||◌, ◌&&◌}
use mathlib.Core.Logic.{inl, inr}
use mathlib.Core.List.{List, [], ◌∷◌}
use native.Mathlib.Omega.{arith}
use booking_concurrent.Common.Tests.{Text, ltb, ◌==◌, if◌then◌else◌, Bool-cases}

-- Go's order of strings, byte by byte.
unfoldable pub text_lt : Text → Text → Bool
text_lt [] [] = false
text_lt [] (d ∷ t) = true
text_lt (c ∷ s) [] = false
text_lt (c ∷ s) (d ∷ t) = ltb c d || (c == d && text_lt s t)

pub text_lt-asym : (s t : Text) → text_lt s t ≡ true → text_lt t s ≡ false
unfolding text_lt
text_lt-asym [] [] e = refl
text_lt-asym [] (d ∷ t) e = refl
text_lt-asym (c ∷ s) [] e = absurd (cc)
text_lt-asym (c ∷ s) (d ∷ t) e = ground (arith, text_lt-asym s t)

module _ {A : Type 0} (less : A → A → Bool) where
  unfoldable pub insert_by : A → List A → List A
  insert_by x [] = x ∷ []
  insert_by x (y ∷ ys) = let rest = insert_by x ys in if less y x then y ∷ rest else x ∷ y ∷ ys

  unfoldable pub sort_by : List A → List A
  sort_by [] = []
  sort_by (x ∷ xs) = insert_by x (sort_by xs)

  -- No element is less than the one before it.
  abbrev pub IsSorted : List A → Type 0
  IsSorted [] = Unit
  IsSorted (x ∷ []) = Unit
  IsSorted (x ∷ y ∷ ys) = (less y x ≡ false) × IsSorted (y ∷ ys)

  unfoldable pub count : (A → Bool) → List A → ℕ
  count p [] = 0
  count p (x ∷ xs) = (if p x then 1 else 0) + count p xs

  count-insert_by :
      (p : A → Bool) (x : A) (ys : List A)
      → count p (insert_by x ys) ≡ (if p x then 1 else 0) + count p ys
  unfolding count insert_by
  count-insert_by p x [] = ground arith
  count-insert_by p x (y ∷ ys) = ground (arith, count-insert_by p x ys)

  -- Sorting drops nothing and adds nothing.
  pub count-sort_by : (p : A → Bool) (xs : List A) → count p (sort_by xs) ≡ count p xs
  unfolding count sort_by
  count-sort_by p [] = ground arith
  count-sort_by p (x ∷ xs) = ground (arith, count-sort_by p xs, count-insert_by p x (sort_by xs))

  insert_by-IsSorted :
      ((x y : A) → less x y ≡ true → less y x ≡ false)
      → (x : A) (ys : List A) → IsSorted ys
      → IsSorted (insert_by x ys)
  unfolding insert_by
  insert_by-IsSorted asym x [] v = tt
  insert_by-IsSorted asym x (y ∷ []) v = elim (Bool-cases (less y x)) [
    | inl e ↦ rw e (asym y x e, tt)
    | inr e ↦ rw e (e, tt)
  ]
  insert_by-IsSorted asym x (y ∷ z ∷ ys) (le, v) = elim (Bool-cases (less y x)) [
    | inr e ↦ rw e (e, (le, v))
    | inl e ↦
        let rest = insert_by-IsSorted asym x (z ∷ ys) v in
        elim (Bool-cases (less z x)) [
          | inl f ↦ rw (e, f) (le, rw f at rest)
          | inr f ↦ rw (e, f) (asym y x e, rw f at rest)
        ]
  ]

  -- Sorting by an order that is never both ways gives a sorted list.
  pub sort_by-IsSorted :
      ((x y : A) → less x y ≡ true → less y x ≡ false) → (xs : List A) → IsSorted (sort_by xs)
  unfolding sort_by
  sort_by-IsSorted asym [] = tt
  sort_by-IsSorted asym (x ∷ xs) = insert_by-IsSorted asym x (sort_by xs) (sort_by-IsSorted asym xs)
