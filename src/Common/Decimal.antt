-- ===== src/Common/Decimal.antt =====
-- `strconv.Itoa` and `FormatInt`, `Atoi` and `ParseInt(s, 10, 64)`.
use Prim.Native.Nat.{ℕ, zero, suc, ◌+◌, ◌-◌, ◌*◌, ◌/◌, ◌%◌, ◌^◌, ◌<◌}
use mathlib.Core.Path.{◌≡◌, ◌∙◌, ap}
use mathlib.Core.Logic.{inl, inr}
use mathlib.Core.Bool.{Bool, true, ◌&&◌}
use mathlib.Core.Option.{Option, none, some}
use mathlib.Core.List.{[], ◌∷◌, ◌++◌}
use native.Mathlib.Omega.{arith}
use booking_concurrent.Common.Tests.{Text, ltb, leb, ◌==◌, if◌then◌else◌, Bool-cases}
use booking_concurrent.Common.Lists.{All}
use booking_concurrent.Common.Int.{ℤ, pos, negsuc}

-- The decimal digits of a number; `n + 1` is fuel enough (`digits_value-digits`).
unfoldable pub digits : (fuel n : ℕ) → Text
digits zero n = []
digits (suc fuel) n =
    let more = digits fuel (n / 10) ++ (b'0' + n % 10) ∷ [] in
    if ltb n 10 then (b'0' + n) ∷ [] else more

unfoldable pub itoa : ℤ → Text
unfolding digits
itoa (pos n) = digits (suc n) n
itoa (negsuc n) = b'-' ∷ digits (suc (suc n)) (suc n)

abbrev pub is_digit : ℕ → Bool
is_digit c = leb b'0' c && leb c b'9'

-- The value of a run of digits that follows a prefix of value `acc`.
unfoldable pub digits_value : (acc : ℕ) → Text → Option ℕ
digits_value acc [] = some acc
digits_value acc (c ∷ s) =
    let rest = digits_value (acc * 10 + (c - b'0')) s in if is_digit c then rest else none

-- At least one digit.
unfoldable pub parse_digits : Text → Option ℕ
parse_digits [] = none
parse_digits (c ∷ s) = digits_value 0 (c ∷ s)

abbrev int64_limit : ℕ
int64_limit = 2 ^ 63

abbrev in_range_pos : Option ℕ → Option ℤ
in_range_pos none = none
in_range_pos (some n) = if ltb n int64_limit then some (pos n) else none

abbrev in_range_neg : Option ℕ → Option ℤ
in_range_neg none = none
in_range_neg (some zero) = some (pos 0)
in_range_neg (some (suc n)) = if ltb n int64_limit then some (negsuc n) else none

-- `none` stands for either error.
unfoldable pub parse_int : Text → Option ℤ
unfolding parse_digits
parse_int [] = none
parse_int (c ∷ s) =
    if c == b'-'
    then in_range_neg (parse_digits s)
    else if c == b'+'
    then in_range_pos (parse_digits s)
    else in_range_pos (parse_digits (c ∷ s))

digits_value-append :
    (acc d : ℕ) (xs : Text) (v : ℕ)
    → digits_value acc xs ≡ some v
    → d < 10
    → digits_value acc (xs ++ (b'0' + d) ∷ []) ≡ some (v * 10 + d)
unfolding digits_value
digits_value-append acc d [] v e h = ground arith
digits_value-append acc d (c ∷ xs) v e h =
    ground (arith, digits_value-append (acc * 10 + (c - b'0')) d xs v)

pub digits_value-digits : (fuel n : ℕ) → n < fuel → digits_value 0 (digits fuel n) ≡ some n
unfolding digits_value digits
digits_value-digits zero n h = absurd (omega arith)
digits_value-digits (suc fuel) n h = elim (Bool-cases (ltb n 10)) [
  | inl small ↦ rw small (ground arith)
  | inr big ↦ rw big (
      digits_value-append 0 (n % 10) (digits fuel (n / 10)) (n / 10)
        (digits_value-digits fuel (n / 10) (ground arith)) (omega arith)
      ∙ ap some (omega arith))
]

All-append : (P : ℕ → Type 0) (xs ys : Text) → All P xs → All P ys → All P (xs ++ ys)
All-append P [] ys hx hy = hy
All-append P (x ∷ xs) ys hx hy = (hx.0, All-append P xs ys hx.1 hy)

-- Every character is a digit.
pub All-digits : (fuel n : ℕ) → All (λ c. is_digit c ≡ true) (digits fuel n)
unfolding digits
All-digits zero n = tt
All-digits (suc fuel) n = elim (Bool-cases (ltb n 10)) [
  | inl small ↦ rw small (ground arith, tt)
  | inr big ↦
      rw big (All-append _ (digits fuel (n / 10)) _ (All-digits fuel (n / 10)) (ground arith, tt))
]

digits-ne-nil : (fuel n : ℕ) → n < fuel → (c : ℕ) × (s : Text) × (digits fuel n ≡ c ∷ s)
unfolding digits
digits-ne-nil zero n h = absurd (omega arith)
digits-ne-nil (suc fuel) n h = elim (Bool-cases (ltb n 10)) [
  | inl small ↦ (b'0' + n, [], rw small)
  | inr big ↦
      let (c, s, e) = digits-ne-nil fuel (n / 10) (ground arith) in
      (c, s ++ (b'0' + n % 10) ∷ [], rw (big, e))
]

parse_digits-digits : (fuel n : ℕ) → n < fuel → parse_digits (digits fuel n) ≡ some n
unfolding parse_digits
parse_digits-digits fuel n h =
    let (c, s, e) = digits-ne-nil fuel n h in rw e (rw e at (digits_value-digits fuel n h))

-- The numbers of an `int64`.
abbrev pub IsInt64 : ℤ → Type 0
IsInt64 (pos n) = n < 2 ^ 63
IsInt64 (negsuc n) = n < 2 ^ 63

parse_unsigned :
    (n c : ℕ) (s : Text)
    → digits (suc n) n ≡ c ∷ s
    → n < int64_limit
    → parse_int (c ∷ s) ≡ some (pos n)
unfolding parse_int
parse_unsigned n c s e h =
    ground (arith, All_head, rw e at (parse_digits-digits (suc n) n (omega arith)))
  where
    All_head : is_digit c ≡ true
    All_head = (rw e at (All-digits (suc n) n)).0

-- `Atoi` reads back what `Itoa` writes, for every number of the machine.
pub parse_int-itoa : (a : ℤ) → IsInt64 a → parse_int (itoa a) ≡ some a
unfolding itoa parse_int
parse_int-itoa (pos n) h =
    let (c, s, e) = digits-ne-nil (suc n) n (omega arith) in rw e (parse_unsigned n c s e h)
parse_int-itoa (negsuc n) h =
    rw (parse_digits-digits (suc (suc n)) (suc n) (omega arith)) (ground arith)
