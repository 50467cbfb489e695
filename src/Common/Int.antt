-- ===== src/Common/Int.antt =====
-- Go's `int` and `int64`, away from overflow: signed numbers over the native ℕ.
use Prim.Native.Nat.{ℕ, zero, suc, ◌-◌, ◌*◌}
use mathlib.Core.Path.{◌≡◌}
use mathlib.Core.Bool.{Bool, true, false}
use native.Mathlib.Decide.{ℕ_discrete}
use booking_concurrent.Common.Tests.{ltb}

-- `negsuc n` is -(n + 1).
pub data ℤ : Type 0 where
  pos : ℕ → ℤ
  negsuc : ℕ → ℤ

unfoldable pub int_discrete : (a b : ℤ) → Dec (a ≡ b)
unfolding ℕ_discrete
int_discrete (pos a) (pos b) = elim (ℕ_discrete a b) [ yes p ↦ yes (cc) | no p ↦ no (λ e. p (cc)) ]
int_discrete (pos a) (negsuc b) = no (λ e. cc)
int_discrete (negsuc a) (pos b) = no (λ e. cc)
int_discrete (negsuc a) (negsuc b) = elim (ℕ_discrete a b) [
  | yes p ↦ yes (cc)
  | no p ↦ no (λ e. p (cc))
]

abbrev pub int_eq : ℤ → ℤ → Bool
int_eq a b = elim (int_discrete a b) [ yes _ ↦ true | no _ ↦ false ]

-- a < b
abbrev pub int_lt : ℤ → ℤ → Bool
int_lt (pos a) (pos b) = ltb a b
int_lt (pos a) (negsuc b) = false
int_lt (negsuc a) (pos b) = true
int_lt (negsuc a) (negsuc b) = ltb b a

-- a + 1 and a - 1
abbrev pub int_inc : ℤ → ℤ
int_inc (pos n) = pos (suc n)
int_inc (negsuc zero) = pos 0
int_inc (negsuc (suc n)) = negsuc n

abbrev pub int_dec : ℤ → ℤ
int_dec (pos zero) = negsuc 0
int_dec (pos (suc n)) = pos n
int_dec (negsuc n) = negsuc (suc n)

-- The rounds of `for n := 1; n <= k; n++`.
abbrev pub rounds : ℤ → ℕ
rounds (pos n) = n
rounds (negsuc n) = 0

-- n * a
abbrev pub int_scale : ℕ → ℤ → ℤ
int_scale n (pos k) = pos (n * k)
int_scale zero (negsuc k) = pos 0
int_scale (suc n) (negsuc k) = negsuc (suc n * suc k - 1)
