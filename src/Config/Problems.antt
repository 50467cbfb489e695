-- ===== src/Config/Problems.antt =====
-- `fail` of internal/platform/config/config.go: a reading goes on after a problem and collects it.
use booking_concurrent.Common.{
  Bool, true, false, ◌≡◌, refl, List, [], ◌∷◌, ◌++◌, Option, none, some, if◌then◌else◌, Text,
  text_eq, bytes, arith, ℤ, pos, int_lt, ◌||◌,
}
use booking_concurrent.Common.Decimal.{parse_int}
use booking_concurrent.Domain.Booking.{Unicode, to_lower}

-- The environment: `os.Getenv` gives the empty string for a variable that is not set.
abbrev pub Environ : Type 0
Environ = Text → Text

-- A problem: the variable, and the format of the message.
abbrev pub Problem : Type 0
Problem = Text × Text

-- A value, with the problems met on the way to it.
abbrev pub Checked : Type 0 → Type 0
Checked A = A × List Problem

module _ {A B : Type 0} where
  infixl 5 ◌>>=◌
  abbrev pub ◌>>=◌ : Checked A → (A → Checked B) → Checked B
  (a, ps) >>= rest = ((rest a).0, ps ++ (rest a).1)

module _ {B : Type 0} where
  infixl 5 ◌>>◌
  abbrev pub ◌>>◌ : Checked (Unit {0}) → Checked B → Checked B
  check >> rest = check >>= λ passed. rest

-- `if bad { fail(...) }`
abbrev pub fail_if : Bool → Text → Text → Checked (Unit {0})
fail_if bad key format = (tt, if bad then (key, format) ∷ [] else [])

abbrev pub pure : {A : Type 0} → A → Checked A
pure a = (a, [])

-- What the standard library makes of a duration (in nanoseconds) and of a URL.
pub record Parsers : Type 0 where
  pub duration : Text → Option ℤ
  pub is_url : Text → Bool

abbrev pub is_empty : Text → Bool
is_empty s = text_eq s []

unfoldable pub with_default : Environ → Text → Text → Text
with_default env key default = if is_empty (env key) then default else env key

unfoldable pub duration : Parsers → Environ → Text → ℤ → Checked ℤ
duration ps env key default =
    if is_empty (env key) then (default, []) else elim (ps.duration (env key)) [
      | none ↦ (default, (key, bytes "%s: %q is not a valid duration (%v)") ∷ [])
      | some d ↦
          if int_lt d (pos 1)
          then (default, (key, bytes "%s must be positive, got %s") ∷ [])
          else (d, [])
    ]

unfoldable pub int_in_range : Environ → Text → (default min max : ℤ) → Checked ℤ
int_in_range env key default min max =
    if is_empty (env key) then (default, []) else elim (parse_int (env key)) [
      | none ↦ (default, (key, bytes "%s: %q is not an integer") ∷ [])
      | some n ↦
          if int_lt n min || int_lt max n
          then (default, (key, bytes "%s: %d is out of range [%d, %d]") ∷ [])
          else (n, [])
    ]

abbrev pub is_one_of : Text → List Text → Bool
is_one_of s [] = false
is_one_of s (t ∷ ts) = text_eq s t || is_one_of s ts

unfoldable pub bool_var : Unicode → Environ → Text → Bool → Checked Bool
bool_var un env key default =
    let raw = to_lower un (env key) in
    if is_empty (env key)
    then (default, [])
    else if is_one_of raw (bytes "1" ∷ bytes "true" ∷ bytes "yes" ∷ [])
    then (true, [])
    else if is_one_of raw (bytes "0" ∷ bytes "false" ∷ bytes "no" ∷ [])
    then (false, [])
    else (default, (key, bytes "%s: %q is not a valid boolean (use true/false)") ∷ [])

pub data Level : Type 0 where
  debug info warn error : Level

unfoldable pub log_level : Unicode → Environ → Text → Checked Level
unfolding with_default
log_level un env key =
    let raw = to_lower un (with_default env key (bytes "info")) in
    if text_eq raw (bytes "debug")
    then (debug, [])
    else if text_eq raw (bytes "info")
    then (info, [])
    else if is_one_of raw (bytes "warn" ∷ bytes "warning" ∷ [])
    then (warn, [])
    else if text_eq raw (bytes "error")
    then (error, [])
    else (info, (key, bytes "%s: must be one of debug, info, warn, error") ∷ [])

-- A reading without problems has none in either part.
pub no_problems {ℓ} : {A : Type ℓ} (xs ys : List A) → xs ++ ys ≡ [] → (xs ≡ []) × (ys ≡ [])
no_problems [] ys e = (refl, e)
no_problems (x ∷ xs) ys e = absurd (cc)

-- A duration read without problems is positive, if the default is.
pub duration-positive :
    (ps : Parsers) (env : Environ) (key : Text) (default : ℤ)
    → int_lt default (pos 1) ≡ false
    → (duration ps env key default).1 ≡ []
    → int_lt (duration ps env key default).0 (pos 1) ≡ false
unfolding duration
duration-positive ps env key default h e = ground arith

-- A number is in its range, whatever the problems, if the default is.
pub int_in_range-bounds :
    (env : Environ) (key : Text) (default min max : ℤ)
    → (int_lt default min || int_lt max default) ≡ false
    → (int_lt (int_in_range env key default min max).0 min
        || int_lt max (int_in_range env key default min max).0)
      ≡ false
unfolding int_in_range
int_in_range-bounds env key default min max h = ground arith
