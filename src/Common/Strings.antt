-- ===== src/Common/Strings.antt =====
-- The functions of Go's `strings` and `encoding/hex` that the program uses, over bytes.
use Prim.Native.Nat.{ℕ, ◌+◌, ◌-◌, ◌*◌, ◌/◌, ◌%◌, ◌<◌}
use mathlib.Core.Path.{◌≡◌, refl}
use mathlib.Core.Logic.{◌≢◌}
use mathlib.Core.Bool.{◌&&◌}
use mathlib.Core.Option.{Option, none, some}
use mathlib.Core.List.{List, [], ◌∷◌, ◌++◌}
use native.Mathlib.Omega.{arith}
use booking_concurrent.Common.Tests.{Text, ltb, leb, ◌==◌, if◌then◌else◌}
use booking_concurrent.Common.Lists.{All}

-- One more byte before the first half.
abbrev pub onto_half : ℕ → Option (Text × Text) → Option (Text × Text)
onto_half c none = none
onto_half c (some (a, b)) = some (c ∷ a, b)

-- `strings.Cut` at a one-byte separator.
unfoldable pub cut : ℕ → Text → Option (Text × Text)
cut sep [] = none
cut sep (c ∷ s) = let rest = onto_half c (cut sep s) in if c == sep then some ([], s) else rest

-- One more byte before the first part.
abbrev pub onto_first : ℕ → List Text → List Text
onto_first c [] = (c ∷ []) ∷ []
onto_first c (p ∷ ps) = (c ∷ p) ∷ ps

-- `strings.Split` at a one-byte separator.
unfoldable pub split : ℕ → Text → List Text
split sep [] = [] ∷ []
split sep (c ∷ s) = let rest = split sep s in if c == sep then [] ∷ rest else onto_first c rest

-- `strings.HasPrefix` and `TrimPrefix`: what follows the prefix.
unfoldable pub after_prefix : Text → Text → Option Text
after_prefix [] s = some s
after_prefix (p ∷ ps) [] = none
after_prefix (p ∷ ps) (c ∷ s) = let rest = after_prefix ps s in if p == c then rest else none

unfoldable pub hex_digit : ℕ → ℕ
hex_digit d = if ltb d 10 then b'0' + d else b'a' + (d - 10)

-- `hex.EncodeToString`
unfoldable pub hex_encode : Text → Text
hex_encode [] = []
hex_encode (c ∷ s) = hex_digit (c / 16) ∷ hex_digit (c % 16) ∷ hex_encode s

unfoldable pub hex_value : ℕ → Option ℕ
hex_value c =
    if leb b'0' c && leb c b'9'
    then some (c - b'0')
    else if leb b'a' c && leb c b'f'
    then some (c - b'a' + 10)
    else if leb b'A' c && leb c b'F'
    then some (c - b'A' + 10)
    else none

abbrev pub hex_byte : Option ℕ → Option ℕ → Option Text → Option Text
hex_byte (some h) (some l) (some s) = some ((h * 16 + l) ∷ s)
hex_byte _ _ _ = none

-- `hex.DecodeString`
unfoldable pub hex_decode : Text → Option Text
hex_decode [] = some []
hex_decode (c ∷ []) = none
hex_decode (c ∷ d ∷ s) = hex_byte (hex_value c) (hex_value d) (hex_decode s)

pub cut-append :
    (sep : ℕ) (a b : Text) → All (λ c. c ≢ sep) a → cut sep (a ++ sep ∷ b) ≡ some (a, b)
unfolding cut
cut-append sep [] b h = ground arith
cut-append sep (c ∷ a) b h = ground (arith, cut-append sep a b h.1, h.0)

pub split_one : (sep : ℕ) (a : Text) → All (λ c. c ≢ sep) a → split sep a ≡ a ∷ []
unfolding split
split_one sep [] h = refl
split_one sep (c ∷ a) h = ground (arith, split_one sep a h.1, h.0)

pub split-append :
    (sep : ℕ) (a b : Text) → All (λ c. c ≢ sep) a → split sep (a ++ sep ∷ b) ≡ a ∷ split sep b
unfolding split
split-append sep [] b h = ground arith
split-append sep (c ∷ a) b h = ground (arith, split-append sep a b h.1, h.0)

pub after_prefix-append : (p s : Text) → after_prefix p (p ++ s) ≡ some s
unfolding after_prefix
after_prefix-append [] s = refl
after_prefix-append (c ∷ p) s = ground (arith, after_prefix-append p s)

hex_value-hex_digit : (d : ℕ) → d < 16 → hex_value (hex_digit d) ≡ some d
unfolding hex_value hex_digit
hex_value-hex_digit d h = ground arith

pub hex_decode-hex_encode : (s : Text) → All (λ c. c < 256) s → hex_decode (hex_encode s) ≡ some s
unfolding hex_decode hex_encode
hex_decode-hex_encode [] h = refl
hex_decode-hex_encode (c ∷ s) h =
    rw
      (
        hex_value-hex_digit (c / 16) (omega arith),
        hex_value-hex_digit (c % 16) (omega arith),
        hex_decode-hex_encode s h.1,
      )
      (ground arith)

-- The cut at the last separator, by which the proofs take a key apart from its end.
pub last_cut : ℕ → Text → Option (Text × Text)
last_cut sep [] = none
last_cut sep (c ∷ s) = elim (last_cut sep s) [
  | some r ↦ onto_half c (some r)
  | none ↦ if c == sep then some ([], s) else none
]

last_cut-none : (sep : ℕ) (b : Text) → All (λ c. c ≢ sep) b → last_cut sep b ≡ none
unfolding last_cut
last_cut-none sep [] h = refl
last_cut-none sep (c ∷ b) h = ground (arith, last_cut-none sep b h.1, h.0)

pub last_cut-append :
    (sep : ℕ) (a b : Text) → All (λ c. c ≢ sep) b → last_cut sep (a ++ sep ∷ b) ≡ some (a, b)
unfolding last_cut
last_cut-append sep [] b h = ground (arith, last_cut-none sep b h)
last_cut-append sep (c ∷ a) b h = ground (arith, last_cut-append sep a b h)
