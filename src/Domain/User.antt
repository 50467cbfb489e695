-- ===== src/Domain/User.antt =====
-- internal/domain/user/user.go and internal/domain/user/refresh_token.go.
pub mod Emails
use booking_concurrent.Common.{
  ℕ, zero, suc, ◌+◌, ◌-◌, Bool, true, false, ◌&&◌, ◌||◌, not, List, [], ◌∷◌, Option, none, some,
  arith, ltb, leb, ◌==◌, if◌then◌else◌, Text, text_eq, length, bytes, Result, ok, err, ◌>>=◌, ◌>>◌,
  refuse_if, Error, wrap, sentinel, user_error, validation,
}
use booking_concurrent.Common.Strings.{cut}
use booking_concurrent.Domain.Booking.{Time, before, Unicode, trim_space, to_lower}

pub data Role : Type 0 where
  customer admin : Role

pub record User : Type 0 where
  pub id : Text
  pub email : Text
  pub password_hash : Text
  pub display_name : Text
  pub role : Role
  pub created_at : Time

abbrev pub email_max_total : ℕ
email_max_total = 254

abbrev pub email_max_local : ℕ
email_max_local = 64

abbrev pub password_min_len : ℕ
password_min_len = 10

abbrev pub password_max_len : ℕ
password_max_len = 128

abbrev pub display_name_max_runes : ℕ
display_name_max_runes = 100

-- `fmt.Errorf("...: %w", ErrValidation)`
abbrev pub invalid : Text → Error
invalid m = wrap m (sentinel (user_error validation))

-- Whether the byte occurs: `strings.Contains` for one byte.
unfoldable pub has_byte : ℕ → Text → Bool
has_byte b [] = false
has_byte b (c ∷ s) = (c == b) || has_byte b s

-- The last byte is a dot; false on the empty string.
unfoldable pub ends_in_dot : Text → Bool
ends_in_dot [] = false
ends_in_dot (c ∷ []) = c == b'.'
ends_in_dot (c ∷ d ∷ s) = ends_in_dot (d ∷ s)

abbrev pub starts_with_dot : Text → Bool
starts_with_dot [] = false
starts_with_dot (c ∷ s) = c == b'.'

-- The checks of `ValidateEmail` from the first `@` on, on the two sides of it: the position is
-- positive when the local part is not empty, and it is the last one when the domain has no `@`.
unfoldable pub check_parts : Text → Option (Text × Text) → Result Text
check_parts e none = err (invalid (bytes "user: email must contain exactly one '@': %w"))
check_parts e (some (local, domain)) = do
  refuse_if (text_eq local [] || has_byte b'@' domain)
      (invalid (bytes "user: email must contain exactly one '@': %w"))
  refuse_if (ltb email_max_local (length local))
      (invalid (bytes "user: email local part exceeds %d characters: %w"))
  refuse_if (text_eq domain [] || not (has_byte b'.' domain))
      (invalid (bytes "user: email domain is malformed: %w"))
  refuse_if (starts_with_dot domain || ends_in_dot domain)
      (invalid (bytes "user: email domain is malformed: %w"))
  ok e

unfoldable pub check_email : Text → Result Text
unfolding check_parts
check_email e = do
  refuse_if (text_eq e []) (invalid (bytes "user: email is required: %w"))
  refuse_if (ltb email_max_total (length e))
      (invalid (bytes "user: email exceeds %d characters: %w"))
  check_parts e (cut b'@' e)

unfoldable pub validate_email : Unicode → Text → Result Text
unfolding check_email
validate_email u email = check_email (to_lower u (trim_space u email))

abbrev in_range : ℕ → ℕ → Text → Bool
in_range low high [] = false
in_range low high (c ∷ s) = leb low c && leb c high

abbrev rest_of : Text → Text
rest_of [] = []
rest_of (c ∷ s) = s

-- How many bytes after the first one belong to the same character of UTF-8; none where the bytes
-- are not UTF-8.
unfoldable pub continuation : ℕ → Text → ℕ
continuation c s =
    if leb 194 c && leb c 223 && in_range 128 191 s
    then 1
    else if leb 224 c
        && leb c 239
        && in_range (if c == 224 then 160 else 128) (if c == 237 then 159 else 191) s
        && in_range 128 191 (rest_of s)
    then 2
    else if leb 240 c
        && leb c 244
        && in_range (if c == 240 then 144 else 128) (if c == 244 then 143 else 191) s
        && in_range 128 191 (rest_of s)
        && in_range 128 191 (rest_of (rest_of s))
    then 3
    else 0

-- The characters of the string once `skip` bytes are left out.
unfoldable pub runes_after : ℕ → Text → ℕ
runes_after skip [] = 0
runes_after zero (c ∷ s) = suc (runes_after (continuation c s) s)
runes_after (suc skip) (c ∷ s) = runes_after skip s

-- `utf8.RuneCountInString`
abbrev pub rune_count : Text → ℕ
rune_count s = runes_after 0 s

unfoldable pub validate_password : Text → Result (Unit {0})
validate_password password = do
  refuse_if (ltb (rune_count password) password_min_len)
      (invalid (bytes "user: password must be at least %d characters: %w"))
  refuse_if (ltb password_max_len (length password))
      (invalid (bytes "user: password exceeds %d characters: %w"))
  ok tt

unfoldable pub validate_display_name : Unicode → Text → Result Text
validate_display_name u name = do
  let n = trim_space u name
  refuse_if (ltb display_name_max_runes (rune_count n))
      (invalid (bytes "user: display name exceeds %d characters: %w"))
  ok n

pub record RefreshToken : Type 0 where
  pub id : Text
  pub user_id : Text
  pub family_id : Text
  pub token_hash : Text
  pub expires_at : Time
  pub created_at : Time
  pub revoked_at : Option Time
  pub replaced_by : Text

abbrev pub is_expired : RefreshToken → Time → Bool
is_expired t now = not (before now t.expires_at)

abbrev pub is_revoked : RefreshToken → Bool
is_revoked t = elim t.revoked_at [ none ↦ false | some _ ↦ true ]

abbrev pub is_replaced : RefreshToken → Bool
is_replaced t = not (text_eq t.replaced_by [])

abbrev pub is_active : RefreshToken → Time → Bool
is_active t now = not (is_revoked t) && not (is_replaced t) && not (is_expired t now)

abbrev pub reuse_is_theft : RefreshToken → Bool
reuse_is_theft t = is_replaced t || is_revoked t
