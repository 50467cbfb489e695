-- ===== src/Domain/User/Emails.antt =====
-- What an email address and a password that are let in look like.
use booking_concurrent.Common.{
  ℕ, ◌≤◌, ◌≡◌, ◌↔◌, sym, subst, ap, ◌∙◌, inl, inr, true, false, [], ◌∷◌, ◌++◌, some, arith, Text,
  text_eq, length, ok, Option-cases,
}
use booking_concurrent.Common.Strings.{cut}
use booking_concurrent.Domain.Booking.{Unicode, trim_space, to_lower}
use booking_concurrent.Domain.User.{
  check_parts, check_email, validate_email, has_byte, ends_in_dot, starts_with_dot, rune_count,
  validate_password,
}

-- A local part of 1 to 64 bytes, one `@`, and a domain with a dot that is neither first nor last.
pub record IsEmail (e : Text) : Type 0 where
  pub local : Text
  pub domain : Text
  pub parts : e ≡ local ++ b'@' ∷ domain
  pub local_at : has_byte b'@' local ≡ false
  pub domain_at : has_byte b'@' domain ≡ false
  pub local_some : 1 ≤ length local
  pub local_most : length local ≤ 64
  pub dotted : has_byte b'.' domain ≡ true
  pub first : starts_with_dot domain ≡ false
  pub last : ends_in_dot domain ≡ false
  pub total : length e ≤ 254

cut_lem : (b : ℕ) (e l d : Text) → cut b e ≡ some (l, d) → (e ≡ l ++ b ∷ d) × (has_byte b l ≡ false)
unfolding cut has_byte
cut_lem b [] l d h = cc
cut_lem b (c ∷ e) l d h = elim (Option-cases (cut b e)) [
  | inl n ↦ ground arith
  | inr ((m, r), n) ↦ ground (arith, cut_lem b e m r n)
]

cut_of_parts : (b : ℕ) (l d : Text) → has_byte b l ≡ false → cut b (l ++ b ∷ d) ≡ some (l, d)
unfolding cut has_byte
cut_of_parts b [] d h = ground arith
cut_of_parts b (c ∷ l) d h = ground (arith, cut_of_parts b l d)

length_of_ne : (s : Text) → text_eq s [] ≡ false → 1 ≤ length s
length_of_ne [] h = ground arith
length_of_ne (c ∷ s) h = omega arith

ne_of_length : (s : Text) → 1 ≤ length s → text_eq s [] ≡ false
ne_of_length [] h = ground arith
ne_of_length (c ∷ s) h = ground arith

dotted-ne : (s : Text) → has_byte b'.' s ≡ true → text_eq s [] ≡ false
unfolding has_byte
dotted-ne [] h = cc
dotted-ne (c ∷ s) h = ground arith

check_parts_sound :
    (e l d r : Text)
    → check_parts e (some (l, d)) ≡ ok r
    → (r ≡ e)
      × (text_eq l [] ≡ false)
      × (has_byte b'@' d ≡ false)
      × (length l ≤ 64)
      × (has_byte b'.' d ≡ true)
      × (starts_with_dot d ≡ false)
      × (ends_in_dot d ≡ false)
unfolding check_parts
check_parts_sound e l d r h = ground arith

check_parts_complete :
    (e l d : Text)
    → text_eq l [] ≡ false
    → has_byte b'@' d ≡ false
    → length l ≤ 64
    → text_eq d [] ≡ false
    → has_byte b'.' d ≡ true
    → starts_with_dot d ≡ false
    → ends_in_dot d ≡ false
    → check_parts e (some (l, d)) ≡ ok e
unfolding check_parts
check_parts_complete e l d a b c n f g i = ground arith

check_email_steps :
    (e r : Text) → check_email e ≡ ok r → (length e ≤ 254) × (check_parts e (cut b'@' e) ≡ ok r)
unfolding check_email
check_email_steps e r h = ground arith

-- An address that is let in is kept as normalised, and has the shape of one.
pub check_email_sound : (e r : Text) → check_email e ≡ ok r → (r ≡ e) × IsEmail e
check_email_sound e r h = elim (Option-cases (cut b'@' e)) [
  | inl n ↦ unfold check_parts in absurd (ground (arith, check_email_steps e r h))
  | inr ((l, d), n) ↦
      let total = check_email_steps e r h in
      let split = cut_lem b'@' e l d n in
      let v = check_parts_sound e l d r (ground (arith, check_email_steps e r h)) in
      (
        v.0,
        record {
          local = l;
          domain = d;
          parts = split.0;
          local_at = split.1;
          domain_at = v.2;
          local_some = length_of_ne l v.1;
          local_most = v.3;
          dotted = v.4;
          first = v.5;
          last = v.6;
          total = total.0;
        },
      )
]

-- Every address of that shape is let in.
pub check_email_complete : (e : Text) → IsEmail e → check_email e ≡ ok e
unfolding check_email
check_email_complete e v = ground (
  arith,
  v.parts,
  v.total,
  cut_of_parts b'@' v.local v.domain v.local_at,
  check_parts_complete e v.local v.domain (ne_of_length v.local v.local_some) v.domain_at
      v.local_most (dotted-ne v.domain v.dotted) v.dotted v.first v.last,
)

-- A password that is let in has at least 10 characters and at most 128 bytes, and every other is
-- refused.
pub validate_password_iff :
    (p : Text) → (validate_password p ≡ ok tt) ↔ ((10 ≤ rune_count p) × (length p ≤ 128))
unfolding validate_password
validate_password_iff p = ground arith

-- `ValidateEmail` lets in exactly the strings that have the shape of an address once trimmed and
-- lowercased, and returns that form.
pub validate_email_iff :
    (u : Unicode) (email r : Text)
    → (validate_email u email ≡ ok r) ↔ ((r ≡ to_lower u (trim_space u email)) × IsEmail r)
unfolding validate_email
validate_email_iff u email r =
    let e = to_lower u (trim_space u email) in
    (
      (λ h. let v = check_email_sound e r h in (v.0, subst IsEmail (sym v.0) v.1)),
      (λ (same, v). check_email_complete e (subst IsEmail same v) ∙ ap ok (sym same)),
    )
