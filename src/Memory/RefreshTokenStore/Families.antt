-- ===== src/Memory/RefreshTokenStore/Families.antt =====
-- The families of refresh tokens: which of their tokens are live.
use booking_concurrent.Common.{
  ◌≡◌, refl, inl, inr, true, false, Option, none, some, [], ◌∷◌, arith, Text, text_eq, err,
  if◌then◌else◌, Option-cases, sentinel, user_error, refresh_token_reused,
}
use booking_concurrent.Common.Dict.{lookup, insert, lookup-insert}
use booking_concurrent.Domain.Booking.{Time}
use booking_concurrent.Domain.User.{RefreshToken, is_revoked, reuse_is_theft}
use booking_concurrent.Memory.RefreshTokenStore.{
  RefreshTokenStore, create, revoke_row, revoke_family, succeed, replace, rotate, rotate_cases,
}

-- Two tokens of one family that are neither replaced nor revoked are one token.
abbrev pub IsLinear : RefreshTokenStore → Type 0
IsLinear s =
    (a b : Text) (p q : RefreshToken)
    → lookup a s ≡ some p
    → lookup b s ≡ some q
    → reuse_is_theft p ≡ false
    → reuse_is_theft q ≡ false
    → p.family_id ≡ q.family_id
    → a ≡ b

-- Every token of the family has been revoked.
abbrev pub IsClosed : Text → RefreshTokenStore → Type 0
IsClosed family_id s =
    (a : Text) (p : RefreshToken)
    → lookup a s ≡ some p
    → p.family_id ≡ family_id
    → is_revoked p ≡ true

abbrev pub revoked_in : Text → Time → Option RefreshToken → Option RefreshToken
revoked_in family_id now none = none
revoked_in family_id now (some p) = some (revoke_row family_id now p)

pub lookup-revoke_family :
    (s : RefreshTokenStore) (now : Time) (f a : Text)
    → lookup a (revoke_family s now f) ≡ revoked_in f now (lookup a s)
unfolding revoke_family lookup
lookup-revoke_family [] now f a = refl
lookup-revoke_family ((k, row) ∷ s) now f a = ground (arith, lookup-revoke_family s now f a)

pub lookup-replace :
    (s : RefreshTokenStore) (h : Text) (old next : RefreshToken) (a : Text)
    → lookup a (replace s h old next) ≡ (
        if text_eq next.token_hash a
        then some (succeed old next)
        else if text_eq h a
        then some (record old { replaced_by = next.id })
        else lookup a s)
unfolding replace
lookup-replace s h old next a = ground (
  arith,
  lookup-insert next.token_hash a (succeed old next)
      (insert h (record old { replaced_by = next.id }) s),
  lookup-insert h a (record old { replaced_by = next.id }) s,
)

-- `RevokeFamily` closes the family, whatever it held, and revokes no token of another.
pub revoke_family-IsClosed :
    (s : RefreshTokenStore) (now : Time) (f : Text) → IsClosed f (revoke_family s now f)
unfolding revoke_row
revoke_family-IsClosed s now f a p e same = elim (Option-cases (lookup a s)) [
  | inl n ↦ absurd (ground (arith, lookup-revoke_family s now f a))
  | inr (q, n) ↦ ground (arith, lookup-revoke_family s now f a)
]

revoke_family-IsLinear :
    (s : RefreshTokenStore) (now : Time) (f : Text) → IsLinear s → IsLinear (revoke_family s now f)
unfolding revoke_row
revoke_family-IsLinear s now f v a b p q ea eb lp lq same = elim (Option-cases (lookup a s)) [
  | inl n ↦ absurd (ground (arith, lookup-revoke_family s now f a))
  | inr (p', n) ↦ elim (Option-cases (lookup b s)) [
    | inl m ↦ absurd (ground (arith, lookup-revoke_family s now f b))
    | inr (q', m) ↦
        ground (arith, lookup-revoke_family s now f a, lookup-revoke_family s now f b, v a b p' q')
  ]
]

replace-IsLinear :
    (s : RefreshTokenStore) (h : Text) (old next : RefreshToken)
    → lookup h s ≡ some old
    → reuse_is_theft old ≡ false
    → text_eq next.id [] ≡ false
    → IsLinear s
    → IsLinear (replace s h old next)
replace-IsLinear s h old next found live named v a b p q ea eb lp lq same = ground (
  arith,
  lookup-replace s h old next a,
  lookup-replace s h old next b,
  v a b p q,
  v a h p old,
  v b h q old,
)

pub create-IsLinear :
    (s : RefreshTokenStore) (t : RefreshToken)
    → IsClosed t.family_id s
    → IsLinear s
    → IsLinear (create s t).1
unfolding create
create-IsLinear s t fresh v a b p q ea eb lp lq same = ground (
  arith,
  lookup-insert t.token_hash a t s,
  lookup-insert t.token_hash b t s,
  v a b p q,
  fresh a p,
  fresh b q,
)

-- `Rotate` keeps at most one live token in each family, on every branch, where the successor has
-- an id.
pub rotate-IsLinear :
    (s : RefreshTokenStore) (now : Time) (h : Text) (next : RefreshToken)
    → text_eq next.id [] ≡ false
    → IsLinear s
    → IsLinear (rotate s now h next).1
rotate-IsLinear s now h next named v =
    rotate_cases (λ r. IsLinear r.1) s now h next (λ _. v)
      (λ old _ _. revoke_family-IsLinear s now old.family_id v) (λ _ _ _ _. v)
      (λ old found live _. replace-IsLinear s h old next found live named v)

pub revoke_family_keeps-IsClosed :
    (s : RefreshTokenStore) (now : Time) (g f : Text)
    → IsClosed f s
    → IsClosed f (revoke_family s now g)
unfolding revoke_row
revoke_family_keeps-IsClosed s now g f v a p e same = elim (Option-cases (lookup a s)) [
  | inl n ↦ absurd (ground (arith, lookup-revoke_family s now g a))
  | inr (q, n) ↦ ground (arith, lookup-revoke_family s now g a, v a q)
]

replace-IsClosed :
    (s : RefreshTokenStore) (h : Text) (old next : RefreshToken) (f : Text)
    → lookup h s ≡ some old
    → reuse_is_theft old ≡ false
    → IsClosed f s
    → IsClosed f (replace s h old next)
replace-IsClosed s h old next f found live v a p e same =
    ground (arith, lookup-replace s h old next a, v a p, v h old)

pub rotate-IsClosed :
    (s : RefreshTokenStore) (now : Time) (h : Text) (next : RefreshToken) (f : Text)
    → IsClosed f s
    → IsClosed f (rotate s now h next).1
rotate-IsClosed s now h next f v =
    rotate_cases (λ r. IsClosed f r.1) s now h next (λ _. v)
      (λ old _ _. revoke_family_keeps-IsClosed s now old.family_id f v) (λ _ _ _ _. v)
      (λ old found live _. replace-IsClosed s h old next f found live v)

-- Presenting a token that is replaced or revoked, expired or not, makes `Rotate` report reuse, and
-- leaves every token of its family revoked.
pub theft_closes :
    (s : RefreshTokenStore) (now : Time) (h : Text) (next old : RefreshToken)
    → lookup h s ≡ some old
    → reuse_is_theft old ≡ true
    → ((rotate s now h next).0 ≡ err (sentinel (user_error refresh_token_reused)))
      × IsClosed old.family_id (rotate s now h next).1
theft_closes s now h next old found stolen =
    rotate_cases
      (λ r. (r.0 ≡ err (sentinel (user_error refresh_token_reused))) × IsClosed old.family_id r.1) s
      now h next (λ e. absurd cc)
      (λ row e _. (
        refl,
        λ a p found_p same. revoke_family-IsClosed s now row.family_id a p found_p (ground arith),
      ))
      (λ row e t _. absurd (ground arith)) (λ row e t _. absurd (ground arith))
