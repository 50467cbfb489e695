-- ===== src/Memory/RefreshTokenStore.antt =====
-- internal/adapters/memory/refreshtokenstore.go: the ledger of sessions.
pub mod Families
pub mod Rotations
use booking_concurrent.Common.{
  Bool, true, false, ◌&&◌, ◌||◌, not, List, [], ◌∷◌, Option, none, some, if◌then◌else◌, Text,
  text_eq, Result, ok, err, sentinel, user_error, refresh_token_unknown, refresh_token_expired,
  refresh_token_reused, Bool-cases, Option-cases, inl, inr, ◌≡◌,
}
use booking_concurrent.Common.Dict.{Dict, lookup, insert}
use booking_concurrent.Domain.Booking.{Time}
use booking_concurrent.Domain.User.{RefreshToken, is_expired, is_revoked, reuse_is_theft}

-- `byHash`. The pointers in the map are not shared: each is stored under one hash and never given
-- out.
abbrev pub RefreshTokenStore : Type 0
RefreshTokenStore = Dict RefreshToken

unfoldable pub create : RefreshTokenStore → RefreshToken → Result RefreshToken × RefreshTokenStore
create s t = (ok t, insert t.token_hash t s)

unfoldable pub get_by_hash : RefreshTokenStore → Text → Result RefreshToken
get_by_hash s token_hash = elim (lookup token_hash s) [
  | none ↦ err (sentinel (user_error refresh_token_unknown))
  | some row ↦ ok row
]

unfoldable pub revoke_row : Text → Time → RefreshToken → RefreshToken
revoke_row family_id now row =
    if text_eq row.family_id family_id && not (is_revoked row)
    then record row { revoked_at = some now }
    else row

-- `revokeFamilyLocked`
unfoldable pub revoke_family : RefreshTokenStore → Time → Text → RefreshTokenStore
revoke_family [] now family_id = []
revoke_family ((k, row) ∷ s) now family_id =
    (k, revoke_row family_id now row) ∷ revoke_family s now family_id

-- The successor, with the identity of the row that it replaces.
abbrev pub succeed : RefreshToken → RefreshToken → RefreshToken
succeed old next = record next { user_id = old.user_id; family_id = old.family_id }

-- What `Rotate` writes for an active token. The old row is marked through its pointer: had the
-- successor its hash, the mark would be lost with the row, as it is here.
unfoldable pub replace : RefreshTokenStore → Text → RefreshToken → RefreshToken → RefreshTokenStore
replace s token_hash old next =
    insert next.token_hash (succeed old next)
      (insert token_hash (record old { replaced_by = next.id }) s)

unfoldable pub rotate :
    RefreshTokenStore → Time → Text → RefreshToken → Result RefreshToken × RefreshTokenStore
rotate s now token_hash next = elim (lookup token_hash s) [
  | none ↦ (err (sentinel (user_error refresh_token_unknown)), s)
  | some old ↦
      if reuse_is_theft old
      then (err (sentinel (user_error refresh_token_reused)), revoke_family s now old.family_id)
      else if is_expired old now
      then (err (sentinel (user_error refresh_token_expired)), s)
      else (ok (succeed old next), replace s token_hash old next)
]

-- The branches of `Rotate`, for a property of the result and the new store.
pub rotate_cases {ℓ} :
    (P : Result RefreshToken × RefreshTokenStore → Type ℓ) (s : RefreshTokenStore) (now : Time)
    (token_hash : Text) (next : RefreshToken)
    → (lookup token_hash s ≡ none → P (err (sentinel (user_error refresh_token_unknown)), s))
    → ((old : RefreshToken)
        → lookup token_hash s ≡ some old
        → reuse_is_theft old ≡ true
        → P (err (sentinel (user_error refresh_token_reused)), revoke_family s now old.family_id))
    → ((old : RefreshToken)
        → lookup token_hash s ≡ some old
        → reuse_is_theft old ≡ false
        → is_expired old now ≡ true
        → P (err (sentinel (user_error refresh_token_expired)), s))
    → ((old : RefreshToken)
        → lookup token_hash s ≡ some old
        → reuse_is_theft old ≡ false
        → is_expired old now ≡ false
        → P (ok (succeed old next), replace s token_hash old next))
    → P (rotate s now token_hash next)
unfolding rotate
rotate_cases P s now token_hash next unknown stolen expired active =
    elim (Option-cases (lookup token_hash s)) [
      | inl e ↦ rw (e, rotate) (unknown e)
      | inr (old, e) ↦
          rw (e, rotate)
            (elim (Bool-cases (reuse_is_theft old)) [
              | inl t ↦ rw t (stolen old e t)
              | inr t ↦ rw t (elim (Bool-cases (is_expired old now)) [
                | inl x ↦ rw x (expired old e t x)
                | inr x ↦ rw x (active old e t x)
              ])
            ])
    ]
