-- ===== src/Memory/UserStore.antt =====
-- internal/adapters/memory/userstore.go.
pub mod Accounts
use booking_concurrent.Common.{
  ℕ, Bool, true, false, ◌==◌, [], ◌∷◌, Option, none, some, if◌then◌else◌, Text, text_eq, Result, ok,
  err, sentinel, user_error, email_taken, user_not_found, Option-cases, inl, inr, ◌≡◌,
}
use booking_concurrent.Common.Dict.{Dict, lookup, insert}
use booking_concurrent.Domain.Booking.{Time, Unicode, to_lower}
use booking_concurrent.Domain.User.{User}

pub record UserStore : Type 0 where
  pub by_id : Dict User
  pub by_email : Dict Text

unfoldable pub new_user_store : UserStore
new_user_store = record { by_id = []; by_email = [] }

-- The id and the time of the new account, where the caller has left them zero.
abbrev pub complete : User → Text → Time → User
complete u id now = record u {
  id = if text_eq u.id [] then id else u.id;
  created_at = if u.created_at == 0 then now else u.created_at;
}

unfoldable pub store : UserStore → Text → User → UserStore
store s key u = record { by_id = insert u.id u s.by_id; by_email = insert key u.id s.by_email }

unfoldable pub create : Unicode → UserStore → Text → Time → User → Result User × UserStore
create un s id now u = elim (lookup (to_lower un u.email) s.by_email) [
  | some _ ↦ (err (sentinel (user_error email_taken)), s)
  | none ↦ (ok (complete u id now), store s (to_lower un u.email) (complete u id now))
]

-- `none` is the panic on `*s.byID[id]` where the map has no such id.
unfoldable pub get_by_email : Unicode → UserStore → Text → Option (Result User)
get_by_email un s email = elim (lookup (to_lower un email) s.by_email) [
  | none ↦ some (err (sentinel (user_error user_not_found)))
  | some id ↦ elim (lookup id s.by_id) [ none ↦ none | some u ↦ some (ok u) ]
]

unfoldable pub get_by_id : UserStore → Text → Result User
get_by_id s id = elim (lookup id s.by_id) [
  | none ↦ err (sentinel (user_error user_not_found))
  | some u ↦ ok u
]

pub create_cases {ℓ} :
    (P : Result User × UserStore → Type ℓ) (un : Unicode) (s : UserStore) (id : Text) (now : Time)
    (u : User)
    → ((old : Text)
        → lookup (to_lower un u.email) s.by_email ≡ some old
        → P (err (sentinel (user_error email_taken)), s))
    → (lookup (to_lower un u.email) s.by_email ≡ none
        → P (ok (complete u id now), store s (to_lower un u.email) (complete u id now)))
    → P (create un s id now u)
unfolding create
create_cases P un s id now u taken free =
    elim (Option-cases (lookup (to_lower un u.email) s.by_email)) [
      | inl e ↦ rw (e, create) (free e)
      | inr (old, e) ↦ rw (e, create) (taken old e)
    ]
