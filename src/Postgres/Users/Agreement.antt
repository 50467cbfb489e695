-- ===== src/Postgres/Users/Agreement.antt =====
-- `UserRepo` of internal/adapters/postgres/repos_auth.go beside the store of
-- internal/adapters/memory/userstore.go.
use booking_concurrent.Common.{
  false, ◌≡◌, refl, none, some, Option, List, [], ◌∷◌, ◌++◌, Text, text_eq, text_eq_refl,
  text_discrete, bytes, arith, ok, err, sentinel, user_error, email_taken, if◌then◌else◌,
  Bool-cases, Option-cases, inl, inr,
}
use booking_concurrent.Common.Trip.{answered}
use booking_concurrent.Common.Dict.{lookup, lookup-insert}
use booking_concurrent.Domain.Booking.{Time, Unicode, to_lower}
use booking_concurrent.Domain.User.{User, customer}
use booking_concurrent.Memory.UserStore
use booking_concurrent.Memory.UserStore.{UserStore, complete, store}
use booking_concurrent.Postgres.Sql.{pg_error, unique_violation, is_unique_violation}
use booking_concurrent.Postgres.Bookings.{is_blank}
use booking_concurrent.Postgres.Users.{
  user_by_email, user_by_id, user_row, user_violation, insert_violation, create_refused, create,
}

-- The account that the store in memory has for an address.
abbrev pub account_of : UserStore → Option Text → Option User
account_of s none = none
account_of s (some id) = lookup id s.by_id

-- The table and the store know the same accounts, by address and by id.
pub record Agrees (un : Unicode) (rows : List User) (s : UserStore) : Type 0 where
  pub emails :
      (email : Text)
      → user_by_email (to_lower un) rows email
        ≡ account_of s (lookup (to_lower un email) s.by_email)
  pub ids : (id : Text) → user_by_id rows id ≡ lookup id s.by_id
  -- No address points at an account that is not there.
  pub known :
      (key id : Text) → lookup key s.by_email ≡ some id → (u : User) × (lookup id s.by_id ≡ some u)

by_email-append :
    (lower : Text → Text) (rows : List User) (u : User) (email : Text)
    → user_by_email lower rows u.email ≡ none
    → user_by_email lower (rows ++ u ∷ []) email
      ≡ (if text_eq (lower u.email) (lower email) then some u else user_by_email lower rows email)
unfolding user_by_email
by_email-append lower [] u email e = ground arith
by_email-append lower (row ∷ rows) u email e = ground (arith, by_email-append lower rows u email)

by_id-append :
    (rows : List User) (u : User) (id : Text)
    → user_by_id rows u.id ≡ none
    → user_by_id (rows ++ u ∷ []) id ≡ (if text_eq u.id id then some u else user_by_id rows id)
unfolding user_by_id
by_id-append [] u id e = ground arith
by_id-append (row ∷ rows) u id e = ground (arith, by_id-append rows u id)

-- Where an address leads once an account is stored: to it, or where it led before.
account_of-store :
    (un : Unicode) (rows : List User) (s : UserStore) (u : User) (key : Text)
    → user_by_id rows u.id ≡ none
    → Agrees un rows s
    → account_of
        (store s (to_lower un u.email) u)
        (lookup key (store s (to_lower un u.email) u).by_email)
      ≡ (if text_eq (to_lower un u.email) key then some u else account_of s (lookup key s.by_email))
unfolding store
account_of-store un rows s u key new v =
    rw (lookup-insert (to_lower un u.email) key u.id s.by_email)
      (elim (Bool-cases (text_eq (to_lower un u.email) key)) [
        | inl same ↦ rw same (ground (arith, lookup-insert u.id u.id u s.by_id, text_eq_refl u.id))
        | inr other ↦ rw other (elim (Option-cases (lookup key s.by_email)) [
          | inl none' ↦ rw none' refl
          | inr (id, e) ↦
              rw e (ground (arith, lookup-insert u.id id u s.by_id, v.known key id e, v.ids u.id))
        ])
      ])

store-known :
    (un : Unicode) (rows : List User) (s : UserStore) (u : User) (key id : Text)
    → Agrees un rows s
    → lookup key (store s (to_lower un u.email) u).by_email ≡ some id
    → (x : User) × (lookup id (store s (to_lower un u.email) u).by_id ≡ some x)
unfolding store
store-known un rows s u key id v e = elim (Bool-cases (text_eq u.id id)) [
  | inl same ↦ (u, ground (arith, lookup-insert u.id id u s.by_id))
  | inr other ↦
      let before : lookup key s.by_email ≡ some id =
        ground
          (arith, lookup-insert (to_lower un u.email) key u.id s.by_email, text_eq_refl u.id) in
      let (x, there) = v.known key id before in (x, ground (arith, lookup-insert u.id id u s.by_id))
]

store-Agrees :
    (un : Unicode) (rows : List User) (s : UserStore) (u : User)
    → user_by_id rows u.id ≡ none
    → user_by_email (to_lower un) rows u.email ≡ none
    → Agrees un rows s
    → Agrees un (rows ++ u ∷ []) (store s (to_lower un u.email) u)
store-Agrees un rows s u new free v = record {
  emails = λ e. ground (
    arith,
    by_email-append (to_lower un) rows u e free,
    v.emails e,
    account_of-store un rows s u (to_lower un e) new v,
  );
  ids = λ id.
      unfold store in
      ground (arith, by_id-append rows u id new, v.ids id, lookup-insert u.id id u s.by_id);
  known = λ key id e. store-known un rows s u key id v e;
}

email_refused :
    create_refused (pg_error unique_violation (bytes "users_email_unique"))
    ≡ sentinel (user_error email_taken)
unfolding is_unique_violation text_discrete
email_refused = refl

create_taken :
    (lower : Text → Text) (rows : List User) (id : Text) (now : Time) (u x : User)
    → user_by_id rows id ≡ none
    → is_blank u.email ≡ false
    → user_by_email lower rows u.email ≡ some x
    → create lower answered rows id now u ≡ (err (sentinel (user_error email_taken)), rows)
unfolding create insert_violation user_violation
create_taken lower rows id now u x new address found = ground (arith, email_refused)

create_free :
    (lower : Text → Text) (rows : List User) (id : Text) (now : Time) (u : User)
    → user_by_id rows id ≡ none
    → is_blank u.email ≡ false
    → user_by_email lower rows u.email ≡ none
    → create lower answered rows id now u ≡ (ok (user_row u id now), rows ++ user_row u id now ∷ [])
unfolding create insert_violation user_violation
create_free lower rows id now u new address free = ground arith

-- A registration of the repository is one of the store in memory, where both fold the case of an
-- address in the same way: both add the same account, or both say that the address is taken, and
-- afterwards both know the same accounts. The id is new, and the account leaves it, the role and the
-- time to the store, as a registration does.
pub create-refines :
    (un : Unicode) (rows : List User) (s : UserStore) (id : Text) (now : Time) (u : User)
    → Agrees un rows s
    → user_by_id rows id ≡ none
    → is_blank u.email ≡ false
    → u.id ≡ []
    → u.role ≡ customer
    → u.created_at ≡ 0
    → ((create (to_lower un) answered rows id now u).0 ≡ (UserStore.create un s id now u).0)
      × Agrees un (create (to_lower un) answered rows id now u).1 (UserStore.create un s id now u).1
create-refines un rows s id now u v new address no_id role no_time =
    let same : user_row u id now ≡ complete u id now = ground arith in
    UserStore.create_cases
      (λ r.
        ((create (to_lower un) answered rows id now u).0 ≡ r.0)
        × Agrees un (create (to_lower un) answered rows id now u).1 r.1)
      un s id now u
      (λ old taken.
        let (x, there) = v.known (to_lower un u.email) old taken in
        let found : user_by_email (to_lower un) rows u.email ≡ some x =
          ground (arith, v.emails u.email) in
        rw (create_taken (to_lower un) rows id now u x new address found) (refl, v))
      (λ free.
        let missing : user_by_email (to_lower un) rows u.email ≡ none =
          ground (arith, v.emails u.email) in
        rw (create_free (to_lower un) rows id now u new address missing, same)
          (refl, store-Agrees un rows s (complete u id now) (ground arith) missing v))
