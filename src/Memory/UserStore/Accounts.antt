-- ===== src/Memory/UserStore/Accounts.antt =====
-- The two maps of the user store, and what a registration does to them.
use booking_concurrent.Common.{
  ◌≡◌, ◌≢◌, refl, inl, inr, none, some, arith, Text, text_eq, ok, err, Option-cases, Bool-cases,
  sentinel, user_error, email_taken,
}
use booking_concurrent.Common.Dict.{lookup, insert, lookup-insert}
use booking_concurrent.Domain.Booking.{Time, Unicode, to_lower}
use booking_concurrent.Domain.User.{User}
use booking_concurrent.Memory.UserStore.{
  UserStore, new_user_store, complete, store, create, get_by_email, get_by_id, create_cases,
}

-- Each address that is filed leads to an account with that address, and each account is filed.
pub record IsSound (un : Unicode) (s : UserStore) : Type 0 where
  pub found :
      (key id : Text)
      → lookup key s.by_email ≡ some id
      → (u : User) × (lookup id s.by_id ≡ some u) × (to_lower un u.email ≡ key)
  pub filed :
      (id : Text) (u : User)
      → lookup id s.by_id ≡ some u
      → lookup (to_lower un u.email) s.by_email ≡ some id

pub new-IsSound : (un : Unicode) → IsSound un new_user_store
unfolding new_user_store lookup
new-IsSound un = record { found = λ key id e. absurd cc; filed = λ id u e. cc }

stored_found :
    (un : Unicode) (s : UserStore) (u : User)
    → lookup u.id s.by_id ≡ none
    → IsSound un s
    → (key id : Text) → lookup key (store s (to_lower un u.email) u).by_email ≡ some id
    → (w : User) × (lookup id (store s (to_lower un u.email) u).by_id ≡ some w)
      × (to_lower un w.email ≡ key)
unfolding store
stored_found un s u fresh v key id e = elim (Bool-cases (text_eq (to_lower un u.email) key)) [
  | inl new ↦ (
    u,
    ground (
      arith,
      lookup-insert (to_lower un u.email) key u.id s.by_email,
      lookup-insert u.id id u s.by_id,
    ),
    ground arith,
  )
  | inr old ↦
      let known : lookup key s.by_email ≡ some id =
        ground (arith, lookup-insert (to_lower un u.email) key u.id s.by_email) in
      let (w, at, same) = v.found key id known in
      (w, ground (arith, lookup-insert u.id id u s.by_id), same)
]

store-IsSound :
    (un : Unicode) (s : UserStore) (u : User)
    → lookup u.id s.by_id ≡ none
    → lookup (to_lower un u.email) s.by_email ≡ none
    → IsSound un s
    → IsSound un (store s (to_lower un u.email) u)
unfolding store
store-IsSound un s u fresh free v = record {
  found = λ key id e. stored_found un s u fresh v key id e;
  filed = λ id w e. ground (
    arith,
    lookup-insert u.id id u s.by_id,
    lookup-insert (to_lower un u.email) (to_lower un w.email) u.id s.by_email,
    v.filed id w,
  );
}

-- A registration, granted or refused, keeps the store sound where the new id is not in use.
pub create-IsSound :
    (un : Unicode) (s : UserStore) (id : Text) (now : Time) (u : User)
    → lookup (complete u id now).id s.by_id ≡ none
    → IsSound un s
    → IsSound un (create un s id now u).1
create-IsSound un s id now u fresh v =
    create_cases (λ r. IsSound un r.1) un s id now u (λ _ _. v)
      (λ free. store-IsSound un s (complete u id now) fresh free v)

-- In a sound store no lookup by address panics.
pub get_by_email_returns :
    (un : Unicode) (s : UserStore) (email : Text) → IsSound un s → get_by_email un s email ≢ none
unfolding get_by_email
get_by_email_returns un s email v h = elim (Option-cases (lookup (to_lower un email) s.by_email)) [
  | inl e ↦ ground arith
  | inr (id, e) ↦ let (u, at, same) = v.found (to_lower un email) id e in ground arith
]

-- A registration succeeds where no account has the address in any case; then both lookups find the
-- account, also by the address in another case, and a registration of it in any case is refused.
pub create_visible :
    (un : Unicode) (s : UserStore) (id : Text) (now : Time) (u : User) (email : Text) (other : User)
    (later_id : Text) (later : Time)
    → lookup (to_lower un u.email) s.by_email ≡ none
    → to_lower un email ≡ to_lower un u.email
    → to_lower un other.email ≡ to_lower un u.email
    → ((create un s id now u).0 ≡ ok (complete u id now))
      × (get_by_email un (create un s id now u).1 email ≡ some (ok (complete u id now)))
      × (get_by_id (create un s id now u).1 (complete u id now).id ≡ ok (complete u id now))
      × ((create un (create un s id now u).1 later_id later other).0
          ≡ err (sentinel (user_error email_taken)))
create_visible un s id now u email other later_id later free same again =
    create_cases
      (λ r.
        (r.0 ≡ ok (complete u id now))
        × (get_by_email un r.1 email ≡ some (ok (complete u id now)))
        × (get_by_id r.1 (complete u id now).id ≡ ok (complete u id now))
        × ((create un r.1 later_id later other).0 ≡ err (sentinel (user_error email_taken))))
      un s id now u (λ old e. absurd cc)
      (λ _. (
        refl,
        unfold store get_by_email in ground (arith, by_email, by_id),
        unfold store get_by_id in ground (arith, by_id),
        unfold store create in ground (arith, by_email),
      ))
  where
    by_email :
        lookup
          (to_lower un u.email)
          (insert (to_lower un u.email) (complete u id now).id s.by_email)
        ≡ some (complete u id now).id
    by_email = ground (
      arith,
      lookup-insert (to_lower un u.email) (to_lower un u.email) (complete u id now).id s.by_email,
    )

    by_id :
        lookup (complete u id now).id (insert (complete u id now).id (complete u id now) s.by_id)
        ≡ some (complete u id now)
    by_id = ground (
      arith,
      lookup-insert (complete u id now).id (complete u id now).id (complete u id now) s.by_id,
    )
