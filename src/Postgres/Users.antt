-- ===== src/Postgres/Users.antt =====
-- `UserRepo` of internal/adapters/postgres/repos_auth.go, over the statements of
-- db/queries/users.sql. A row of `users` is a user: `userFromRow` copies the columns, and a role of
-- the table is one of the two that its check admits.
pub mod Agreement
use booking_concurrent.Common.{
  Bool, true, false, ◌&&◌, ◌||◌, not, List, [], ◌∷◌, ◌++◌, Option, none, some, if◌then◌else◌, Text,
  text_eq, bytes, ◌==◌, Result, ok, err, Error, sentinel, user_error, email_taken, user_not_found,
}
use booking_concurrent.Common.Trip.{Trip, answered, unsent, unanswered}
use booking_concurrent.Domain.Booking.{Time}
use booking_concurrent.Domain.User.{User, Role, customer}
use booking_concurrent.Postgres.Sql.{
  DbError, pg_error, broken, unique_violation, check_violation, is_unique_violation, Columns,
}
use booking_concurrent.Postgres.Bookings.{db_failure, is_blank}

-- `GetUserByEmail`; what the server's `lower` does is a parameter.
unfoldable pub user_by_email : (lower : Text → Text) → List User → Text → Option User
user_by_email lower [] email = none
user_by_email lower (row ∷ rows) email =
    if text_eq (lower row.email) (lower email) then some row else user_by_email lower rows email

-- `GetUserByID`
unfoldable pub user_by_id : List User → Text → Option User
user_by_id [] id = none
user_by_id (row ∷ rows) id = if text_eq row.id id then some row else user_by_id rows id

-- The row that `CreateUser` writes: the role is the column's default, whatever the user's.
abbrev pub user_row : User → Text → Time → User
user_row u id now = record u { id = id; role = customer; created_at = now }

unfoldable pub user_violation : (lower : Text → Text) → List User → User → Option DbError
user_violation lower rows u = elim (user_by_id rows u.id) [
  | some _ ↦ some (pg_error unique_violation (bytes "users_pkey"))
  | none ↦ elim (user_by_email lower rows u.email) [
    | some _ ↦ some (pg_error unique_violation (bytes "users_email_unique"))
    | none ↦ none
  ]
]

-- What stops the insertion; a blank address is refused before the indexes are looked at.
unfoldable pub insert_violation : (lower : Text → Text) → List User → User → Option DbError
insert_violation lower rows u =
    if is_blank u.email
    then some (pg_error check_violation (bytes "users_email_nonempty"))
    else user_violation lower rows u

abbrev pub create_refused : DbError → Error
create_refused e =
    if is_unique_violation e
    then sentinel (user_error email_taken)
    else db_failure (bytes "user: create: %w")

unfoldable pub create :
    (lower : Text → Text) → Trip → List User → Text → Time → User → Result User × List User
create lower trip rows id now u =
    let row = user_row u id now in
    elim trip [
      | unsent ↦ (err (create_refused broken), rows)
      | unanswered ↦ elim (insert_violation lower rows row) [
        | some e ↦ (err (create_refused broken), rows)
        | none ↦ (err (create_refused broken), rows ++ row ∷ [])
      ]
      | answered ↦ elim (insert_violation lower rows row) [
        | some e ↦ (err (create_refused e), rows)
        | none ↦ (ok row, rows ++ row ∷ [])
      ]
    ]

abbrev pub found_user : Text → Bool → Option User → Result User
found_user what true row = err (db_failure what)
found_user what false none = err (sentinel (user_error user_not_found))
found_user what false (some row) = ok row

unfoldable pub get_by_email : (lower : Text → Text) → Bool → List User → Text → Result User
get_by_email lower down rows email =
    found_user (bytes "user: get by email: %w") down (user_by_email lower rows email)

-- A text that no UUID column reads is an error of the statement, not a missing row.
unfoldable pub get_by_id : Columns → Bool → List User → Text → Result User
get_by_id c down rows id = elim (c.uuid id) [
  | none ↦ err (db_failure (bytes "user: get by id: %w"))
  | some canonical ↦ found_user (bytes "user: get by id: %w") down (user_by_id rows canonical)
]
