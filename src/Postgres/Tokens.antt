-- ===== src/Postgres/Tokens.antt =====
-- `RefreshTokenRepo` of internal/adapters/postgres/repos_auth.go, over the statements of
-- db/queries/refresh_tokens.sql. A row of `refresh_tokens` is a token: `refreshTokenFromRow` copies
-- the columns, a NULL `replaced_by` being the empty string and a NULL `revoked_at` no time. The row
-- lock of `Rotate` makes rotations of one token wait for each other, so that each is one step.
pub mod Agreement
pub mod Failures
use booking_concurrent.Common.{
  Bool, true, false, ◌&&◌, ◌||◌, not, List, [], ◌∷◌, ◌++◌, Option, none, some, if◌then◌else◌, Text,
  text_eq, bytes, Result, ok, err, Error, sentinel, user_error, refresh_token_unknown,
  refresh_token_expired, refresh_token_reused,
}
use booking_concurrent.Common.Trip.{Trip, answered, unsent, unanswered}
use booking_concurrent.Domain.Booking.{Time}
use booking_concurrent.Domain.User.{RefreshToken, is_expired, is_revoked, reuse_is_theft}
use booking_concurrent.Postgres.Sql.{Columns}
use booking_concurrent.Postgres.Bookings.{db_failure}

-- `GetRefreshTokenByHash` and `GetRefreshTokenByHashForUpdate`
unfoldable pub token_by_hash : List RefreshToken → Text → Option RefreshToken
token_by_hash [] token_hash = none
token_by_hash (row ∷ rows) token_hash =
    if text_eq row.token_hash token_hash then some row else token_by_hash rows token_hash

-- A row of the primary key, or of `refresh_tokens_hash_unique`.
unfoldable pub is_taken : List RefreshToken → (id token_hash : Text) → Bool
is_taken [] id token_hash = false
is_taken (row ∷ rows) id token_hash =
    text_eq row.id id || (text_eq row.token_hash token_hash || is_taken rows id token_hash)

-- What is in the columns of a new row that has an identity, a user and a family already.
abbrev pub new_row : Columns → RefreshToken → Time → RefreshToken
new_row c t at = record t {
  expires_at = c.instant t.expires_at;
  created_at = at;
  revoked_at = none;
  replaced_by = [];
}

-- The row that `CreateRefreshToken` writes at the server's time, if its identities are UUIDs.
unfoldable pub token_row : Columns → RefreshToken → Time → Option RefreshToken
token_row c t at = elim (c.uuid t.id) [
  | none ↦ none
  | some id ↦ elim (c.uuid t.user_id) [
    | none ↦ none
    | some user_id ↦ elim (c.uuid t.family_id) [
      | none ↦ none
      | some family_id ↦
          some (new_row c (record t { id = id; user_id = user_id; family_id = family_id }) at)
    ]
  ]
]

-- `RevokeRefreshTokenFamily`
unfoldable pub revoke_rows : List RefreshToken → Time → Text → List RefreshToken
revoke_rows [] at family_id = []
revoke_rows (row ∷ rows) at family_id =
    (if text_eq row.family_id family_id && not (is_revoked row)
      then record row { revoked_at = some at }
      else row)
    ∷ revoke_rows rows at family_id

-- `MarkRefreshTokenReplaced`
unfoldable pub mark_replaced : List RefreshToken → (id replaced_by : Text) → List RefreshToken
mark_replaced [] id replaced_by = []
mark_replaced (row ∷ rows) id replaced_by =
    (if text_eq row.id id then record row { replaced_by = replaced_by } else row)
    ∷ mark_replaced rows id replaced_by

-- The row that an insertion adds, if nothing stops it.
unfoldable pub inserted :
    (known_user : Bool) → Columns → List RefreshToken → Time → RefreshToken → Option RefreshToken
inserted known_user c rows at t = elim (token_row c t at) [
  | none ↦ none
  | some row ↦ if is_taken rows row.id row.token_hash || not known_user then none else some row
]

unfoldable pub create :
    (known_user : Bool)
    → Columns
    → Trip
    → List RefreshToken
    → Time
    → RefreshToken
    → Result RefreshToken × List RefreshToken
create known_user c trip rows at t = elim (inserted known_user c rows at t) [
  | none ↦ (err (db_failure (bytes "refresh token: create: %w")), rows)
  | some row ↦ elim trip [
    | unsent ↦ (err (db_failure (bytes "refresh token: create: %w")), rows)
    | unanswered ↦ (err (db_failure (bytes "refresh token: create: %w")), rows ++ row ∷ [])
    | answered ↦ (ok row, rows ++ row ∷ [])
  ]
]

unfoldable pub get_by_hash : Bool → List RefreshToken → Text → Result RefreshToken
get_by_hash down rows token_hash =
    if down
    then err (db_failure (bytes "refresh token: get: %w"))
    else elim (token_by_hash rows token_hash) [
      | none ↦ err (sentinel (user_error refresh_token_unknown))
      | some row ↦ ok row
    ]

unfoldable pub revoke_family :
    Columns → Trip → List RefreshToken → Time → Text → Result (Unit {0}) × List RefreshToken
revoke_family c trip rows at family_id = elim (c.uuid family_id) [
  | none ↦ (err (db_failure (bytes "refresh token: revoke family: %w")), rows)
  | some family ↦ elim trip [
    | unsent ↦ (err (db_failure (bytes "refresh token: revoke family: %w")), rows)
    | unanswered ↦
        (err (db_failure (bytes "refresh token: revoke family: %w")), revoke_rows rows at family)
    | answered ↦ (ok tt, revoke_rows rows at family)
  ]
]

-- Which calls of a `Rotate` fail for want of a connection.
pub record Faults : Type 0 where
  pub at_begin : Bool
  pub at_lock : Bool
  pub at_revoke : Bool
  pub at_insert : Bool
  pub at_mark : Bool
  pub at_commit : Trip

-- `tx.Commit`, after which the answer is `done`.
unfoldable pub commit :
    Trip
    → List RefreshToken
    → List RefreshToken
    → Error
    → Result RefreshToken
    → Result RefreshToken × List RefreshToken
commit answered old new lost done = (done, new)
commit unsent old new lost done = (err lost, old)
commit unanswered old new lost done = (err lost, new)

-- The theft branch: its revocation is committed.
unfoldable pub punish :
    Faults → List RefreshToken → Time → RefreshToken → Result RefreshToken × List RefreshToken
punish f rows at old =
    if f.at_revoke
    then (err (db_failure (bytes "refresh token: rotate: revoke family: %w")), rows)
    else commit f.at_commit rows (revoke_rows rows at old.family_id)
        (db_failure (bytes "refresh token: rotate: commit revocation: %w"))
        (err (sentinel (user_error refresh_token_reused)))

-- The successor's row, with the user and the family of the row that is locked, which are sent back as
-- they came from the columns.
unfoldable pub successor : Columns → RefreshToken → RefreshToken → Time → Option RefreshToken
successor c old next at = elim (c.uuid next.id) [
  | none ↦ none
  | some id ↦
      some
        (new_row c (record next { id = id; user_id = old.user_id; family_id = old.family_id }) at)
]

-- From the successor's row on: the mark of the old one, and the commit.
unfoldable pub replace :
    Columns
    → Faults
    → List RefreshToken
    → RefreshToken
    → RefreshToken
    → Result RefreshToken × List RefreshToken
replace c f rows old row =
    if is_taken rows row.id row.token_hash
    then (err (db_failure (bytes "refresh token: rotate: insert successor: %w")), rows)
    else elim (c.parsed row.id) [
      | none ↦ (err (db_failure (bytes "refresh token: rotate: %w")), rows)
      | some replaced_by ↦
          if f.at_mark
          then (err (db_failure (bytes "refresh token: rotate: mark replaced: %w")), rows)
          else commit f.at_commit rows (mark_replaced (rows ++ row ∷ []) old.id replaced_by)
              (db_failure (bytes "refresh token: rotate: commit: %w")) (ok row)
    ]

-- The branch of an active token.
unfoldable pub succeed :
    Columns
    → Faults
    → List RefreshToken
    → (at : Time) → RefreshToken
    → RefreshToken
    → Result RefreshToken × List RefreshToken
succeed c f rows at old next =
    if f.at_insert
    then (err (db_failure (bytes "refresh token: rotate: insert successor: %w")), rows)
    else elim (successor c old next at) [
      | none ↦ (err (db_failure (bytes "refresh token: rotate: insert successor: %w")), rows)
      | some row ↦ replace c f rows old row
    ]

-- `Rotate`, at the process's time `now` and the server's time `at`.
unfoldable pub rotate :
    Columns
    → Faults
    → List RefreshToken
    → (now at : Time) → Text
    → RefreshToken
    → Result RefreshToken × List RefreshToken
rotate c f rows now at token_hash next =
    if f.at_begin
    then (err (db_failure (bytes "refresh token: rotate: begin: %w")), rows)
    else if f.at_lock
    then (err (db_failure (bytes "refresh token: rotate: lock: %w")), rows)
    else elim (token_by_hash rows token_hash) [
      | none ↦ (err (sentinel (user_error refresh_token_unknown)), rows)
      | some old ↦
          if reuse_is_theft old
          then punish f rows at old
          else if is_expired old now
          then (err (sentinel (user_error refresh_token_expired)), rows)
          else succeed c f rows at old next
    ]
