-- ===== src/Postgres/Tokens/Failures.antt =====
-- `Rotate` of internal/adapters/postgres/repos_auth.go where calls of the database fail.
use booking_concurrent.Common.{List, Text, err, Result, Bool-cases, Option-cases, inl, inr}
use booking_concurrent.Common.Trip.{Trip, answered, unsent, unanswered}
use booking_concurrent.Domain.Booking.{Time}
use booking_concurrent.Domain.User.{RefreshToken, is_expired, reuse_is_theft}
use booking_concurrent.Postgres.Bookings.{db_failure}
use booking_concurrent.Postgres.Sql.{Columns}
use booking_concurrent.Postgres.Tokens.{
  Faults, token_by_hash, is_taken, commit, punish, replace, succeed, successor, rotate,
}
use booking_concurrent.Postgres.Tokens.Agreement.{no_faults}

-- What may come of a call that would have come to `whole`: just that, or a failure that has left the
-- rows as they were, or as the whole call leaves them.
pub data Outcome (rows : List RefreshToken) (whole : Result RefreshToken × List RefreshToken)
    : Result RefreshToken × List RefreshToken → Type 0 where
  as_planned : Outcome rows whole whole
  undone : (what : Text) → Outcome rows whole (err (db_failure what), rows)
  unheard : (what : Text) → Outcome rows whole (err (db_failure what), whole.1)

commit-Outcome :
    (trip : Trip) (rows new : List RefreshToken) (what : Text) (done : Result RefreshToken)
    → Outcome rows (done, new) (commit trip rows new (db_failure what) done)
unfolding commit
commit-Outcome answered rows new what done = as_planned
commit-Outcome unsent rows new what done = undone what
commit-Outcome unanswered rows new what done = unheard what

punish-Outcome :
    (f : Faults) (rows : List RefreshToken) (at : Time) (old : RefreshToken)
    → Outcome rows (punish no_faults rows at old) (punish f rows at old)
unfolding punish commit
punish-Outcome f rows at old = elim (Bool-cases f.at_revoke) [
  | inl e ↦ rw e (undone _)
  | inr e ↦ rw e (commit-Outcome f.at_commit rows _ _ _)
]

replace-Outcome :
    (c : Columns) (f : Faults) (rows : List RefreshToken) (old row : RefreshToken)
    → Outcome rows (replace c no_faults rows old row) (replace c f rows old row)
unfolding replace commit
replace-Outcome c f rows old row = elim (Bool-cases (is_taken rows row.id row.token_hash)) [
  | inl taken ↦ rw taken as_planned
  | inr free ↦ rw free (elim (Option-cases (c.parsed row.id)) [
    | inl bad ↦ rw bad as_planned
    | inr (id, good) ↦ rw good (elim (Bool-cases f.at_mark) [
      | inl lost ↦ rw lost (undone _)
      | inr kept ↦ rw kept (commit-Outcome f.at_commit rows _ _ _)
    ])
  ])
]

succeed-Outcome :
    (c : Columns) (f : Faults) (rows : List RefreshToken) (at : Time) (old next : RefreshToken)
    → Outcome rows (succeed c no_faults rows at old next) (succeed c f rows at old next)
unfolding succeed
succeed-Outcome c f rows at old next = elim (Bool-cases f.at_insert) [
  | inl e ↦ rw e (undone _)
  | inr e ↦ rw e (elim (Option-cases (successor c old next at)) [
    | inl bad ↦ rw bad as_planned
    | inr (row, good) ↦ rw good (replace-Outcome c f rows old row)
  ])
]

-- Wherever the database fails, a rotation is whole or nothing: it comes to what it would have come
-- to, or it fails and the tokens are as before, or as the whole rotation leaves them. A revocation
-- for theft is no exception.
pub rotate-Outcome :
    (c : Columns) (f : Faults) (rows : List RefreshToken) (now at : Time) (h : Text)
    (next : RefreshToken)
    → Outcome rows (rotate c no_faults rows now at h next) (rotate c f rows now at h next)
unfolding rotate
rotate-Outcome c f rows now at h next = elim (Bool-cases f.at_begin) [
  | inl e ↦ rw e (undone _)
  | inr e ↦ rw e (elim (Bool-cases f.at_lock) [
    | inl e' ↦ rw e' (undone _)
    | inr e' ↦ rw e' (elim (Option-cases (token_by_hash rows h)) [
      | inl unknown ↦ rw unknown as_planned
      | inr (old, found) ↦ rw found (elim (Bool-cases (reuse_is_theft old)) [
        | inl stolen ↦ rw stolen (punish-Outcome f rows at old)
        | inr fine ↦ rw fine (elim (Bool-cases (is_expired old now)) [
          | inl late ↦ rw late as_planned
          | inr live ↦ rw live (succeed-Outcome c f rows at old next)
        ])
      ])
    ])
  ])
]
