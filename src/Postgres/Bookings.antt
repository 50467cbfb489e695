-- ===== src/Postgres/Bookings.antt =====
-- internal/adapters/postgres/repos_booking.go, over the statements of db/queries/bookings.sql and
-- db/queries/outbox.sql. A row of `confirmed_bookings` is a booking: `bookingFromRow` copies the
-- columns, and a status of the table is one of the two that its check admits. A transaction that
-- meets another's uncommitted row of the same key waits for its end, so that a `Confirm` is one step.
pub mod Outbox
pub mod Races
pub mod Rows
pub mod Refinement
use booking_concurrent.Common.{
  ℕ, Bool, true, false, ◌&&◌, ◌||◌, not, List, [], ◌∷◌, ◌++◌, Option, none, some, if◌then◌else◌,
  Text, text_eq, bytes, ℤ, pos, int_lt, int_eq, Result, ok, err, Error, sentinel, message, wrap,
  booking_error, seat_already_booked, session_already_confirmed, booking_not_found, ◌==◌, ◌≡◌,
  Bool-cases, Option-cases, inl, inr,
}
use booking_concurrent.Common.Trip.{Trip, answered, unsent, unanswered}
use booking_concurrent.Domain.Booking.{Time, Seat, Booking, Status, is_confirmed}
use booking_concurrent.Postgres.Sql.{
  DbError, no_rows, pg_error, broken, unique_violation, check_violation, foreign_key_violation,
  invalid_text, int32, Columns,
}

abbrev pub constraint_seat_unique : Text
constraint_seat_unique = bytes "confirmed_bookings_seat_unique"

abbrev pub constraint_session_unique : Text
constraint_session_unique = bytes "confirmed_bookings_session_unique"

abbrev pub booking_confirmed_event_type : Text
booking_confirmed_event_type = bytes "BookingConfirmed"

pub record BookingConfirmedPayload : Type 0 where
  pub booking_id : Text
  pub session_id : Text
  pub screening_id : Text
  pub row : Text
  pub number : ℤ
  pub user_id : Text
  pub confirmed_at : Time

pub record OutboxEvent : Type 0 where
  pub event_id : Text
  pub event_type : Text
  pub payload : Text

pub record Database : Type 0 where
  pub bookings : List Booking
  pub outbox : List OutboxEvent

-- What is not code of the repository: how a column of type UUID reads a text, `json.Marshal` of a
-- payload, which rows of other tables a booking may refer to, which of two violated indexes the server
-- names, and how its collation sorts.
pub record Outside : Type 0 where
  pub columns : Columns
  pub encode : BookingConfirmedPayload → Option Text
  pub refers : (screening_id user_id : Text) → Bool
  pub seat_first : Bool
  pub order_by_row_number : List Seat → List Seat

abbrev pub is_blank : Text → Bool
is_blank [] = true
is_blank (c ∷ s) = c == 32 && is_blank s

abbrev pub same_seat : Text → Seat → Booking → Bool
same_seat screening_id seat b =
    text_eq b.screening_id screening_id
    && (text_eq b.seat.row seat.row && int_eq b.seat.number seat.number)

-- A row of the partial index `confirmed_bookings_seat_unique`.
unfoldable pub exists_confirmed_seat : List Booking → Text → Seat → Bool
exists_confirmed_seat [] screening_id seat = false
exists_confirmed_seat (b ∷ bs) screening_id seat =
    (same_seat screening_id seat b && is_confirmed b.status)
    || exists_confirmed_seat bs screening_id seat

-- A row of the index `confirmed_bookings_session_unique`, and the row itself.
unfoldable pub booking_by_session : List Booking → Text → Option Booking
booking_by_session [] session_id = none
booking_by_session (b ∷ bs) session_id =
    if text_eq b.session_id session_id then some b else booking_by_session bs session_id

abbrev pub is_some {ℓ} : {A : Type ℓ} → Option A → Bool
is_some none = false
is_some (some _) = true

-- The constraint that stops the insertion of a row, if one does.
unfoldable pub booking_violation : Outside → List Booking → Booking → Option DbError
booking_violation o rows b =
    let seat = exists_confirmed_seat rows b.screening_id b.seat in
    let session = is_some (booking_by_session rows b.session_id) in
    if int_lt b.seat.number (pos 1) || is_blank b.seat.row
    then some (pg_error check_violation (bytes "confirmed_bookings_seat_valid"))
    else if seat && (o.seat_first || not session)
    then some (pg_error unique_violation constraint_seat_unique)
    else if session
    then some (pg_error unique_violation constraint_session_unique)
    else if not (o.refers b.screening_id b.user_id)
    then some (pg_error foreign_key_violation [])
    else none

-- The row that `InsertConfirmedBooking` writes, if both ids read as UUIDs: the columns keep them in
-- canonical form, and the database sets the rest.
abbrev pub booking_row : Outside → Booking → Text → Time → Option Booking
booking_row o b id now = elim (o.columns.uuid b.screening_id) [
  | none ↦ none
  | some screening_id ↦ elim (o.columns.uuid b.user_id) [
    | none ↦ none
    | some user_id ↦ some (record {
      id = id;
      session_id = b.session_id;
      screening_id = screening_id;
      seat = record { row = b.seat.row; number = int32 b.seat.number };
      user_id = user_id;
      status = Status.confirmed;
      confirmed_at = now;
    })
  ]
]

abbrev pub payload_of : Booking → BookingConfirmedPayload
payload_of row = record {
  booking_id = row.id;
  session_id = row.session_id;
  screening_id = row.screening_id;
  row = row.seat.row;
  number = row.seat.number;
  user_id = row.user_id;
  confirmed_at = row.confirmed_at;
}

abbrev pub event_of : Text → Text → OutboxEvent
event_of event_id payload = record {
  event_id = event_id;
  event_type = booking_confirmed_event_type;
  payload = payload;
}

unfoldable pub has_event : List OutboxEvent → Text → Bool
has_event [] event_id = false
has_event (e ∷ es) event_id = text_eq e.event_id event_id || has_event es event_id

-- `bookingConflictError`: the sentinel of the index, or none.
unfoldable pub booking_conflict_error : DbError → Option Error
booking_conflict_error no_rows = none
booking_conflict_error broken = none
booking_conflict_error (pg_error code constraint) =
    if not (text_eq code unique_violation)
    then none
    else if text_eq constraint constraint_seat_unique
    then some (sentinel (booking_error seat_already_booked))
    else if text_eq constraint constraint_session_unique
    then some (sentinel (booking_error session_already_confirmed))
    else none

-- `fmt.Errorf` of an error of the driver, which no code branches on.
abbrev pub db_failure : Text → Error
db_failure what = wrap what (message (bytes "database error"))

abbrev pub confirm_refused : DbError → Error
confirm_refused e = elim (booking_conflict_error e) [
  | some conflict ↦ conflict
  | none ↦ db_failure (bytes "booking: confirm: insert: %w")
]

-- Which calls of a `Confirm` fail for want of a connection.
pub record Faults : Type 0 where
  pub at_begin : Bool
  pub at_insert : Bool
  pub at_outbox : Bool
  pub at_commit : Trip

-- `tx.Commit`. A commit whose answer is lost has been done.
unfoldable pub commit : Trip → Database → Database → Booking → Result Booking × Database
commit answered old new row = (ok row, new)
commit unsent old new row = (err (db_failure (bytes "booking: confirm: commit: %w")), old)
commit unanswered old new row = (err (db_failure (bytes "booking: confirm: commit: %w")), new)

-- From the row on: the event, and the commit.
unfoldable pub queue_event :
    Faults → Database → Text → Booking → Option Text → Result Booking × Database
queue_event f db event_id row none =
    (err (db_failure (bytes "booking: confirm: encode outbox payload: %w")), db)
queue_event f db event_id row (some payload) =
    if f.at_outbox || has_event db.outbox event_id
    then (err (db_failure (bytes "booking: confirm: outbox: %w")), db)
    else commit f.at_commit db
        (record {
          bookings = db.bookings ++ row ∷ [];
          outbox = db.outbox ++ event_of event_id payload ∷ [];
        })
        row

-- The insertion of a row, and what follows it.
unfoldable pub insert_booking :
    Outside → Faults → Database → Text → Booking → Result Booking × Database
insert_booking o f db event_id row = elim (booking_violation o db.bookings row) [
  | some e ↦ (err (confirm_refused e), db)
  | none ↦ queue_event f db event_id row (o.encode (payload_of row))
]

-- `Confirm`: every way out but the commit rolls back.
unfoldable pub confirm :
    Outside
    → Faults
    → Database
    → (now : Time) → (id event_id : Text) → Booking
    → Result Booking × Database
confirm o f db now id event_id b =
    if f.at_begin
    then (err (db_failure (bytes "booking: confirm: begin: %w")), db)
    else if f.at_insert
    then (err (confirm_refused broken), db)
    else elim (booking_row o b id now) [
      | none ↦ (err (confirm_refused (pg_error invalid_text [])), db)
      | some row ↦ insert_booking o f db event_id row
    ]

unfoldable pub get_by_session : Bool → Database → Text → Result Booking
get_by_session down db session_id =
    if down
    then err (db_failure (bytes "booking: get by session: %w"))
    else elim (booking_by_session db.bookings session_id) [
      | none ↦ err (sentinel (booking_error booking_not_found))
      | some row ↦ ok row
    ]

unfoldable pub seat_confirmed : Outside → Bool → Database → Text → Seat → Result Bool
seat_confirmed o down db screening_id seat =
    if down
    then err (db_failure (bytes "booking: seat confirmed: %w"))
    else elim (o.columns.uuid screening_id) [
      | none ↦ err (db_failure (bytes "booking: seat confirmed: %w"))
      | some id ↦ ok (
          exists_confirmed_seat db.bookings id
            (record { row = seat.row; number = int32 seat.number }))
    ]

-- The rows of `ListConfirmedSeatsByScreening`, before `ORDER BY`.
unfoldable pub confirmed_seats_of : List Booking → Text → List Seat
confirmed_seats_of [] screening_id = []
confirmed_seats_of (b ∷ bs) screening_id =
    let rest = confirmed_seats_of bs screening_id in
    if text_eq b.screening_id screening_id && is_confirmed b.status then b.seat ∷ rest else rest

unfoldable pub confirmed_seats : Outside → Bool → Database → Text → Result (List Seat)
confirmed_seats o down db screening_id =
    if down
    then err (db_failure (bytes "booking: confirmed seats: %w"))
    else elim (o.columns.uuid screening_id) [
      | none ↦ err (db_failure (bytes "booking: confirmed seats: %w"))
      | some id ↦ ok (o.order_by_row_number (confirmed_seats_of db.bookings id))
    ]

-- The branches of `Confirm`, for a property of the result and the new state.
pub confirm_cases {ℓ} :
    (P : Result Booking × Database → Type ℓ) (o : Outside) (f : Faults) (db : Database) (now : Time)
    (id event_id : Text) (b : Booking)
    → ((e : Error) → P (err e, db))
    → ((row : Booking) (payload : Text)
        → booking_violation o db.bookings row ≡ none
        → o.encode (payload_of row) ≡ some payload
        → P (
            commit f.at_commit db
              (record {
                bookings = db.bookings ++ row ∷ [];
                outbox = db.outbox ++ event_of event_id payload ∷ [];
              })
              row))
    → P (confirm o f db now id event_id b)
unfolding confirm insert_booking queue_event
confirm_cases P o f db now id event_id b broke done = elim (Bool-cases f.at_begin) [
  | inl e ↦ rw (e, confirm) (broke _)
  | inr e ↦
      rw (e, confirm)
        (elim (Bool-cases f.at_insert) [
          | inl e' ↦ rw e' (broke _)
          | inr e' ↦ rw e' (elim (Option-cases (booking_row o b id now)) [
            | inl bad ↦ rw bad (broke _)
            | inr (row, read) ↦
                rw (read, confirm, insert_booking)
                  (elim (Option-cases (booking_violation o db.bookings row)) [
                    | inr (d, bad) ↦ rw (bad, insert_booking) (broke _)
                    | inl good ↦
                        rw (good, insert_booking)
                          (elim (Option-cases (o.encode (payload_of row))) [
                            | inl none' ↦ rw (none', queue_event) (broke _)
                            | inr (payload, c) ↦
                                rw (c, queue_event)
                                  (elim (Bool-cases (f.at_outbox || has_event db.outbox event_id)) [
                                    | inl out ↦ rw out (broke _)
                                    | inr go ↦ rw go (done row payload good c)
                                  ])
                          ])
                  ])
          ])
        ])
]
