-- ===== src/Postgres/Bookings/Refinement.antt =====
-- The repository of internal/adapters/postgres/repos_booking.go beside the store of
-- internal/adapters/memory/bookingstore.go.
use booking_concurrent.Common.{
  Bool, true, false, ◌&&◌, ◌||◌, not, ◌≡◌, ◌⊎◌, refl, sym, ◌∙◌, some, none, List, [], ◌∷◌, ◌++◌,
  Text, text_discrete, arith, ok, err, Result, Error, sentinel, booking_error, seat_already_booked,
  session_already_confirmed, errors_is, sentinel_discrete, ℤ, pos, negsuc, Bool-cases, inl, inr,
}
use booking_concurrent.Common.Trip.{answered}
use booking_concurrent.Common.Dict.{lookup}
use booking_concurrent.Common.Decimal.{IsInt64}
use booking_concurrent.Domain.Booking.{Time, Booking, all_letters}
use booking_concurrent.Domain.Booking.Seats.{IsSeat}
use booking_concurrent.Memory.BookingStore
use booking_concurrent.Memory.BookingStore.{
  BookingStore, record_sale, rows_at, any_confirmed, stamp, booking_key,
}
use booking_concurrent.Postgres.Sql.{DbError, pg_error, unique_violation, IsInt32, int32_of_IsInt32}
use booking_concurrent.Postgres.Bookings.{
  Outside, Faults, Database, exists_confirmed_seat, booking_by_session, is_some, booking_violation,
  booking_row, payload_of, has_event, confirm, insert_booking, commit, queue_event, is_blank,
  confirm_refused, booking_conflict_error, constraint_seat_unique, constraint_session_unique,
}
use booking_concurrent.Postgres.Bookings.Rows.{Agrees, sale-Agrees}

-- Either error by which a caller learns that the sale is not his to make.
abbrev pub is_conflict : Error → Bool
is_conflict e =
    errors_is e (booking_error seat_already_booked)
    || errors_is e (booking_error session_already_confirmed)

-- The same booking, or a conflict on both sides. Which of the two sentinels it is may differ.
pub data SameOutcome : Result Booking → Result Booking → Type 0 where
  same_booking : (b : Booking) → SameOutcome (ok b) (ok b)
  both_refuse :
      (e f : Error) → is_conflict e ≡ true → is_conflict f ≡ true → SameOutcome (err e) (err f)

-- No call fails for want of a connection.
abbrev pub no_faults : Faults
no_faults = record { at_begin = false; at_insert = false; at_outbox = false; at_commit = answered }

IsInt64-of_IsInt32 : (a : ℤ) → IsInt32 a → IsInt64 a
IsInt64-of_IsInt32 (pos n) h = omega arith
IsInt64-of_IsInt32 (negsuc n) h = omega arith

-- The booking under the ids that the columns make of its own.
abbrev pub under_ids : (screening_id user_id : Text) → Booking → Booking
under_ids screening_id user_id b = record b { screening_id = screening_id; user_id = user_id }

booking_row-stamp :
    (o : Outside) (b : Booking) (hall user id : Text) (now : Time)
    → IsInt32 b.seat.number
    → o.columns.uuid b.screening_id ≡ some hall
    → o.columns.uuid b.user_id ≡ some user
    → booking_row o b id now ≡ some (stamp (under_ids hall user b) id now)
booking_row-stamp o b hall user id now fits at_hall of_user =
    ground (arith, int32_of_IsInt32 b.seat.number fits, at_hall, of_user)

not_blank : (s : Text) → all_letters s ≡ true → is_blank s ≡ true → s ≡ []
unfolding all_letters
not_blank [] h e = refl
not_blank (c ∷ s) h e = absurd (ground arith)

seat_refused :
    confirm_refused (pg_error unique_violation constraint_seat_unique)
    ≡ sentinel (booking_error seat_already_booked)
unfolding booking_conflict_error text_discrete
seat_refused = refl

session_refused :
    confirm_refused (pg_error unique_violation constraint_session_unique)
    ≡ sentinel (booking_error session_already_confirmed)
unfolding booking_conflict_error text_discrete
session_refused = refl

seat_refused-is_conflict :
    is_conflict (confirm_refused (pg_error unique_violation constraint_seat_unique)) ≡ true
seat_refused-is_conflict = rw seat_refused (unfold errors_is sentinel_discrete in refl)

session_refused-is_conflict :
    is_conflict (confirm_refused (pg_error unique_violation constraint_session_unique)) ≡ true
session_refused-is_conflict = rw session_refused (unfold errors_is sentinel_discrete in refl)

-- What the constraints say of a row whose seat is valid.
violation_lem :
    (o : Outside) (rows : List Booking) (b : Booking)
    → IsSeat b.seat
    → o.refers b.screening_id b.user_id ≡ true
    → ((booking_violation o rows b ≡ none)
        × (booking_by_session rows b.session_id ≡ none)
        × (exists_confirmed_seat rows b.screening_id b.seat ≡ false))
      ⊎ ((e : DbError) × (booking_violation o rows b ≡ some e)
          × (is_conflict (confirm_refused e) ≡ true)
          × ((is_some (booking_by_session rows b.session_id)
                || exists_confirmed_seat rows b.screening_id b.seat)
              ≡ true))
unfolding booking_violation
violation_lem o rows b seat known =
    let sold = exists_confirmed_seat rows b.screening_id b.seat in
    let again = is_some (booking_by_session rows b.session_id) in
    elim (Bool-cases (sold && (o.seat_first || not again))) [
      | inl taken ↦ inr (
        pg_error unique_violation constraint_seat_unique,
        ground (arith, seat.counted, not_blank b.seat.row seat.letters, seat.some_letter),
        seat_refused-is_conflict,
        ground arith,
      )
      | inr other ↦ elim (Bool-cases again) [
        | inl replay ↦ inr (
          pg_error unique_violation constraint_session_unique,
          ground (arith, seat.counted, not_blank b.seat.row seat.letters, seat.some_letter),
          session_refused-is_conflict,
          ground arith,
        )
        | inr new ↦ inl (
          ground (arith, seat.counted, not_blank b.seat.row seat.letters, seat.some_letter),
          ground arith,
          ground arith,
        )
      ]
    ]

memory_refuses :
    (s : BookingStore) (now : Time) (id : Text) (b : Booking)
    → (is_some (lookup b.session_id s.by_session)
        || any_confirmed (rows_at s.by_seat (booking_key b)))
      ≡ true
    → (e : Error) × (BookingStore.confirm s now id b ≡ (err e, s)) × (is_conflict e ≡ true)
memory_refuses s now id b =
    BookingStore.confirm_cases
      (λ r.
        (is_some (lookup b.session_id s.by_session)
            || any_confirmed (rows_at s.by_seat (booking_key b)))
          ≡ true
        → (e : Error) × (r ≡ (err e, s)) × (is_conflict e ≡ true))
      s now id b
      (λ old e p. (
        sentinel (booking_error session_already_confirmed),
        refl,
        unfold errors_is sentinel_discrete in refl,
      ))
      (λ e c p. (
        sentinel (booking_error seat_already_booked),
        refl,
        unfold errors_is sentinel_discrete in refl,
      ))
      (λ e c p. absurd (ground arith))

memory_sells :
    (s : BookingStore) (now : Time) (id : Text) (b : Booking)
    → lookup b.session_id s.by_session ≡ none
    → any_confirmed (rows_at s.by_seat (booking_key b)) ≡ false
    → BookingStore.confirm s now id b ≡ (ok (stamp b id now), record_sale s (stamp b id now))
unfolding BookingStore.confirm
memory_sells s now id b e c = ground (arith, e, c)

-- What the repository does when nothing fails.
confirm_refused_lem :
    (o : Outside) (db : Database) (now : Time) (id event_id : Text) (b row : Booking) (e : DbError)
    → booking_row o b id now ≡ some row
    → booking_violation o db.bookings row ≡ some e
    → confirm o no_faults db now id event_id b ≡ (err (confirm_refused e), db)
unfolding confirm insert_booking
confirm_refused_lem o db now id event_id b row e read bad =
    rw (read, confirm) (rw (bad, insert_booking) refl)

confirm_sold :
    (o : Outside) (db : Database) (now : Time) (id event_id payload : Text) (b row : Booking)
    → booking_row o b id now ≡ some row
    → booking_violation o db.bookings row ≡ none
    → o.encode (payload_of row) ≡ some payload
    → has_event db.outbox event_id ≡ false
    → (confirm o no_faults db now id event_id b).0 ≡ ok row
      × ((confirm o no_faults db now id event_id b).1.bookings ≡ db.bookings ++ row ∷ [])
unfolding confirm insert_booking queue_event commit
confirm_sold o db now id event_id payload b row read good encoded fresh =
    rw (read, confirm)
      (rw (good, insert_booking) (rw (encoded, queue_event) (rw fresh (refl, refl))))

-- A `Confirm` of the repository that meets no fault is a `Confirm` of the store in memory, given the
-- same id and instant for the sale, and the canonical forms of the two ids, which the columns make of
-- the booking's own: both sell the same booking, or both refuse for a conflict, and afterwards the
-- table and the store tell the same of every session, and of every seat of a screening whose id is in
-- canonical form, as they did before. The ids read as UUIDs, and reading the screening's canonical
-- form gives it again; the two rows are there. The seat is valid and its number fits 32 bits; the
-- event's payload encodes, and its identity is new.
pub confirm-refines :
    (o : Outside) (db : Database) (s : BookingStore) (now : Time) (id event_id payload : Text)
    (b : Booking) (hall user : Text)
    → Agrees o.columns db.bookings s
    → IsSeat b.seat
    → IsInt32 b.seat.number
    → o.columns.uuid b.screening_id ≡ some hall
    → o.columns.uuid hall ≡ some hall
    → o.columns.uuid b.user_id ≡ some user
    → o.refers hall user ≡ true
    → o.encode (payload_of (stamp (under_ids hall user b) id now)) ≡ some payload
    → has_event db.outbox event_id ≡ false
    → SameOutcome
        (confirm o no_faults db now id event_id b).0
        (BookingStore.confirm s now id (under_ids hall user b)).0
      × Agrees o.columns
          (confirm o no_faults db now id event_id b).1.bookings
          (BookingStore.confirm s now id (under_ids hall user b)).1
unfolding BookingStore.seat_confirmed
confirm-refines o db s now id event_id payload b hall user v seat fits at_hall canonical of_user
      known encoded fresh =
    let sale = under_ids hall user b in
    let row = booking_row-stamp o b hall user id now fits at_hall of_user in
    let num = IsInt64-of_IsInt32 b.seat.number fits in
    let at_seat = v.seats hall b.seat seat num canonical in
    let at_session = v.sessions b.session_id in
    elim (violation_lem o db.bookings (stamp sale id now) seat known) [
      | inl (good, new, free) ↦
          let sold =
            confirm_sold o db now id event_id payload b (stamp sale id now) row good encoded
              fresh in
          let sells = memory_sells s now id sale (sym at_session ∙ new) (sym at_seat ∙ free) in
          rw (sold.0, sold.1, sells)
            (
              same_booking (stamp sale id now),
              sale-Agrees o.columns db.bookings s (stamp sale id now) seat num
                  (sym at_session ∙ new) v,
            )
      | inr (e, bad, conflicts, taken) ↦
          let (m, refuses, also) =
            memory_refuses s now id sale (rw (at_session, at_seat) at taken) in
          let stays = confirm_refused_lem o db now id event_id b (stamp sale id now) e row bad in
          rw (stays, refuses) (both_refuse (confirm_refused e) m conflicts also, v)
    ]
