-- ===== src/Postgres/Bookings/Races.antt =====
-- Any number of calls of `Confirm` of internal/adapters/postgres/repos_booking.go, in the order in
-- which their transactions end, with what fails in each.
use booking_concurrent.Common.{
  ℕ, ◌+◌, ◌≤◌, ◌≡◌, true, false, ◌&&◌, none, List, [], ◌∷◌, ◌++◌, Text, text_eq, arith,
  if◌then◌else◌, refl,
}
use booking_concurrent.Domain.Booking.{Time, Seat, Booking, is_confirmed}
use booking_concurrent.Postgres.Bookings.Outbox.{commit_either}
use booking_concurrent.Postgres.Bookings.{
  Outside, Faults, Database, same_seat, exists_confirmed_seat, booking_by_session, is_some,
  booking_violation, confirm, confirm_cases,
}

unfoldable pub seat_count : Text → Seat → List Booking → ℕ
seat_count screening_id seat [] = 0
seat_count screening_id seat (b ∷ bs) =
    (if same_seat screening_id seat b && is_confirmed b.status then 1 else 0)
    + seat_count screening_id seat bs

unfoldable pub session_count : Text → List Booking → ℕ
session_count session_id [] = 0
session_count session_id (b ∷ bs) =
    (if text_eq b.session_id session_id then 1 else 0) + session_count session_id bs

pub record Attempt : Type 0 where
  pub faults : Faults
  pub now : Time
  pub id : Text
  pub event_id : Text
  pub row : Booking

-- The database after the attempts.
unfoldable pub after : Outside → Database → List Attempt → Database
after o db [] = db
after o db (a ∷ rest) = after o (confirm o a.faults db a.now a.id a.event_id a.row).1 rest

-- No seat is sold twice, and no session has two rows.
pub record IsSold (rows : List Booking) : Type 0 where
  pub seats : (screening_id : Text) (seat : Seat) → seat_count screening_id seat rows ≤ 1
  pub sessions : (session_id : Text) → session_count session_id rows ≤ 1

seat_count-append :
    (sc : Text) (seat : Seat) (rows : List Booking) (b : Booking)
    → seat_count sc seat (rows ++ b ∷ [])
      ≡ seat_count sc seat rows + (if same_seat sc seat b && is_confirmed b.status then 1 else 0)
unfolding seat_count
seat_count-append sc seat [] b = ground arith
seat_count-append sc seat (x ∷ rows) b = ground (arith, seat_count-append sc seat rows b)

session_count-append :
    (sid : Text) (rows : List Booking) (b : Booking)
    → session_count sid (rows ++ b ∷ [])
      ≡ session_count sid rows + (if text_eq b.session_id sid then 1 else 0)
unfolding session_count
session_count-append sid [] b = ground arith
session_count-append sid (x ∷ rows) b = ground (arith, session_count-append sid rows b)

seat_count-free :
    (sc : Text) (seat : Seat) (rows : List Booking)
    → exists_confirmed_seat rows sc seat ≡ false
    → seat_count sc seat rows ≡ 0
unfolding seat_count exists_confirmed_seat
seat_count-free sc seat [] e = refl
seat_count-free sc seat (x ∷ rows) e = ground (arith, seat_count-free sc seat rows)

session_count-new :
    (sid : Text) (rows : List Booking)
    → is_some (booking_by_session rows sid) ≡ false
    → session_count sid rows ≡ 0
unfolding session_count booking_by_session
session_count-new sid [] e = refl
session_count-new sid (x ∷ rows) e = ground (arith, session_count-new sid rows)

-- A row that violates nothing has a free seat and a new session.
free_row :
    (o : Outside) (rows : List Booking) (b : Booking)
    → booking_violation o rows b ≡ none
    → (exists_confirmed_seat rows b.screening_id b.seat ≡ false)
      × (is_some (booking_by_session rows b.session_id) ≡ false)
unfolding booking_violation
free_row o rows b e = ground arith

-- Two names of one seat count the same rows.
seat_count-same :
    (sc : Text) (seat : Seat) (b : Booking) (rows : List Booking)
    → same_seat sc seat b ≡ true
    → seat_count sc seat rows ≡ seat_count b.screening_id b.seat rows
unfolding seat_count
seat_count-same sc seat b [] e = refl
seat_count-same sc seat b (x ∷ rows) e = ground (arith, seat_count-same sc seat b rows)

sale-IsSold :
    (o : Outside) (rows : List Booking) (b : Booking)
    → booking_violation o rows b ≡ none
    → IsSold rows
    → IsSold (rows ++ b ∷ [])
sale-IsSold o rows b e v = record {
  seats = λ sc seat. ground (
    arith,
    v.seats sc seat,
    seat_count-append sc seat rows b,
    seat_count-same sc seat b rows,
    seat_count-free b.screening_id b.seat rows (free_row o rows b e).0,
  );
  sessions = λ sid. ground (
    arith,
    v.sessions sid,
    session_count-append sid rows b,
    session_count-new b.session_id rows (free_row o rows b e).1,
  );
}

confirm-IsSold :
    (o : Outside) (f : Faults) (db : Database) (now : Time) (id event_id : Text) (b : Booking)
    → IsSold db.bookings
    → IsSold (confirm o f db now id event_id b).1.bookings
confirm-IsSold o f db now id event_id b v =
    confirm_cases (λ r. IsSold r.1.bookings) o f db now id event_id b (λ _. v)
      (λ row payload free _.
        commit_either (λ x. IsSold x.bookings) f.at_commit db _ row v
          (sale-IsSold o db.bookings row free v))

-- However many confirms are made, in whatever order their transactions end, and whatever fails in
-- each: no seat of a screening has two confirmed rows and no session has two rows, if none had.
pub after-IsSold :
    (o : Outside) (db : Database) (attempts : List Attempt)
    → IsSold db.bookings
    → IsSold (after o db attempts).bookings
unfolding after
after-IsSold o db [] v = v
after-IsSold o db (a ∷ rest) v =
    after-IsSold o (confirm o a.faults db a.now a.id a.event_id a.row).1 rest
      (confirm-IsSold o a.faults db a.now a.id a.event_id a.row v)
