-- ===== src/Postgres/Bookings/Rows.antt =====
-- The rows of internal/adapters/postgres/repos_booking.go beside the entries of
-- internal/adapters/memory/bookingstore.go.
use booking_concurrent.Common.{
  ◌&&◌, ◌||◌, ◌≡◌, some, none, List, [], ◌∷◌, ◌++◌, Text, text_eq, arith, int_eq, if◌then◌else◌,
}
use booking_concurrent.Common.Dict.{lookup, lookup-insert}
use booking_concurrent.Common.Decimal.{IsInt64}
use booking_concurrent.Domain.Booking.{Seat, Booking, is_confirmed}
use booking_concurrent.Domain.Booking.Seats.{IsSeat}
use booking_concurrent.Memory.SeatKey.{seat_key}
use booking_concurrent.Memory.SeatKey.Codec.{seat_key-injective}
use booking_concurrent.Memory.BookingStore
use booking_concurrent.Memory.BookingStore.{
  BookingStore, record_sale, rows_at, any_confirmed, stamp, booking_key,
}
use booking_concurrent.Postgres.Sql.{Columns}
use booking_concurrent.Postgres.Bookings.{
  same_seat, exists_confirmed_seat, booking_by_session, is_some,
}

-- The table and the store tell the same of every session, and of every seat of a screening whose id is
-- a UUID in canonical form, as the column keeps it.
pub record Agrees (c : Columns) (rows : List Booking) (s : BookingStore) : Type 0 where
  pub sessions :
      (session_id : Text) → booking_by_session rows session_id ≡ lookup session_id s.by_session
  pub seats :
      (screening_id : Text) (seat : Seat)
      → IsSeat seat
      → IsInt64 seat.number
      → c.uuid screening_id ≡ some screening_id
      → exists_confirmed_seat rows screening_id seat
        ≡ BookingStore.seat_confirmed s screening_id seat

same_seat-key :
    (a b : Text) (s t : Seat)
    → IsSeat s
    → IsSeat t
    → IsInt64 s.number
    → IsInt64 t.number
    → text_eq (seat_key a s) (seat_key b t)
      ≡ (text_eq a b && (text_eq s.row t.row && int_eq s.number t.number))
same_seat-key a b s t vs vt rs rt = ground (arith, seat_key-injective a b s t vs vt rs rt)

by_session-append :
    (rows : List Booking) (b : Booking) (sid : Text)
    → booking_by_session (rows ++ b ∷ []) sid ≡ (
        if is_some (booking_by_session rows sid)
        then booking_by_session rows sid
        else (if text_eq b.session_id sid then some b else none))
unfolding booking_by_session
by_session-append [] b sid = ground arith
by_session-append (x ∷ rows) b sid = ground (arith, by_session-append rows b sid)

exists-append :
    (rows : List Booking) (b : Booking) (screening_id : Text) (seat : Seat)
    → exists_confirmed_seat (rows ++ b ∷ []) screening_id seat ≡ (
        exists_confirmed_seat rows screening_id seat
        || (same_seat screening_id seat b && is_confirmed b.status))
unfolding exists_confirmed_seat
exists-append [] b sc seat = ground arith
exists-append (x ∷ rows) b sc seat = ground (arith, exists-append rows b sc seat)

any_confirmed-append :
    (rows : List Booking) (b : Booking)
    → any_confirmed (rows ++ b ∷ []) ≡ (any_confirmed rows || is_confirmed b.status)
unfolding any_confirmed
any_confirmed-append [] b = ground arith
any_confirmed-append (x ∷ rows) b = ground (arith, any_confirmed-append rows b)

pub sale-Agrees :
    (c : Columns) (rows : List Booking) (s : BookingStore) (b : Booking)
    → IsSeat b.seat
    → IsInt64 b.seat.number
    → lookup b.session_id s.by_session ≡ none
    → Agrees c rows s
    → Agrees c (rows ++ b ∷ []) (record_sale s b)
unfolding record_sale BookingStore.seat_confirmed
sale-Agrees c rows s b seat num fresh v = record {
  sessions = λ sid. ground (
    arith,
    by_session-append rows b sid,
    v.sessions sid,
    lookup-insert b.session_id sid b s.by_session,
  );
  seats = λ sc x vx rx canonical. ground (
    arith,
    exists-append rows b sc x,
    v.seats sc x vx rx canonical,
    same_seat-key b.screening_id sc b.seat x seat vx num rx,
    any_confirmed-append (rows_at s.by_seat (booking_key b)) b,
    lookup-insert (booking_key b) (seat_key sc x) (rows_at s.by_seat (booking_key b) ++ b ∷ [])
        s.by_seat,
  );
}
