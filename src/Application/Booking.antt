-- ===== src/Application/Booking.antt =====
-- internal/application/booking/service.go.
use booking_concurrent.Common.{
  ◌+◌, Bool, true, false, ◌||◌, not, List, [], map, if◌then◌else◌, Text, text_eq, bytes, Result, ok,
  err, Error, sentinel, booking_error, payment_error, message, wrap, errors_is, seat_out_of_range,
  seat_already_booked, session_already_confirmed, booking_not_found, not_hold_owner, hold_expired,
  payment_not_captured,
}
use booking_concurrent.Common.Proc.{
  ret, bind, request, when◌take◌otherwise◌, ◌>>=◌, ◌>>◌, reject_if, wrapping,
}
use booking_concurrent.Domain.Booking.{
  Time, Seat, SeatStatus, Hold, Booking, Status, is_confirmed, validate, can_be_confirmed,
}
use booking_concurrent.Domain.Movie.{Screening, has_seat, all_seats}
use booking_concurrent.Domain.Movie.Grid.{contains}
use booking_concurrent.Application.Ports.{
  Action, ask_time, ask_uuid, screening_get, hold_claim, hold_get, hold_release, hold_seats,
  booking_confirm, booking_get, seat_confirmed, confirmed_seats, payment_captured,
}

pub record ConfirmResult : Type 0 where
  pub booking : Booking
  pub created : Bool

pub record SeatState : Type 0 where
  pub seat : Seat
  pub status : SeatStatus

pub record SeatMapView : Type 0 where
  pub screening : Screening
  pub seats : List SeatState

-- The end of `Hold`, from the outcome of `Validate` on.
unfoldable pub claim : Hold → Result (Unit {0}) → Action Hold
claim h (err e) = ret (err (wrap (bytes "booking: hold: %w") e))
claim h (ok _) = do request (hold_claim h); ret (ok h)

-- `Hold`; the service's field `holdTTL` comes first.
unfoldable pub hold : Time → Text → Text → Seat → Action Hold
unfolding claim
hold hold_ttl user_id screening_id seat = do
  screening ← request (screening_get screening_id)
  reject_if (not (has_seat screening seat)) (sentinel (booking_error seat_out_of_range))
  confirmed ←
      wrapping (wrap (bytes "booking: hold: seat check: %w"))
        (request (seat_confirmed screening_id seat))
  reject_if confirmed (sentinel (booking_error seat_already_booked))
  t ← ask_time
  session_id ← ask_uuid
  hold_token ← ask_uuid
  let h : Hold = record {
    session_id = session_id;
    screening_id = screening_id;
    seat = seat;
    user_id = user_id;
    hold_token = hold_token;
    expires_at = t + hold_ttl;
  }
  claim h (validate h t)

-- The booking that `Confirm` asks the store for: identity and time are still to be assigned.
abbrev pub draft : Hold → Booking
draft h = record {
  id = [];
  session_id = h.session_id;
  screening_id = h.screening_id;
  seat = h.seat;
  user_id = h.user_id;
  status = Status.confirmed;
  confirmed_at = 0;
}

-- What `recoverConflict` makes of the session's own row.
unfoldable pub recovered : Error → Text → Result Booking → Action ConfirmResult
recovered conflict user_id (err e) =
    when errors_is e (booking_error booking_not_found)
    take ret (err conflict)
    otherwise ret (err (wrap (bytes "booking: confirm: conflict recovery: %w") e))
recovered conflict user_id (ok b) =
    when not (text_eq b.user_id user_id)
    take ret (err (message (bytes "booking: confirm: ownership invariant violated")))
    otherwise when is_confirmed b.status
    take ret (ok (record { booking = b; created = false }))
    otherwise ret (err conflict)

unfoldable pub recover_conflict : Error → Text → Text → Action ConfirmResult
unfolding recovered
recover_conflict conflict user_id session_id =
    bind (request (booking_get session_id)) (recovered conflict user_id)

-- `cleanupHold`: a failure is logged and dropped.
unfoldable pub cleanup_hold : Text → Text → Action (Unit {0})
cleanup_hold session_id user_id =
    bind (request (hold_release session_id user_id)) (λ _. ret (ok tt))

-- The rest of `Confirm`, from the reply of the booking store on.
unfoldable pub finish : Text → Text → Result Booking → Action ConfirmResult
unfolding cleanup_hold recover_conflict
finish user_id session_id (ok created) = do
  cleanup_hold session_id user_id
  ret (ok (record { booking = created; created = true }))
finish user_id session_id (err e) =
    when errors_is e (booking_error seat_already_booked)
      || errors_is e (booking_error session_already_confirmed)
    take recover_conflict e user_id session_id
    otherwise ret (err e)

unfoldable pub confirm : Text → Text → Action ConfirmResult
unfolding finish
confirm user_id session_id = do
  h ← request (hold_get session_id)
  reject_if (not (text_eq h.user_id user_id)) (sentinel (booking_error not_hold_owner))
  t ← ask_time
  reject_if (not (can_be_confirmed h t)) (sentinel (booking_error hold_expired))
  captured ←
      wrapping (wrap (bytes "booking: confirm: payment gate: %w"))
        (request (payment_captured session_id))
  reject_if (not captured) (sentinel (payment_error payment_not_captured))
  bind (request (booking_confirm (draft h))) (finish user_id session_id)

unfoldable pub release : Text → Text → Action (Unit {0})
release user_id session_id = request (hold_release session_id user_id)

-- The switch of `SeatMap`.
unfoldable pub seat_state : List Seat → List Seat → Seat → SeatState
seat_state booked held seat = record {
  seat = seat;
  status =
      if contains seat booked
      then SeatStatus.booked
      else if contains seat held
      then SeatStatus.held
      else SeatStatus.available;
}

unfoldable pub seat_map : Text → Action SeatMapView
unfolding seat_state
seat_map screening_id = do
  screening ← request (screening_get screening_id)
  booked ←
      wrapping (wrap (bytes "booking: seat map: confirmed seats: %w"))
        (request (confirmed_seats screening_id))
  held ←
      wrapping (wrap (bytes "booking: seat map: held seats: %w"))
        (request (hold_seats screening_id))
  ret (
      ok (record {
        screening = screening;
        seats = map (seat_state booked held) (all_seats screening);
      }))
