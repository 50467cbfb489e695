-- ===== src/Http.antt =====
-- internal/adapters/http: the handlers of the booking and payment routes, from the request that the
-- router and the auth middleware have taken apart to the response.
pub mod Writers
pub mod Payments
pub mod Accounts
pub mod Catalog
pub mod Probing
use booking_concurrent.Common.{
  ℕ, Bool, true, false, ◌||◌, List, [], ◌∷◌, map, Option, none, some, if◌then◌else◌, Text, text_eq,
  bytes, ℤ, Result, ok, err, Error, sentinel, Sentinel, booking_error, payment_error, movie_error,
  user_error, errors_is, hold_not_found, not_hold_owner, hold_expired, seat_already_held,
  seat_already_booked, hold_limit_exceeded, seat_out_of_range, payment_not_captured,
  payment_declined, webhook_invalid, screening_not_found, movie_not_found, validation, email_taken,
  invalid_credentials, refresh_token_unknown, refresh_token_expired, refresh_token_reused,
  user_not_found,
}
use booking_concurrent.Common.Proc.{Proc, ret, bind}
use booking_concurrent.Domain.Booking.{
  Time, Seat, SeatStatus, Hold, Booking, Status, Unicode, new_seat, trim_space,
}
use booking_concurrent.Domain.Movie.{Screening}
use booking_concurrent.Application.Ports.{Op, Reply}
use booking_concurrent.Application.Booking.{SeatState, SeatMapView, ConfirmResult}
use booking_concurrent.Application.Booking

pub data Code : Type 0 where
  internal_error not_found unauthorized validation_error conflict : Code
  seat_taken seat_booked hold_limit : Code
  payment_required declined webhook_rejected : Code

-- A fixed message, or the text of an error without the prefix of its package.
pub data Message : Type 0 where
  fixed : Text → Message
  detail_of : Error → Message

pub data Body (A : Type 0) : Type 0 where
  refused : Code → Message → Body A
  payload : A → Body A
  empty : Body A

pub record Response (A : Type 0) : Type 0 where
  pub status : ℕ
  pub body : Body A

-- `WriteError`
abbrev pub refusal : {A : Type 0} → ℕ → Code → Message → Response A
refusal status code m = record { status = status; body = refused code m }

-- `WriteJSON`
abbrev pub answer : {A : Type 0} → ℕ → A → Response A
answer status a = record { status = status; body = payload a }

abbrev pub unauthenticated : {A : Type 0} → Response A
unauthenticated = refusal 401 unauthorized (fixed (bytes "authentication required"))

-- The cases of the three hold lookups.
abbrev pub is_hidden : Error → Bool
is_hidden e =
    errors_is e (booking_error hold_not_found)
    || errors_is e (booking_error not_hold_owner)
    || errors_is e (booking_error hold_expired)

unfoldable pub write_booking_error : {A : Type 0} → Error → Response A
write_booking_error e =
    if errors_is e (booking_error seat_already_held)
    then refusal 409 seat_taken (fixed (bytes "seat is already held"))
    else if errors_is e (booking_error seat_already_booked)
    then refusal 409 seat_booked (fixed (bytes "seat is already booked"))
    else if errors_is e (booking_error hold_limit_exceeded)
    then refusal 409 hold_limit (fixed (bytes "active hold limit reached"))
    else if errors_is e (booking_error seat_out_of_range)
    then refusal 400 validation_error (detail_of e)
    else if is_hidden e
    then refusal 404 not_found (fixed (bytes "hold not found"))
    else if errors_is e (payment_error payment_not_captured)
    then refusal 402 payment_required (fixed (bytes "no captured payment for this session"))
    else if errors_is e (movie_error screening_not_found)
    then refusal 404 not_found (fixed (bytes "screening not found"))
    else if errors_is e (movie_error movie_not_found)
    then refusal 404 not_found (fixed (bytes "movie not found"))
    else refusal 500 internal_error (fixed (bytes "internal server error"))

unfoldable pub write_payment_error : {A : Type 0} → Error → Response A
write_payment_error e =
    if is_hidden e
    then refusal 404 not_found (fixed (bytes "hold not found"))
    else if errors_is e (payment_error payment_not_captured)
    then refusal 402 payment_required (fixed (bytes "no captured payment for this session"))
    else if errors_is e (payment_error payment_declined)
    then refusal 402 declined (fixed (bytes "payment was declined"))
    else if errors_is e (payment_error webhook_invalid)
    then refusal 400 webhook_rejected (fixed (bytes "webhook verification failed"))
    else if errors_is e (movie_error screening_not_found)
    then refusal 404 not_found (fixed (bytes "screening not found"))
    else refusal 500 internal_error (fixed (bytes "internal server error"))

unfoldable pub write_auth_error : {A : Type 0} → Error → Response A
write_auth_error e =
    if errors_is e (user_error validation)
    then refusal 400 validation_error (detail_of e)
    else if errors_is e (user_error email_taken)
    then refusal 409 conflict (fixed (bytes "email is already registered"))
    else if errors_is e (user_error invalid_credentials)
    then refusal 401 unauthorized (fixed (bytes "invalid email or password"))
    else if errors_is e (user_error refresh_token_unknown)
        || errors_is e (user_error refresh_token_expired)
        || errors_is e (user_error refresh_token_reused)
    then refusal 401 unauthorized (fixed (bytes "invalid or expired session"))
    else if errors_is e (user_error user_not_found)
    then unauthenticated
    else refusal 500 internal_error (fixed (bytes "internal server error"))

pub record HoldRequest : Type 0 where
  pub screening_id : Text
  pub row : Text
  pub number : ℤ

pub record HoldResponse : Type 0 where
  pub session_id : Text
  pub screening_id : Text
  pub row : Text
  pub number : ℤ
  pub expires_at : Time

pub record BookingResponse : Type 0 where
  pub id : Text
  pub session_id : Text
  pub screening_id : Text
  pub row : Text
  pub number : ℤ
  pub status : Status
  pub confirmed_at : Time

abbrev pub booking_dto : Booking → BookingResponse
booking_dto b = record {
  id = b.id;
  session_id = b.session_id;
  screening_id = b.screening_id;
  row = b.seat.row;
  number = b.seat.number;
  status = b.status;
  confirmed_at = b.confirmed_at;
}

-- The end of `HoldHandler`.
unfoldable pub held : Result Hold → Response HoldResponse
held (err e) = write_booking_error e
held (ok h) = answer 201 (record {
  session_id = h.session_id;
  screening_id = h.screening_id;
  row = h.seat.row;
  number = h.seat.number;
  expires_at = h.expires_at;
})

-- `HoldHandler` from the outcome of `NewSeat` on.
unfoldable pub seated : Time → Text → Text → Result Seat → Proc Op Reply (Response HoldResponse)
seated hold_ttl user_id screening_id (err e) = ret (refusal 400 validation_error (detail_of e))
seated hold_ttl user_id screening_id (ok seat) =
    bind (Booking.hold hold_ttl user_id screening_id seat) (λ r. ret (held r))

-- The user is missing where the middleware has not run; the body is missing where `decodeJSON` has
-- refused it.
unfoldable pub hold_handler :
    Unicode → Time → Option Text → Option HoldRequest → Proc Op Reply (Response HoldResponse)
hold_handler u hold_ttl none body = ret unauthenticated
hold_handler u hold_ttl (some user_id) none =
    ret (refusal 400 validation_error (fixed (bytes "request body must be valid JSON")))
hold_handler u hold_ttl (some user_id) (some req) =
    let rest = seated hold_ttl user_id req.screening_id (new_seat u req.row req.number) in
    if text_eq (trim_space u req.screening_id) []
    then ret (refusal 400 validation_error (fixed (bytes "screening_id is required")))
    else rest

unfoldable pub confirmed : Result ConfirmResult → Response BookingResponse
confirmed (err e) = write_booking_error e
confirmed (ok r) = answer (if r.created then 201 else 200) (booking_dto r.booking)

unfoldable pub confirm_handler : Option Text → Text → Proc Op Reply (Response BookingResponse)
confirm_handler none session_id = ret unauthenticated
confirm_handler (some user_id) session_id =
    bind (Booking.confirm user_id session_id) (λ r. ret (confirmed r))

unfoldable pub released : Result (Unit {0}) → Response (Unit {0})
released (err e) = write_booking_error e
released (ok _) = record { status = 204; body = empty }

unfoldable pub release_handler : Option Text → Text → Proc Op Reply (Response (Unit {0}))
release_handler none session_id = ret unauthenticated
release_handler (some user_id) session_id =
    bind (Booking.release user_id session_id) (λ r. ret (released r))

pub record SeatResponse : Type 0 where
  pub row : Text
  pub number : ℤ
  pub status : SeatStatus

pub record SeatMapResponse : Type 0 where
  pub screening_id : Text
  pub movie_id : Text
  pub starts_at : Time
  pub rows : List Text
  pub seats_per_row : ℤ
  pub seats : List SeatResponse

-- The loop over the seats.
unfoldable pub seat_dtos : List SeatState → List SeatResponse
seat_dtos [] = []
seat_dtos (st ∷ seats) =
    record { row = st.seat.row; number = st.seat.number; status = st.status } ∷ seat_dtos seats

unfoldable pub mapped : Result SeatMapView → Response SeatMapResponse
mapped (err e) = write_booking_error e
mapped (ok view) = answer 200 (record {
  screening_id = view.screening.id;
  movie_id = view.screening.movie_id;
  starts_at = view.screening.starts_at;
  rows = view.screening.rows;
  seats_per_row = view.screening.seats_per_row;
  seats = seat_dtos view.seats;
})

unfoldable pub seat_map_handler : Text → Proc Op Reply (Response SeatMapResponse)
seat_map_handler screening_id = bind (Booking.seat_map screening_id) (λ r. ret (mapped r))
