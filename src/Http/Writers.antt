-- ===== src/Http/Writers.antt =====
-- The error writers: the statuses that they answer.
use booking_concurrent.Common.{◌≤◌, ◌≡◌, arith, bytes, Error, errors_is}
use booking_concurrent.Http.{
  Response, refusal, fixed, not_found, write_booking_error, write_payment_error, write_auth_error,
}
use booking_concurrent.World.Run.Selling.{IsHidden}

-- Whatever went wrong, each of the three writers answers a client or a server error.
pub error_status :
    (A : Type 0) (e : Error)
    → (400 ≤ Response.status (write_booking_error {A = A} e))
      × (400 ≤ Response.status (write_payment_error {A = A} e))
      × (400 ≤ Response.status (write_auth_error {A = A} e))
unfolding write_booking_error write_payment_error write_auth_error
error_status A e = ground arith

pub hidden_alike :
    (A : Type 0) (e : Error)
    → IsHidden e
    → (write_booking_error {A = A} e ≡ refusal 404 not_found (fixed (bytes "hold not found")))
      × (write_payment_error {A = A} e ≡ refusal 404 not_found (fixed (bytes "hold not found")))
unfolding write_booking_error write_payment_error errors_is
hidden_alike A e h = ground arith
