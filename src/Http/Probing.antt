-- ===== src/Http/Probing.antt =====
-- What the routes of a hold tell a user who has no live hold under the session.
use booking_concurrent.Common.{◌≡◌, false, some, bytes, Text, arith}
use booking_concurrent.Common.Proc.{ret}
use booking_concurrent.Http.{
  Response, refusal, fixed, not_found, confirm_handler, confirmed, BookingResponse,
}
use booking_concurrent.Http.Payments.{
  payment_intent_handler, intended, payment_confirm_handler, paid, PaymentIntentResponse,
  PaymentResponse,
}
use booking_concurrent.Http.Writers.{hidden_alike}
use booking_concurrent.Application.Booking.{confirm}
use booking_concurrent.Application.Payment.{create_intent, confirm_by_client}
use booking_concurrent.World.{World, Outside}
use booking_concurrent.World.Run.{run, run-bind}
use booking_concurrent.World.Run.Selling.{is_own_live_hold, confirm-IsHidden}
use booking_concurrent.World.Run.Paying.{payment-IsHidden}

abbrev pub no_hold : {A : Type 0} → Response A
no_hold = refusal 404 not_found (fixed (bytes "hold not found"))

-- Unknown, foreign and expired sessions cannot be told apart: without a live hold of this user each
-- of the three routes of a hold that confirm or pay gives the same 404, and nothing changes.
pub probe_learns_nothing :
    (x : Outside) (w : World) (uid sid : Text)
    → is_own_live_hold w uid sid ≡ false
    → (run x (confirm_handler (some uid) sid) w ≡ (no_hold, w))
      × (run x (payment_intent_handler (some uid) sid) w ≡ (no_hold, w))
      × (run x (payment_confirm_handler (some uid) sid) w ≡ (no_hold, w))
unfolding run confirm_handler payment_intent_handler payment_confirm_handler confirmed intended paid
probe_learns_nothing x w uid sid none_live =
    let (e, hidden, refused) = confirm-IsHidden x w uid sid none_live in
    let (f, hidden', refused_intent, refused_pay) = payment-IsHidden x w uid sid none_live in
    (
      ground (
        arith,
        run-bind x (confirm uid sid) (λ r. ret (confirmed r)) w,
        hidden_alike BookingResponse e hidden,
      ),
      ground (
        arith,
        run-bind x (create_intent uid sid) (λ r. ret (intended r)) w,
        hidden_alike PaymentIntentResponse f hidden',
      ),
      ground (
        arith,
        run-bind x (confirm_by_client uid sid) (λ r. ret (paid r)) w,
        hidden_alike PaymentResponse f hidden',
      ),
    )
