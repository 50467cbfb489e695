-- ===== src/Http/Payments.antt =====
-- internal/adapters/http/payment.go.
use booking_concurrent.Common.{
  Bool, true, Option, none, some, if◌then◌else◌, Text, bytes, ℤ, Result, ok, err,
}
use booking_concurrent.Common.Proc.{Proc, ret, bind}
use booking_concurrent.Domain.Booking.{Time}
use booking_concurrent.Domain.Payment.{Payment, Status}
use booking_concurrent.Application.Ports.{Op, Reply}
use booking_concurrent.Application.Payment.{IntentResult, WebhookOutcome}
use booking_concurrent.Application.Payment
use booking_concurrent.Http.{
  Response, refusal, answer, unauthenticated, write_payment_error, webhook_rejected, fixed,
}

pub record PaymentIntentResponse : Type 0 where
  pub payment_id : Text
  pub session_id : Text
  pub intent_id : Text
  pub amount_cents : ℤ
  pub currency : Text
  pub status : Status
  pub hold_expires_at : Time

abbrev pub payment_intent_dto : IntentResult → PaymentIntentResponse
payment_intent_dto r = record {
  payment_id = r.payment.id;
  session_id = r.payment.booking_session_id;
  intent_id = r.payment.intent_id;
  amount_cents = r.payment.amount_cents;
  currency = r.payment.currency;
  status = r.payment.status;
  hold_expires_at = r.hold_expires_at;
}

pub record PaymentResponse : Type 0 where
  pub payment_id : Text
  pub intent_id : Text
  pub status : Status
  pub amount_cents : ℤ
  pub currency : Text
  pub updated_at : Time

abbrev pub payment_dto : Payment → PaymentResponse
payment_dto p = record {
  payment_id = p.id;
  intent_id = p.intent_id;
  status = p.status;
  amount_cents = p.amount_cents;
  currency = p.currency;
  updated_at = p.updated_at;
}

unfoldable pub intended : Result IntentResult → Response PaymentIntentResponse
intended (err e) = write_payment_error e
intended (ok r) = answer (if r.created then 201 else 200) (payment_intent_dto r)

unfoldable pub payment_intent_handler :
    Option Text → Text → Proc Op Reply (Response PaymentIntentResponse)
payment_intent_handler none session_id = ret unauthenticated
payment_intent_handler (some user_id) session_id =
    bind (Payment.create_intent user_id session_id) (λ r. ret (intended r))

unfoldable pub paid : Result Payment → Response PaymentResponse
paid (err e) = write_payment_error e
paid (ok p) = answer 200 (payment_dto p)

unfoldable pub payment_confirm_handler :
    Option Text → Text → Proc Op Reply (Response PaymentResponse)
payment_confirm_handler none session_id = ret unauthenticated
payment_confirm_handler (some user_id) session_id =
    bind (Payment.confirm_by_client user_id session_id) (λ r. ret (paid r))

-- The acknowledgement says only that the event was received.
unfoldable pub acked : Result WebhookOutcome → Response Bool
acked (err e) = write_payment_error e
acked (ok outcome) = answer 200 true

-- The body is missing where it is too large or cannot be read.
unfoldable pub payment_webhook_handler : Option Text → Text → Proc Op Reply (Response Bool)
payment_webhook_handler none signature =
    ret (refusal 400 webhook_rejected (fixed (bytes "webhook verification failed")))
payment_webhook_handler (some raw_body) signature =
    bind (Payment.handle_webhook raw_body signature) (λ r. ret (acked r))
