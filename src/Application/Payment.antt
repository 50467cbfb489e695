-- ===== src/Application/Payment.antt =====
-- internal/application/payment/service.go.
use booking_concurrent.Common.{
  Bool, true, false, ◌&&◌, not, [], Text, text_eq, bytes, Result, ok, err, Error, sentinel,
  booking_error, payment_error, wrap, wrap_two, errors_is, not_hold_owner, hold_expired,
  payment_not_captured, payment_not_found, payment_declined, payment_invalid_transition,
  payment_intent_exists, int_eq,
}
use booking_concurrent.Common.Proc.{
  ret, bind, request, when◌take◌otherwise◌, ◌>>=◌, ◌>>◌, reject_if, wrapping,
}
use booking_concurrent.Domain.Booking.{Time, Hold, can_be_confirmed}
use booking_concurrent.Domain.Movie.{Screening}
use booking_concurrent.Domain.Payment.{Payment, Status, status_eq, is_captured, default_currency}
use booking_concurrent.Application.Ports.{
  Action, ask_time, ask_provider, IntentRequest, WebhookEvent, EventKind, event_captured,
  event_failed, event_other, screening_get, hold_get, payment_insert, payment_active,
  payment_by_intent, payment_capture, payment_fail, gateway_create, gateway_capture, gateway_verify,
}

pub record IntentResult : Type 0 where
  pub payment : Payment
  pub hold_expires_at : Time
  pub created : Bool

pub record WebhookOutcome : Type 0 where
  pub intent_id : Text
  pub applied : Bool

unfoldable pub hold_gate : Text → Text → Action Hold
hold_gate user_id session_id = do
  h ← request (hold_get session_id)
  reject_if (not (text_eq h.user_id user_id)) (sentinel (booking_error not_hold_owner))
  t ← ask_time
  reject_if (not (can_be_confirmed h t)) (sentinel (booking_error hold_expired))
  ret (ok h)

-- The row that `CreateIntent` asks the store for: identity, status and times are the store's.
abbrev pub draft : Text → Text → Text → Screening → Payment
draft session_id gateway intent_id screening = record {
  id = [];
  booking_session_id = session_id;
  gateway = gateway;
  intent_id = intent_id;
  status = Status.intent;
  amount_cents = screening.price_cents;
  currency = default_currency;
  created_at = 0;
  updated_at = 0;
}

-- After a lost insert race: the winner's row, or the conflict.
unfoldable pub take_winner : Hold → Error → Result Payment → Action IntentResult
take_winner h conflict (err e) = ret (err conflict)
take_winner h conflict (ok p) =
    ret (ok (record { payment = p; hold_expires_at = h.expires_at; created = false }))

-- The rest of `CreateIntent`, from the reply of the insert on.
unfoldable pub inserted : Hold → Text → Result Payment → Action IntentResult
unfolding take_winner
inserted h session_id (ok p) =
    ret (ok (record { payment = p; hold_expires_at = h.expires_at; created = true }))
inserted h session_id (err e) =
    when errors_is e (payment_error payment_intent_exists)
    take bind (request (payment_active session_id)) (take_winner h e)
    otherwise ret (err (wrap (bytes "payment: create intent: insert: %w") e))

-- The rest of `CreateIntent`, from the gateway's reply on.
unfoldable pub minted : Hold → Text → Screening → Result Text → Action IntentResult
unfolding inserted
minted h session_id screening (err e) =
    ret (err (wrap (bytes "payment: create intent: gateway: %w") e))
minted h session_id screening (ok intent_id) = do
  provider ← ask_provider
  bind (request (payment_insert (draft session_id provider intent_id screening)))
      (inserted h session_id)

-- The request that `CreateIntent` sends to the gateway.
abbrev pub intent_request : Text → Screening → IntentRequest
intent_request session_id screening = record {
  amount_cents = screening.price_cents;
  currency = default_currency;
  booking_session_id = session_id;
}

-- The rest of `CreateIntent`, from the reply of the screening store on.
unfoldable pub priced : Hold → Text → Result Screening → Action IntentResult
unfolding minted
priced h session_id (err e) = ret (err (wrap (bytes "payment: create intent: screening: %w") e))
priced h session_id (ok screening) =
    bind (request (gateway_create (intent_request session_id screening)))
      (minted h session_id screening)

-- `CreateIntent` where the session has no active payment.
unfoldable pub mint : Hold → Text → Action IntentResult
unfolding priced
mint h session_id = bind (request (screening_get h.screening_id)) (priced h session_id)

-- The rest of `CreateIntent`, from the reply of the first lookup on.
unfoldable pub reuse_or_mint : Hold → Text → Result Payment → Action IntentResult
unfolding mint
reuse_or_mint h session_id (ok p) =
    ret (ok (record { payment = p; hold_expires_at = h.expires_at; created = false }))
reuse_or_mint h session_id (err e) =
    when errors_is e (payment_error payment_not_found)
    take mint h session_id
    otherwise ret (err (wrap (bytes "payment: create intent: active lookup: %w") e))

unfoldable pub create_intent : Text → Text → Action IntentResult
unfolding hold_gate reuse_or_mint
create_intent user_id session_id = do
  h ← hold_gate user_id session_id
  bind (request (payment_active session_id)) (reuse_or_mint h session_id)

-- After the gateway's reply to the capture; a failure to record the decline is logged and dropped.
unfoldable pub record_capture : Payment → Result (Unit {0}) → Action Payment
record_capture p (err e) = bind (request (payment_fail p.intent_id)) λ _. ret (
    err (
      wrap_two (bytes "payment: client confirm: capture: %w: %w")
        (sentinel (payment_error payment_declined)) e))
record_capture p (ok _) = do
  (row, _) ←
      wrapping (wrap (bytes "payment: client confirm: record capture: %w"))
        (request (payment_capture p.intent_id))
  ret (ok row)

-- The rest of `ConfirmByClient`, from the reply of the lookup on.
unfoldable pub pay : Result Payment → Action Payment
unfolding record_capture
pay (err e) =
    when errors_is e (payment_error payment_not_found)
    take ret (err (sentinel (payment_error payment_not_captured)))
    otherwise ret (err (wrap (bytes "payment: client confirm: active lookup: %w") e))
pay (ok p) =
    when is_captured p
    take ret (ok p)
    otherwise when not (status_eq p.status Status.intent)
        && not (status_eq p.status Status.authorized)
    take ret (
        err (
          wrap (bytes "payment: client confirm: status %q: %w")
            (sentinel (payment_error payment_invalid_transition))))
    otherwise bind (request (gateway_capture p.intent_id p.amount_cents)) (record_capture p)

unfoldable pub confirm_by_client : Text → Text → Action Payment
unfolding hold_gate pay
confirm_by_client user_id session_id = do
  h ← hold_gate user_id session_id
  bind (request (payment_active session_id)) pay

abbrev pub inert : WebhookEvent → Action WebhookOutcome
inert ev = ret (ok (record { intent_id = ev.intent_id; applied = false }))

-- After `MarkFailed` on an amount mismatch.
unfoldable pub mismatch_failed : WebhookEvent → Result Payment → Action WebhookOutcome
mismatch_failed ev (ok _) = inert ev
mismatch_failed ev (err e) =
    when errors_is e (payment_error payment_invalid_transition)
    take inert ev
    otherwise ret (err (wrap (bytes "payment: webhook: fail mismatched intent: %w") e))

-- After `Capture` on a matching amount.
unfoldable pub webhook_captured : WebhookEvent → Result (Payment × Bool) → Action WebhookOutcome
webhook_captured ev (ok (_, captured_now)) =
    ret (ok (record { intent_id = ev.intent_id; applied = captured_now }))
webhook_captured ev (err e) =
    when errors_is e (payment_error payment_invalid_transition)
    take inert ev
    otherwise ret (err (wrap (bytes "payment: webhook: capture: %w") e))

unfoldable pub apply_captured : WebhookEvent → Payment → Action WebhookOutcome
unfolding mismatch_failed webhook_captured
apply_captured ev p =
    when not (int_eq ev.amount_cents p.amount_cents)
    take bind (request (payment_fail p.intent_id)) (mismatch_failed ev)
    otherwise bind (request (payment_capture p.intent_id)) (webhook_captured ev)

-- After `MarkFailed` on a failure event.
unfoldable pub webhook_failed : WebhookEvent → Result Payment → Action WebhookOutcome
webhook_failed ev (ok row) =
    ret (ok (record { intent_id = ev.intent_id; applied = status_eq row.status Status.failed }))
webhook_failed ev (err e) =
    when errors_is e (payment_error payment_invalid_transition)
    take inert ev
    otherwise ret (err (wrap (bytes "payment: webhook: mark failed: %w") e))

-- The switch of `HandleWebhook` on the event's kind.
unfoldable pub dispatch : WebhookEvent → Payment → EventKind → Action WebhookOutcome
unfolding apply_captured webhook_failed
dispatch ev p event_captured = apply_captured ev p
dispatch ev p event_failed = bind (request (payment_fail p.intent_id)) (webhook_failed ev)
dispatch ev p (event_other kind) = inert ev

-- The rest of `HandleWebhook`, from the reply of the lookup on.
unfoldable pub look_up : WebhookEvent → Result Payment → Action WebhookOutcome
unfolding dispatch
look_up ev (err e) =
    when errors_is e (payment_error payment_not_found)
    take inert ev
    otherwise ret (err (wrap (bytes "payment: webhook: intent lookup: %w") e))
look_up ev (ok p) = dispatch ev p ev.kind

unfoldable pub handle_webhook : Text → Text → Action WebhookOutcome
unfolding look_up
handle_webhook raw_body signature = do
  ev ← request (gateway_verify raw_body signature)
  bind (request (payment_by_intent ev.intent_id)) (look_up ev)
