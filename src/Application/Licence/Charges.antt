-- ===== src/Application/Licence/Charges.antt =====
-- The payment service and the licences.
use booking_concurrent.Common.{
  ◌≡◌, refl, inl, inr, Bool, true, false, not, ◌&&◌, [], ◌∷◌, arith, Text, ℤ, int_eq, Result, ok,
  err, Error, wrap, bytes,
}
use booking_concurrent.Domain.Movie.{Screening}
use booking_concurrent.Common.Proc.{
  In, Obeys, done, next, Obeys-when, bind, ret, or_return, map_error, Obeys-reject_in,
}
use booking_concurrent.Domain.Booking.{Time, Hold, before}
use booking_concurrent.Domain.Payment.{Payment, Status, status_eq}
use booking_concurrent.Memory.PaymentStore.Phases.{is_open}
use booking_concurrent.Application.Ports.{
  Events, Action, now, screening_get, hold_get, payment_insert, payment_active, payment_by_intent,
  payment_capture, gateway_create, gateway_capture, gateway_verify, WebhookEvent, EventKind,
  event_captured, event_failed, event_other,
}
use booking_concurrent.Application.Payment.{
  draft, hold_gate, inserted, minted, priced, mint, intent_request, create_intent, record_capture,
  confirm_by_client, dispatch, handle_webhook, webhook_captured, mismatch_failed, webhook_failed,
}
use booking_concurrent.Application.Licence.{Licensed, LiveHold, live_of_confirmable, eq_of_text_eq}

inserted-Obeys :
    (user_id session_id : Text) (past : Events) (h : Hold) (r : Result Payment)
    → Obeys (Licensed user_id) past (inserted h session_id r)
unfolding inserted
inserted-Obeys user_id session_id past h (ok p) = done _ _
inserted-Obeys user_id session_id past h (err e) =
    Obeys-when
      (λ _. next {o = payment_active session_id} tt (elim [ err f ↦ done _ _ | ok p ↦ done _ _ ]))
      (λ _. done _ _)

minted-Obeys :
    (user_id session_id : Text) (past : Events) (h : Hold) (s : Screening) (r : Result Text)
    → LiveHold user_id past session_id h
    → In (screening_get h.screening_id, ok s) past
    → Obeys (Licensed user_id) past (minted h session_id s r)
unfolding minted
minted-Obeys user_id session_id past h s (err e) hold priced = done _ _
minted-Obeys user_id session_id past h s (ok iid) (t, held, read, own, live) priced = next tt λ g.
    next {o = payment_insert (draft session_id g iid s)}
      (h, s, (t, inr held, inr read, own, live), inr priced, refl)
      λ r. inserted-Obeys user_id session_id _ h r

priced-Obeys :
    (user_id session_id : Text) (past : Events) (h : Hold) (r : Result Screening)
    → LiveHold user_id past session_id h
    → Obeys (Licensed user_id) ((screening_get h.screening_id, r) ∷ past) (priced h session_id r)
unfolding priced
priced-Obeys user_id session_id past h (err e) hold = done _ _
priced-Obeys user_id session_id past h (ok s) (t, held, read, own, live) =
    next {o = gateway_create (intent_request session_id s)} tt λ r.
      minted-Obeys user_id session_id _ h s r (t, inr (inr held), inr (inr read), own, live)
        (inr (inl refl))

mint-Obeys :
    (user_id session_id : Text) (past : Events) (h : Hold)
    → LiveHold user_id past session_id h
    → Obeys (Licensed user_id) past (mint h session_id)
unfolding mint
mint-Obeys user_id session_id past h hold =
    next tt λ r. priced-Obeys user_id session_id past h r hold

-- Past the gate the request has read a live hold of this user.
hold_gate-Obeys :
    {B : Type 0} (user_id session_id : Text) (k : Result Hold → Action B)
    → ((past : Events) (e : Error) → Obeys (Licensed user_id) past (k (err e)))
    → ((h : Hold) (t : Time)
        → h.user_id ≡ user_id
        → before t h.expires_at ≡ true
        → Obeys (Licensed user_id) ((now, t) ∷ (hold_get session_id, ok h) ∷ []) (k (ok h)))
    → Obeys (Licensed user_id) [] (bind (hold_gate user_id session_id) k)
unfolding hold_gate
hold_gate-Obeys user_id session_id k fails passes = next tt (elim [
  | err e ↦ fails _ e
  | ok h ↦ Obeys-reject_in _ _ _ k (fails _ _) λ own. next tt λ t.
      Obeys-reject_in _ _ _ k (fails _ _)
        λ live. passes h t (eq_of_text_eq _ _ own) (live_of_confirmable h t live)
])

-- `CreateIntent` records an intent only for a live hold of this user, at the price that it has read
-- from that hold's screening, whatever the adapters reply.
pub create_intent-Obeys :
    (user_id session_id : Text) → Obeys (Licensed user_id) [] (create_intent user_id session_id)
unfolding create_intent
create_intent-Obeys user_id session_id =
    hold_gate-Obeys user_id session_id _ (λ past e. done _ _)
      λ h t own live. next {o = payment_active session_id} tt (elim [
        | ok p ↦ done _ _
        | err e ↦
            Obeys-when
              (λ _.
                mint-Obeys user_id session_id _ h
                  (t, inr (inr (inl refl)), inr (inl refl), own, live))
              (λ _. done _ _)
      ])

Obeys-recorded :
    {user_id : Text} (past : Events) (r : Result (Payment × Bool))
    → Obeys (Licensed user_id) past (
        or_return
          (λ (row, _). ret (ok row))
          (map_error (wrap (bytes "payment: client confirm: record capture: %w")) r))
Obeys-recorded past (ok (row, fresh)) = done _ _
Obeys-recorded past (err e) = done _ _

record_capture-Obeys :
    (user_id : Text) (past : Events) (p : Payment) (r : Result (Unit {0}))
    → Obeys
        (Licensed user_id)
        ((gateway_capture p.intent_id p.amount_cents, r) ∷ past)
        (record_capture p r)
unfolding record_capture
record_capture-Obeys user_id past p (err e) = next tt λ _. done _ _
record_capture-Obeys user_id past p (ok _) =
    next {o = payment_capture p.intent_id} (inl (p.amount_cents, inl refl)) λ r. Obeys-recorded _ r

is_open_of_status :
    (s : Status)
    → (not (status_eq s Status.intent) && not (status_eq s Status.authorized)) ≡ false
    → is_open s ≡ true
is_open_of_status Status.intent h = refl
is_open_of_status Status.authorized h = refl
is_open_of_status _ h = cc

-- `ConfirmByClient` charges only the open payment of a live hold of this user, at its own amount,
-- and records a capture only after the gateway has accepted it, whatever the adapters reply.
pub confirm_by_client-Obeys :
    (user_id session_id : Text) → Obeys (Licensed user_id) [] (confirm_by_client user_id session_id)
unfolding confirm_by_client
confirm_by_client-Obeys user_id session_id =
    hold_gate-Obeys user_id session_id _ (λ past e. done _ _)
      λ h t own live. next {o = payment_active session_id} tt (elim [
        | err e ↦ Obeys-when (λ _. done _ _) (λ _. done _ _)
        | ok p ↦
            Obeys-when (λ _. done _ _)
              λ _.
                Obeys-when (λ _. done _ _)
                  λ usable.
                    next
                      (
                        session_id,
                        h,
                        p,
                        (t, inr (inr (inl refl)), inr (inl refl), own, live),
                        inl refl,
                        is_open_of_status p.status usable,
                        refl,
                        refl,
                      )
                      λ r. record_capture-Obeys user_id _ p r
      ])

webhook_failed-Obeys :
    (user_id : Text) (past : Events) (ev : WebhookEvent) (r : Result Payment)
    → Obeys (Licensed user_id) past (webhook_failed ev r)
unfolding webhook_failed
webhook_failed-Obeys user_id past ev (ok p) = done _ _
webhook_failed-Obeys user_id past ev (err e) = Obeys-when (λ _. done _ _) (λ _. done _ _)

mismatch_failed-Obeys :
    (user_id : Text) (past : Events) (ev : WebhookEvent) (r : Result Payment)
    → Obeys (Licensed user_id) past (mismatch_failed ev r)
unfolding mismatch_failed
mismatch_failed-Obeys user_id past ev (ok p) = done _ _
mismatch_failed-Obeys user_id past ev (err e) = Obeys-when (λ _. done _ _) (λ _. done _ _)

webhook_captured-Obeys :
    (user_id : Text) (past : Events) (ev : WebhookEvent) (r : Result (Payment × Bool))
    → Obeys (Licensed user_id) past (webhook_captured ev r)
unfolding webhook_captured
webhook_captured-Obeys user_id past ev (ok (p, b)) = done _ _
webhook_captured-Obeys user_id past ev (err e) = Obeys-when (λ _. done _ _) (λ _. done _ _)

int_eq_of_not : (a b : ℤ) → not (int_eq a b) ≡ false → a ≡ b
int_eq_of_not a b h = ground arith

dispatch-Obeys :
    (user_id body signature : Text) (ev : WebhookEvent) (p : Payment) (kind : EventKind)
    → ev.kind ≡ kind
    → Obeys
        (Licensed user_id)
        ((payment_by_intent ev.intent_id, ok p) ∷ (gateway_verify body signature, ok ev) ∷ [])
        (dispatch ev p kind)
unfolding dispatch
dispatch-Obeys user_id body signature ev p event_captured e =
    Obeys-when (λ _. next tt λ r. mismatch_failed-Obeys user_id _ ev r)
      (λ same.
        next
          (inr (body, signature, ev, p, inr (inl refl), inl refl, e, int_eq_of_not _ _ same, refl))
          λ r. webhook_captured-Obeys user_id _ ev r)
dispatch-Obeys user_id body signature ev p event_failed e =
    next tt λ r. webhook_failed-Obeys user_id _ ev r
dispatch-Obeys user_id body signature ev p (event_other k) e = done _ _

-- `HandleWebhook` records a capture only for a verified capture event, at the amount of the row
-- that it names, whatever the adapters reply.
pub handle_webhook-Obeys :
    (user_id body signature : Text) → Obeys (Licensed user_id) [] (handle_webhook body signature)
unfolding handle_webhook
handle_webhook-Obeys user_id body signature = next {o = gateway_verify body signature} tt (elim [
  | err e ↦ done _ _
  | ok ev ↦ next {o = payment_by_intent ev.intent_id} tt (elim [
    | err e ↦ Obeys-when (λ _. done _ _) (λ _. done _ _)
    | ok p ↦ dispatch-Obeys user_id body signature ev p ev.kind refl
  ])
])
