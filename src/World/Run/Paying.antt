-- ===== src/World/Run/Paying.antt =====
-- A payment on its own: what it charges, and what it refuses.
use booking_concurrent.Common.{
  ◌≡◌, refl, ◌∙◌, inl, inr, Bool, true, false, none, some, [], ◌∷◌, ◌≤◌, arith, Text, text_eq,
  Result, ok, err, Error, Option-cases, Bool-cases, ℤ,
}
use booking_concurrent.Common.Proc.{Proc, bind, call, reject_if, when◌take◌otherwise◌}
use booking_concurrent.Domain.Booking.{Time, before, Hold, can_be_confirmed}
use booking_concurrent.Domain.Payment.{Payment, Status, is_captured}
use booking_concurrent.Memory.HoldStore
use booking_concurrent.Memory.PaymentStore
use booking_concurrent.Memory.PaymentStore.{
  PaymentStore, last_active, capture, capture_row, get_active_by_session, has_captured_payment,
}
use booking_concurrent.Memory.PaymentStore.Arbiter
use booking_concurrent.Memory.PaymentStore.Arbiter.{intent_count}
use booking_concurrent.Memory.PaymentStore.Phases.{is_open}
use booking_concurrent.Gateway
use booking_concurrent.Application.Payment.{
  create_intent, confirm_by_client, hold_gate, reuse_or_mint, pay, record_capture,
}
use booking_concurrent.Application.Ports.{Op, Reply, gateway_capture, payment_active}
use booking_concurrent.World.{World, Outside, exec}
use booking_concurrent.World.Run.{run}
use booking_concurrent.World.Run.Selling.{IsHidden, is_own_live_hold, get-IsHidden}

-- Without a live hold of this user neither payment route does anything: each answers one of the
-- three errors that look alike, and changes nothing.
pub payment-IsHidden :
    (x : Outside) (w : World) (uid sid : Text)
    → is_own_live_hold w uid sid ≡ false
    → (e : Error) × IsHidden e
      × (run x (create_intent uid sid) w ≡ (err e, w))
      × (run x (confirm_by_client uid sid) w ≡ (err e, w))
payment-IsHidden x w uid sid no_hold = go (HoldStore.get w.holds w.clock sid) refl
  where
    go :
        (r : Result Hold)
        → HoldStore.get w.holds w.clock sid ≡ r
        → (e : Error) × IsHidden e
          × (run x (create_intent uid sid) w ≡ (err e, w))
          × (run x (confirm_by_client uid sid) w ≡ (err e, w))
    go (err e) h = (
      e,
      get-IsHidden w sid e h,
      unfold run exec create_intent hold_gate in ground arith,
      unfold run exec confirm_by_client hold_gate in ground arith,
    )
    go (ok h) held = elim (Bool-cases (text_eq h.user_id uid)) [
      | inr foreign ↦ (
        _,
        inr (inl refl),
        unfold run exec create_intent hold_gate reject_if in ground arith,
        unfold run exec confirm_by_client hold_gate reject_if in ground arith,
      )
      | inl own ↦ (
        _,
        inr (inr refl),
        unfold run exec create_intent hold_gate reject_if can_be_confirmed in ground arith,
        unfold run exec confirm_by_client hold_gate reject_if can_be_confirmed in ground arith,
      )
    ]

-- A second request for an intent returns the active payment of the session, and changes nothing.
pub create_intent_again :
    (x : Outside) (w : World) (uid sid : Text) (h : Hold) (p : Payment)
    → HoldStore.get w.holds w.clock sid ≡ ok h
    → text_eq h.user_id uid ≡ true
    → before w.clock h.expires_at ≡ true
    → PaymentStore.get_active_by_session w.payments sid ≡ ok p
    → run x (create_intent uid sid) w
      ≡ (ok (record { payment = p; hold_expires_at = h.expires_at; created = false }), w)
unfolding run exec create_intent hold_gate reuse_or_mint reject_if can_be_confirmed
create_intent_again x w uid sid h p held own live active = ground arith

active_row :
    (rows : PaymentStore) (sid : Text) (p : Payment)
    → last_active rows sid ≡ some p
    → 1 ≤ intent_count p.intent_id rows
unfolding last_active intent_count
active_row [] sid p e = cc
active_row (row ∷ rows) sid p e = elim (Option-cases (last_active rows sid)) [
  | inl n ↦ ground arith
  | inr (q, n) ↦ ground (arith, active_row rows sid q n)
]

capture_active :
    (rows : PaymentStore) (now : Time) (sid : Text) (p : Payment)
    → intent_count p.intent_id rows ≤ 1
    → last_active rows sid ≡ some p
    → is_open p.status ≡ true
    → ((capture rows now p.intent_id).0
        ≡ ok (record p { status = Status.captured; updated_at = now }, true))
      × (has_captured_payment (capture rows now p.intent_id).1 sid ≡ true)
unfolding last_active intent_count capture has_captured_payment capture_row
capture_active [] now sid p one e open_ = cc
capture_active (row ∷ rows) now sid p one e open_ = elim (Option-cases (last_active rows sid)) [
  | inl n ↦ ground arith
  | inr (q, n) ↦ ground (arith, active_row rows sid q n, capture_active rows now sid p)
]

past_gate :
    {A : Type 0} (x : Outside) (w : World) (uid sid : Text) (h : Hold)
    (k : Result Hold → Proc Op Reply A)
    → HoldStore.get w.holds w.clock sid ≡ ok h
    → text_eq h.user_id uid ≡ true
    → before w.clock h.expires_at ≡ true
    → run x (bind (hold_gate uid sid) k) w ≡ run x (k (ok h)) w
unfolding run exec hold_gate reject_if can_be_confirmed
past_gate x w uid sid h k held own live = ground arith

pay_open :
    (x : Outside) (w : World) (p : Payment) (s : Status)
    → p.status ≡ s
    → is_open s ≡ true
    → run x (pay (ok p)) w
      ≡ run x (call (gateway_capture p.intent_id p.amount_cents) (record_capture p)) w
unfolding pay when◌take◌otherwise◌ run is_captured exec
pay_open x w p Status.intent same open_ = rw same
pay_open x w p Status.authorized same open_ = rw same
pay_open x w p _ same open_ = cc

capture_answer :
    (x : Outside) (w : World) (p row : Payment) (fresh : Bool)
    → (capture w.payments w.clock p.intent_id).0 ≡ ok (row, fresh)
    → run x (record_capture p (ok tt)) w
      ≡ (ok row, record w { payments = (capture w.payments w.clock p.intent_id).1 })
unfolding run exec record_capture
capture_answer x w p row fresh e = ground arith

active_found :
    {A : Type 0} (x : Outside) (w : World) (sid : Text) (p : Payment)
    (k : Result Payment → Proc Op Reply A)
    → last_active w.payments sid ≡ some p
    → run x (call (payment_active sid) k) w ≡ run x (k (ok p)) w
unfolding run exec get_active_by_session
active_found x w sid p k active = ground arith

accepted :
    {A : Type 0} (x : Outside) (w : World) (iid : Text) (amount : ℤ)
    (k : Result (Unit {0}) → Proc Op Reply A)
    → w.gateway.fail_capture ≡ none
    → run x (call (gateway_capture iid amount) k) w ≡ run x (k (ok tt)) w
unfolding run exec Gateway.capture_intent
accepted x w iid amount k accepts = rw accepts

-- A live hold of this user with an open payment is charged, unless the gateway declines: the answer
-- is the payment as captured, only the payments change, and the session then has a captured one.
pub pay_captures :
    (x : Outside) (w : World) (uid sid : Text) (h : Hold) (p : Payment)
    → Arbiter.IsSound w.payments
    → HoldStore.get w.holds w.clock sid ≡ ok h
    → text_eq h.user_id uid ≡ true
    → before w.clock h.expires_at ≡ true
    → last_active w.payments sid ≡ some p
    → is_open p.status ≡ true
    → w.gateway.fail_capture ≡ none
    → (run x (confirm_by_client uid sid) w ≡ (
      ok (record p { status = Status.captured; updated_at = w.clock }),
      record w { payments = (capture w.payments w.clock p.intent_id).1 },
    ))
      × (has_captured_payment (capture w.payments w.clock p.intent_id).1 sid ≡ true)
unfolding confirm_by_client
pay_captures x w uid sid h p sound held own live active open_ accepts =
    let (got, kept) =
      capture_active w.payments w.clock sid p (sound.one_row p.intent_id) active open_ in
    (
      past_gate x w uid sid h _ held own live
          ∙ active_found x w sid p pay active
          ∙ pay_open x w p p.status refl open_
          ∙ accepted x w p.intent_id p.amount_cents (record_capture p) accepts
          ∙ capture_answer x w p _ true got,
      kept,
    )
