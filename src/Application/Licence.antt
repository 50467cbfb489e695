-- ===== src/Application/Licence.antt =====
-- What a request must have read through its ports before it may write through one.
pub mod Sales
pub mod Charges
use booking_concurrent.Common.{◌≡◌, ◌⊎◌, refl, Bool, true, false, not, arith, Text, text_eq, ℤ, ok}
use booking_concurrent.Common.Proc.{In}
use booking_concurrent.Domain.Booking.{Time, before, Hold, Booking, validate, can_be_confirmed}
use booking_concurrent.Domain.Movie.{Screening, has_seat}
use booking_concurrent.Domain.Payment.{Payment}
use booking_concurrent.Memory.PaymentStore.Phases.{is_open}
use booking_concurrent.Application.Ports.{
  Op, Reply, Events, now, screening_get, hold_claim, hold_get, booking_confirm, seat_confirmed,
  payment_insert, payment_active, payment_by_intent, payment_capture, payment_captured,
  gateway_capture, gateway_verify, WebhookEvent, event_captured,
}
use booking_concurrent.Application.Booking.{draft}

-- The request has read a hold of this user under this session, before its expiry.
abbrev pub LiveHold : Text → Events → Text → Hold → Type 0
LiveHold user_id past session_id h =
    (t : Time) × In (hold_get session_id, ok h) past
    × In (now, t) past
    × (h.user_id ≡ user_id)
    × (before t h.expires_at ≡ true)

-- To sell: a live hold of this user, a captured payment for its session, and just the hold's seat.
abbrev pub SaleLicence : Text → Events → Booking → Type 0
SaleLicence user_id past b =
    (session_id : Text) × (h : Hold) × LiveHold user_id past session_id h
    × In (payment_captured session_id, ok true) past
    × (b ≡ draft h)

-- To claim: the screening has the seat, the seat is not sold, and the claim is the user's own and
-- well formed at a time that was read.
abbrev pub ClaimLicence : Text → Events → Hold → Type 0
ClaimLicence user_id past h =
    (s : Screening) × (t : Time) × In (screening_get h.screening_id, ok s) past
    × In (seat_confirmed h.screening_id h.seat, ok false) past
    × In (now, t) past
    × (has_seat s h.seat ≡ true)
    × (validate h t ≡ ok tt)
    × (h.user_id ≡ user_id)

-- To record an intent: a live hold of this user, and the price of that hold's screening.
abbrev pub IntentLicence : Text → Events → Payment → Type 0
IntentLicence user_id past p =
    (h : Hold) × (s : Screening) × LiveHold user_id past p.booking_session_id h
    × In (screening_get h.screening_id, ok s) past
    × (p.amount_cents ≡ s.price_cents)

-- To charge: a live hold of this user, and its active payment, still open, at the amount it names.
abbrev pub ChargeLicence : Text → Events → Text → ℤ → Type 0
ChargeLicence user_id past intent_id amount_cents =
    (session_id : Text) × (h : Hold) × (p : Payment) × LiveHold user_id past session_id h
    × In (payment_active session_id, ok p) past
    × (is_open p.status ≡ true)
    × (p.intent_id ≡ intent_id)
    × (p.amount_cents ≡ amount_cents)

-- To record a capture: the gateway has just charged this intent, or a verified event says that it
-- did, at the amount of the row.
abbrev pub CaptureLicence : Events → Text → Type 0
CaptureLicence past intent_id =
    ((amount : ℤ) × In (gateway_capture intent_id amount, ok tt) past)
    ⊎ ((body : Text) × (signature : Text) × (ev : WebhookEvent) × (p : Payment) × In
          (gateway_verify body signature, ok ev) past
        × In (payment_by_intent ev.intent_id, ok p) past
        × (ev.kind ≡ event_captured)
        × (ev.amount_cents ≡ p.amount_cents)
        × (p.intent_id ≡ intent_id))

abbrev pub Licensed : Text → Events → Op → Type 0
Licensed user_id past (hold_claim h) = ClaimLicence user_id past h
Licensed user_id past (booking_confirm b) = SaleLicence user_id past b
Licensed user_id past (payment_insert p) = IntentLicence user_id past p
Licensed user_id past (payment_capture intent_id) = CaptureLicence past intent_id
Licensed user_id past (gateway_capture intent_id amount_cents) =
    ChargeLicence user_id past intent_id amount_cents
Licensed user_id past _ = Unit {0}

pub not-eq-false : (b : Bool) → not b ≡ false → b ≡ true
not-eq-false true h = refl
not-eq-false false h = cc

pub live_of_confirmable :
    (h : Hold) (t : Time) → not (can_be_confirmed h t) ≡ false → before t h.expires_at ≡ true
unfolding can_be_confirmed
live_of_confirmable h t e = ground arith

pub eq_of_text_eq : (a b : Text) → not (text_eq a b) ≡ false → a ≡ b
eq_of_text_eq a b e = ground arith
