-- ===== src/Application/Ports.antt =====
-- The ports of internal/application/booking and internal/application/payment: one constructor for
-- each method, with what it returns. The two injected clocks and `uuid.NewString` are calls too.
use booking_concurrent.Common.{Bool, List, Text, ℤ, Result}
use booking_concurrent.Common.Proc.{Proc, bind, call, ret}
use booking_concurrent.Common.Proc
use booking_concurrent.Domain.Booking.{Time, Seat, Hold, Booking}
use booking_concurrent.Domain.Movie.{Screening}
use booking_concurrent.Domain.Payment.{Payment}

pub record IntentRequest : Type 0 where
  pub amount_cents : ℤ
  pub currency : Text
  pub booking_session_id : Text

-- `EventKind`: a kind that the service does not know is kept as it came.
pub data EventKind : Type 0 where
  event_captured event_failed : EventKind
  event_other : Text → EventKind

pub record WebhookEvent : Type 0 where
  pub kind : EventKind
  pub intent_id : Text
  pub amount_cents : ℤ

pub data Op : Type 0 where
  now : Op
  new_uuid : Op
  screening_get : (id : Text) → Op
  hold_claim : Hold → Op
  hold_get : (session_id : Text) → Op
  hold_release : (session_id user_id : Text) → Op
  hold_seats : (screening_id : Text) → Op
  booking_confirm : Booking → Op
  booking_get : (session_id : Text) → Op
  seat_confirmed : (screening_id : Text) → Seat → Op
  confirmed_seats : (screening_id : Text) → Op
  payment_insert : Payment → Op
  payment_active : (session_id : Text) → Op
  payment_by_intent : (intent_id : Text) → Op
  payment_capture : (intent_id : Text) → Op
  payment_fail : (intent_id : Text) → Op
  payment_captured : (session_id : Text) → Op
  gateway_provider : Op
  gateway_create : IntentRequest → Op
  gateway_capture : (intent_id : Text) → (amount_cents : ℤ) → Op
  gateway_verify : (raw_body signature : Text) → Op

abbrev pub Reply : Op → Type 0
Reply now = Time
Reply new_uuid = Text
Reply (screening_get id) = Result Screening
Reply (hold_claim h) = Result (Unit {0})
Reply (hold_get session_id) = Result Hold
Reply (hold_release session_id user_id) = Result (Unit {0})
Reply (hold_seats screening_id) = Result (List Seat)
Reply (booking_confirm b) = Result Booking
Reply (booking_get session_id) = Result Booking
Reply (seat_confirmed screening_id seat) = Result Bool
Reply (confirmed_seats screening_id) = Result (List Seat)
Reply (payment_insert p) = Result Payment
Reply (payment_active session_id) = Result Payment
Reply (payment_by_intent intent_id) = Result Payment
Reply (payment_capture intent_id) = Result (Payment × Bool)
Reply (payment_fail intent_id) = Result Payment
Reply (payment_captured session_id) = Result Bool
Reply gateway_provider = Text
Reply (gateway_create r) = Result Text
Reply (gateway_capture intent_id amount_cents) = Result (Unit {0})
Reply (gateway_verify raw_body signature) = Result WebhookEvent

abbrev pub Events : Type 0
Events = List (Proc.Event Op Reply)

-- A use case that may fail.
abbrev pub Action : Type 0 → Type 0
Action A = Proc Op Reply (Result A)

abbrev pub ask_time : Action Time
ask_time = call now (λ t. ret (Result.ok t))

abbrev pub ask_uuid : Action Text
ask_uuid = call new_uuid (λ u. ret (Result.ok u))

abbrev pub ask_provider : Action Text
ask_provider = call gateway_provider (λ g. ret (Result.ok g))
