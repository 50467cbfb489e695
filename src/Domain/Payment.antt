-- ===== src/Domain/Payment.antt =====
-- internal/domain/payment/payment.go: a payment and its state machine.
use booking_concurrent.Common.{Bool, true, false, ◌||◌, Text, bytes, ℤ}
use booking_concurrent.Domain.Booking.{Time}

-- The known statuses; the database admits no other.
pub data Status : Type 0 where
  intent authorized captured refunding refunded failed : Status

abbrev pub status_eq : Status → Status → Bool
status_eq intent intent = true
status_eq authorized authorized = true
status_eq captured captured = true
status_eq refunding refunding = true
status_eq refunded refunded = true
status_eq failed failed = true
status_eq _ _ = false

unfoldable pub can_transition_to : Status → Status → Bool
can_transition_to intent next =
    status_eq next authorized || status_eq next captured || status_eq next failed
can_transition_to authorized next = status_eq next captured || status_eq next failed
can_transition_to captured next = status_eq next refunding
can_transition_to refunding next = status_eq next refunded
can_transition_to refunded next = false
can_transition_to failed next = false

abbrev pub default_currency : Text
default_currency = bytes "usd"

pub record Payment : Type 0 where
  pub id : Text
  pub booking_session_id : Text
  pub gateway : Text
  pub intent_id : Text
  pub status : Status
  pub amount_cents : ℤ
  pub currency : Text
  pub created_at : Time
  pub updated_at : Time

unfoldable pub is_captured : Payment → Bool
is_captured p = status_eq p.status captured
