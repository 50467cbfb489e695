-- ===== src/World/Run/Checkout.antt =====
-- The end of a checkout: to pay and then to confirm.
use booking_concurrent.Common.{◌≡◌, ap, true, false, none, some, Text, text_eq, ok}
use booking_concurrent.Common.Dict.{lookup}
use booking_concurrent.Domain.Booking.{before, Hold}
use booking_concurrent.Domain.Payment.{Payment}
use booking_concurrent.Memory.HoldStore
use booking_concurrent.Memory.BookingStore.{stamp, any_confirmed, rows_at, booking_key}
use booking_concurrent.Memory.PaymentStore.{last_active, capture}
use booking_concurrent.Memory.PaymentStore.Arbiter
use booking_concurrent.Memory.PaymentStore.Phases.{is_open}
use booking_concurrent.Application.Booking.{confirm, draft}
use booking_concurrent.Application.Payment.{confirm_by_client}
use booking_concurrent.World.{World, Outside}
use booking_concurrent.World.Run.{run}
use booking_concurrent.World.Run.Selling.{confirm_sells}
use booking_concurrent.World.Run.Paying.{pay_captures}

-- A buyer who holds a free seat, and has an open payment and no booking yet, gets the seat by paying
-- and confirming before the hold expires, unless the gateway declines: the confirm answers the booking
-- of the held seat, as new. Each of the two requests runs alone, at one instant, and in the payment
-- store a session has at most one active payment and an intent at most one row.
pub checkout_sells :
    (x : Outside) (w : World) (uid sid : Text) (h : Hold) (p : Payment)
    → Arbiter.IsSound w.payments
    → HoldStore.get w.holds w.clock sid ≡ ok h
    → text_eq h.user_id uid ≡ true
    → before w.clock h.expires_at ≡ true
    → last_active w.payments sid ≡ some p
    → is_open p.status ≡ true
    → w.gateway.fail_capture ≡ none
    → lookup h.session_id w.bookings.by_session ≡ none
    → any_confirmed (rows_at w.bookings.by_seat (booking_key (draft h))) ≡ false
    → (run x (confirm uid sid) (run x (confirm_by_client uid sid) w).1).0
      ≡ ok (record { booking = stamp (draft h) (x.uuid w.minted) w.clock; created = true })
checkout_sells x w uid sid h p sound held own live active open_ accepts fresh free =
    let (charged, kept) = pay_captures x w uid sid h p sound held own live active open_ accepts in
    rw charged (
      ap (λ r. r.0)
        (confirm_sells x (record w { payments = (capture w.payments w.clock p.intent_id).1 }) uid
          sid h held own live kept fresh free))
