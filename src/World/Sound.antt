-- ===== src/World/Sound.antt =====
-- The invariants of the three stores together, and the calls of the ports.
use booking_concurrent.Common.{◌≤◌, ◌≡◌, true, Text}
use booking_concurrent.Domain.Booking.{Time}
use booking_concurrent.Memory.HoldStore.Claims
use booking_concurrent.Memory.BookingStore.Sales
use booking_concurrent.Memory.PaymentStore
use booking_concurrent.Memory.PaymentStore.Arbiter
use booking_concurrent.Memory.PaymentStore.Money
use booking_concurrent.Memory.PaymentStore.Money.{inserts, captures, fails}
use booking_concurrent.Application.Ports.{
  Op, now, hold_claim, hold_release, booking_confirm, payment_insert, payment_capture, payment_fail,
}
use booking_concurrent.World.{World, Outside, exec}

pub record IsSound (w : World) : Type 0 where
  pub holds : Claims.IsSound w.clock w.holds
  pub bookings : Sales.IsSound w.bookings
  pub payments : Arbiter.IsSound w.payments

-- Every port call keeps the three stores sound.
pub exec-IsSound : (x : Outside) (o : Op) (w : World) → IsSound w → IsSound (exec x o w).1
unfolding exec
exec-IsSound x now w v = v
exec-IsSound x (hold_claim h) w v = record {
  holds = Claims.hold-IsSound h v.holds;
  bookings = v.bookings;
  payments = v.payments;
}
exec-IsSound x (hold_release sid uid) w v = record {
  holds = Claims.release-IsSound sid uid v.holds;
  bookings = v.bookings;
  payments = v.payments;
}
exec-IsSound x (booking_confirm b) w v = record {
  holds = v.holds;
  bookings = Sales.confirm-IsSound w.clock (x.uuid w.minted) b v.bookings;
  payments = v.payments;
}
exec-IsSound x (payment_insert p) w v = record {
  holds = v.holds;
  bookings = v.bookings;
  payments = Arbiter.insert_intent-IsSound w.clock (x.uuid w.minted) p v.payments;
}
exec-IsSound x (payment_capture iid) w v = record {
  holds = v.holds;
  bookings = v.bookings;
  payments = (Arbiter.capture-IsSound w.clock iid v.payments);
}
exec-IsSound x (payment_fail iid) w v = record {
  holds = v.holds;
  bookings = v.bookings;
  payments = (Arbiter.mark_failed-IsSound w.clock iid v.payments);
}
exec-IsSound x _ w v = record { holds = v.holds; bookings = v.bookings; payments = v.payments }

-- The clock may move on between calls.
pub tick-IsSound :
    (w : World) (t : Time) → w.clock ≤ t → IsSound w → IsSound (record w { clock = t })
tick-IsSound w t le v = record {
  holds = Claims.later-IsSound le v.holds;
  bookings = v.bookings;
  payments = v.payments;
}

-- A session that has a captured payment keeps it through every port call.
pub captured-exec :
    (x : Outside) (o : Op) (w : World) (sid : Text)
    → PaymentStore.has_captured_payment w.payments sid ≡ true
    → PaymentStore.has_captured_payment (exec x o w).1.payments sid ≡ true
unfolding exec PaymentStore.insert_intent Money.write
captured-exec x now w sid h = h
captured-exec x (payment_insert p) w sid h =
    Money.has_captured-write w.payments (inserts w.clock (x.uuid w.minted) p) sid h
captured-exec x (payment_capture iid) w sid h =
    Money.has_captured-write w.payments (captures w.clock iid) sid h
captured-exec x (payment_fail iid) w sid h =
    Money.has_captured-write w.payments (fails w.clock iid) sid h
captured-exec x _ w sid h = h
