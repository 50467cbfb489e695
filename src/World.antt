-- ===== src/World.antt =====
-- The API process over the in-memory adapters: what each port call does to the stores.
pub mod Sound
pub mod Threads
pub mod Run
use booking_concurrent.Common.{
  ℕ, ◌+◌, Option, none, some, Text, Result, ok, err, sentinel, movie_error, screening_not_found,
}
use booking_concurrent.Common.Dict.{Dict, lookup}
use booking_concurrent.Domain.Booking.{Time}
use booking_concurrent.Domain.Movie.{Screening}
use booking_concurrent.Memory.HoldStore.{HoldStore}
use booking_concurrent.Memory.HoldStore
use booking_concurrent.Memory.BookingStore.{BookingStore}
use booking_concurrent.Memory.BookingStore
use booking_concurrent.Memory.PaymentStore.{PaymentStore}
use booking_concurrent.Memory.PaymentStore
use booking_concurrent.Gateway.{FakeGateway, Codec}
use booking_concurrent.Gateway
use booking_concurrent.Application.Ports.{
  Op, Reply, now, new_uuid, screening_get, hold_claim, hold_get, hold_release, hold_seats,
  booking_confirm, booking_get, seat_confirmed, confirmed_seats, payment_insert, payment_active,
  payment_by_intent, payment_capture, payment_fail, payment_captured, gateway_provider,
  gateway_create, gateway_capture, gateway_verify,
}

-- `ScreeningStore.Get` of internal/adapters/memory/screeningstore.go.
abbrev pub get_screening : Dict Screening → Text → Result Screening
get_screening screenings id = elim (lookup id screenings) [
  | none ↦ err (sentinel (movie_error screening_not_found))
  | some s ↦ ok s
]

-- `clock` is the reading of the clock that all parts share, and `minted` counts the UUIDs drawn.
pub record World : Type 0 where
  pub clock : Time
  pub minted : ℕ
  pub screenings : Dict Screening
  pub holds : HoldStore
  pub bookings : BookingStore
  pub payments : PaymentStore
  pub gateway : FakeGateway

-- What the process draws from outside: the UUIDs in the order drawn, the MAC and the JSON codec.
pub record Outside : Type 0 where
  pub uuid : ℕ → Text
  pub codec : Codec

abbrev set_holds : {A : Type 0} → World → A × HoldStore → A × World
set_holds w (a, s) = (a, record w { holds = s })

abbrev set_bookings : {A : Type 0} → World → A × BookingStore → A × World
set_bookings w (a, s) = (a, record w { bookings = s; minted = w.minted + 1 })

abbrev set_payments : {A : Type 0} → World → A × PaymentStore → A × World
set_payments w (a, s) = (a, record w { payments = s })

abbrev set_gateway : {A : Type 0} → World → A × FakeGateway → A × World
set_gateway w (a, s) = (a, record w { gateway = s })

-- One port call, as one atomic step. A store that may mint an identity draws one whether or not it
-- uses it.
unfoldable pub exec : Outside → (o : Op) → World → Reply o × World
exec x now w = (w.clock, w)
exec x new_uuid w = (x.uuid w.minted, record w { minted = w.minted + 1 })
exec x (screening_get id) w = (get_screening w.screenings id, w)
exec x (hold_claim h) w = set_holds w (HoldStore.hold w.holds w.clock h)
exec x (hold_get session_id) w = (HoldStore.get w.holds w.clock session_id, w)
exec x (hold_release session_id user_id) w =
    set_holds w (HoldStore.release w.holds w.clock session_id user_id)
exec x (hold_seats screening_id) w = (ok (HoldStore.held_seats w.holds w.clock screening_id), w)
exec x (booking_confirm b) w =
    set_bookings w (BookingStore.confirm w.bookings w.clock (x.uuid w.minted) b)
exec x (booking_get session_id) w = (BookingStore.get_by_session w.bookings session_id, w)
exec x (seat_confirmed screening_id seat) w =
    (ok (BookingStore.seat_confirmed w.bookings screening_id seat), w)
exec x (confirmed_seats screening_id) w =
    (ok (BookingStore.confirmed_seats w.bookings screening_id), w)
exec x (payment_insert p) w =
    set_payments (record w { minted = w.minted + 1 })
      (PaymentStore.insert_intent w.payments w.clock (x.uuid w.minted) p)
exec x (payment_active session_id) w = (PaymentStore.get_active_by_session w.payments session_id, w)
exec x (payment_by_intent intent_id) w = (PaymentStore.get_by_intent w.payments intent_id, w)
exec x (payment_capture intent_id) w =
    set_payments w (PaymentStore.capture w.payments w.clock intent_id)
exec x (payment_fail intent_id) w =
    set_payments w (PaymentStore.mark_failed w.payments w.clock intent_id)
exec x (payment_captured session_id) w =
    (ok (PaymentStore.has_captured_payment w.payments session_id), w)
exec x gateway_provider w = (Gateway.provider, w)
exec x (gateway_create r) w =
    set_gateway (record w { minted = w.minted + 1 })
      (Gateway.create_intent w.gateway (x.uuid w.minted) r)
exec x (gateway_capture intent_id amount_cents) w = set_gateway w (Gateway.capture_intent w.gateway)
exec x (gateway_verify raw_body signature) w =
    (Gateway.verify_webhook x.codec w.gateway w.clock raw_body signature, w)
