-- ===== src/Tests/Runs.antt =====
-- Whole runs: one buyer, from the hold to the booking.
use booking_concurrent.Common.{
  ◌≡◌, ◌≤◌, refl, sentinel_discrete, errors_is, text_discrete, ok, err, some, none, true, false,
  ◌∷◌, [], Text, bytes, pos, sentinel, booking_error, hold_not_found,
}
use booking_concurrent.Common.Dict.{lookup, insert, delete}
use booking_concurrent.Common.Decimal.{itoa, digits}
use booking_concurrent.Common.Proc.{reject_if, when◌take◌otherwise◌}
use booking_concurrent.Domain.Booking.{before, Booking, Status, validate, can_be_confirmed}
use booking_concurrent.Domain.Movie.{has_seat, has_row}
use booking_concurrent.Domain.Payment.{Payment, is_captured, intent}
use booking_concurrent.Memory.SeatKey.{seat_key}
use booking_concurrent.Gateway
use booking_concurrent.Memory.HoldStore
use booking_concurrent.Memory.BookingStore
use booking_concurrent.Memory.BookingStore.{any_confirmed, rows_at, booking_key, stamp}
use booking_concurrent.Memory.PaymentStore
use booking_concurrent.Memory.PaymentStore.{
  last_active, get_active_by_session, insert_intent, conflict, capture, capture_row,
  has_captured_payment,
}
use booking_concurrent.Memory.PaymentStore.Arbiter
use booking_concurrent.Memory.PaymentStore.Arbiter.{active_count, intent_count}
use booking_concurrent.Application.Booking
use booking_concurrent.Application.Payment
use booking_concurrent.Application.Booking.{confirm, draft}
use booking_concurrent.Application.Payment.{create_intent, confirm_by_client}
use booking_concurrent.World.{exec}
use booking_concurrent.World.Run.{run}
use booking_concurrent.World.Run.Alone.{serve-Reach}
use booking_concurrent.World.Run.Selling.{is_own_live_hold, replay_refused}
use booking_concurrent.World.Run.Checkout.{checkout_sells}
use booking_concurrent.World.Threads.{
  Thread, System, Reach, here, serve, hold_seat, start_payment, pay, confirm_hold,
}
use booking_concurrent.World.Threads.Promises.{opening, one_sale, one_hold, paid_sale, one_payment}
use booking_concurrent.Http.{confirm_handler}
use booking_concurrent.Http.Payments.{payment_intent_handler, payment_confirm_handler}
use booking_concurrent.Http.Probing.{probe_learns_nothing, no_hold}
use booking_concurrent.Tests.Fixtures.{
  outside, hold_ttl, start_state, hall, gateway, alice, seat_a1, held_world, intent_world,
  paid_world, sold_world, session, first_hold,
}

abbrev first_payment : Payment
first_payment = record {
  id = bytes "u3";
  booking_session_id = session;
  gateway = bytes "fake";
  intent_id = bytes "pi_fake_u2";
  status = intent;
  amount_cents = pos 1200;
  currency = bytes "usd";
  created_at = 1000;
  updated_at = 1000;
}

abbrev first_booking : Booking
first_booking = record {
  id = bytes "u4";
  session_id = session;
  screening_id = bytes "hall";
  seat = seat_a1;
  user_id = alice;
  status = Status.confirmed;
  confirmed_at = 1000;
}

abbrev bob : Text
bob = bytes "bob"

abbrev after_hold :
    (done : Thread) × Reach outside hold_ttl start_state
      (record { world = held_world; threads = done ∷ start_state.threads })
after_hold =
    serve-Reach outside hold_ttl start_state start_state (hold_seat alice (bytes "hall") seat_a1)
      here

abbrev held_state : System
held_state = record { world = held_world; threads = after_hold.0 ∷ start_state.threads }

abbrev after_intent :
    (done : Thread) × Reach outside hold_ttl start_state
      (record { world = intent_world; threads = done ∷ held_state.threads })
after_intent =
    serve-Reach outside hold_ttl start_state held_state (start_payment alice session) after_hold.1

abbrev intent_state : System
intent_state = record { world = intent_world; threads = after_intent.0 ∷ held_state.threads }

abbrev after_pay :
    (done : Thread) × Reach outside hold_ttl start_state
      (record { world = paid_world; threads = done ∷ intent_state.threads })
after_pay = serve-Reach outside hold_ttl start_state intent_state (pay alice session) after_intent.1

abbrev paid_state : System
paid_state = record { world = paid_world; threads = after_pay.0 ∷ intent_state.threads }

abbrev after_sale :
    (done : Thread) × Reach outside hold_ttl start_state
      (record { world = sold_world; threads = done ∷ paid_state.threads })
after_sale =
    serve-Reach outside hold_ttl start_state paid_state (confirm_hold alice session) after_pay.1

abbrev sold_state : System
sold_state = record { world = sold_world; threads = after_sale.0 ∷ paid_state.threads }

held : HoldStore.get held_world.holds held_world.clock session ≡ ok first_hold
unfolding run exec serve opening Booking.hold Booking.claim lookup insert text_discrete reject_if
    has_seat has_row BookingStore.seat_confirmed any_confirmed BookingStore.new_booking_store
    validate HoldStore.hold HoldStore.is_full HoldStore.new_hold_store HoldStore.claim HoldStore.get
held = refl

bob_holds_nothing : is_own_live_hold held_world bob session ≡ false
unfolding run exec serve opening Booking.hold Booking.claim lookup insert text_discrete reject_if
    has_seat has_row BookingStore.seat_confirmed any_confirmed BookingStore.new_booking_store
    validate HoldStore.hold HoldStore.is_full HoldStore.new_hold_store HoldStore.claim HoldStore.get
bob_holds_nothing = refl

abbrev IntentFacts : Type 0
IntentFacts =
    (HoldStore.get intent_world.holds intent_world.clock session ≡ ok first_hold)
    × (before intent_world.clock 1300 ≡ true)
    × (last_active intent_world.payments session ≡ some first_payment)
    × (PaymentStore.get_active_by_session intent_world.payments session ≡ ok first_payment)
    × (intent_world.gateway.fail_capture ≡ none)
    × (lookup session intent_world.bookings.by_session ≡ none)
    × (any_confirmed (rows_at intent_world.bookings.by_seat (booking_key (draft first_hold)))
        ≡ false)

with_intent : IntentFacts
unfolding run exec serve opening Booking.hold Booking.claim lookup insert text_discrete reject_if
    has_seat has_row BookingStore.seat_confirmed any_confirmed BookingStore.new_booking_store
    validate HoldStore.hold HoldStore.is_full HoldStore.new_hold_store HoldStore.claim HoldStore.get
    when◌take◌otherwise◌ errors_is sentinel_discrete Payment.create_intent Payment.hold_gate
    Payment.reuse_or_mint Payment.mint Payment.priced Payment.minted Payment.inserted
    can_be_confirmed get_active_by_session last_active Gateway.create_intent insert_intent conflict
    seat_key itoa digits
with_intent = (refl, refl, refl, refl, refl, refl, refl)

abbrev PaidFacts : Type 0
PaidFacts =
    (HoldStore.get paid_world.holds paid_world.clock session ≡ ok first_hold)
    × (before paid_world.clock 1300 ≡ true)
    × (PaymentStore.has_captured_payment paid_world.payments session ≡ true)
    × (lookup session paid_world.bookings.by_session ≡ none)
    × (any_confirmed (rows_at paid_world.bookings.by_seat (booking_key (draft first_hold))) ≡ false)

with_payment : PaidFacts
unfolding run exec serve opening Booking.hold Booking.claim lookup insert text_discrete reject_if
    has_seat has_row BookingStore.seat_confirmed any_confirmed BookingStore.new_booking_store
    validate HoldStore.hold HoldStore.is_full HoldStore.new_hold_store HoldStore.claim HoldStore.get
    when◌take◌otherwise◌ errors_is sentinel_discrete Payment.create_intent Payment.hold_gate
    Payment.reuse_or_mint Payment.mint Payment.priced Payment.minted Payment.inserted
    can_be_confirmed get_active_by_session last_active Gateway.create_intent insert_intent conflict
    seat_key itoa digits Payment.confirm_by_client Payment.pay Payment.record_capture is_captured
    Gateway.capture_intent capture capture_row has_captured_payment
with_payment = (refl, refl, refl, refl, refl)

booked : BookingStore.get_by_session sold_world.bookings session ≡ ok first_booking
unfolding run exec serve opening Booking.hold Booking.claim lookup insert text_discrete reject_if
    has_seat has_row BookingStore.seat_confirmed any_confirmed BookingStore.new_booking_store
    validate HoldStore.hold HoldStore.is_full HoldStore.new_hold_store HoldStore.claim HoldStore.get
    when◌take◌otherwise◌ errors_is sentinel_discrete Payment.create_intent Payment.hold_gate
    Payment.reuse_or_mint Payment.mint Payment.priced Payment.minted Payment.inserted
    can_be_confirmed get_active_by_session last_active Gateway.create_intent insert_intent conflict
    seat_key itoa digits Payment.confirm_by_client Payment.pay Payment.record_capture is_captured
    Gateway.capture_intent capture capture_row has_captured_payment Booking.confirm Booking.finish
    Booking.cleanup_hold BookingStore.confirm BookingStore.record_sale BookingStore.get_by_session
    HoldStore.release HoldStore.give_up HoldStore.free_seat HoldStore.drop_session delete
booked = refl

one_sale_example : session ≡ session
one_sale_example =
    one_sale outside hold_ttl 1000 ((bytes "hall", hall) ∷ []) (pos 3) gateway sold_state
      after_sale.1 session session first_booking first_booking booked booked refl refl

paid_sale_example : PaymentStore.has_captured_payment sold_world.payments session ≡ true
paid_sale_example =
    paid_sale outside hold_ttl 1000 ((bytes "hall", hall) ∷ []) (pos 3) gateway sold_state
      after_sale.1 session first_booking booked

one_hold_example : session ≡ session
one_hold_example =
    one_hold outside hold_ttl 1000 ((bytes "hall", hall) ∷ []) (pos 3) gateway held_state
      after_hold.1 session session first_hold first_hold held held refl refl

one_payment_example :
    (active_count session paid_world.payments ≤ 1)
    × (intent_count (bytes "pi_fake_u2") paid_world.payments ≤ 1)
one_payment_example =
    one_payment outside hold_ttl 1000 ((bytes "hall", hall) ∷ []) (pos 3) gateway paid_state
      after_pay.1 session (bytes "pi_fake_u2")

intent-IsSound : Arbiter.IsSound intent_world.payments
intent-IsSound = record {
  one_active = λ sid.
      (one_payment outside hold_ttl 1000 ((bytes "hall", hall) ∷ []) (pos 3) gateway intent_state
        after_intent.1 sid []).0;
  one_row = λ iid.
      (one_payment outside hold_ttl 1000 ((bytes "hall", hall) ∷ []) (pos 3) gateway intent_state
        after_intent.1 [] iid).1;
}

checkout_sells_example :
    (run outside
      (confirm alice session)
      (run outside (confirm_by_client alice session) intent_world).1).0
    ≡ ok (record {
      booking = stamp (draft first_hold) (outside.uuid intent_world.minted) intent_world.clock;
      created = true;
    })
unfolding text_discrete
checkout_sells_example =
    checkout_sells outside intent_world alice session first_hold first_payment intent-IsSound
      with_intent.0 refl with_intent.1 with_intent.2 refl with_intent.4 with_intent.5 with_intent.6

replay_refused_example :
    run outside (confirm alice session) (run outside (confirm alice session) paid_world).1 ≡ (
      err (sentinel (booking_error hold_not_found)),
      (run outside (confirm alice session) paid_world).1,
    )
unfolding text_discrete
replay_refused_example =
    replay_refused outside paid_world alice session first_hold with_payment.0 refl with_payment.1
      with_payment.2 with_payment.3 with_payment.4

probe_learns_nothing_example :
    (run outside (confirm_handler (some bob) session) held_world ≡ (no_hold, held_world))
    × (run outside (payment_intent_handler (some bob) session) held_world ≡ (no_hold, held_world))
    × (run outside (payment_confirm_handler (some bob) session) held_world ≡ (no_hold, held_world))
probe_learns_nothing_example = probe_learns_nothing outside held_world bob session bob_holds_nothing
