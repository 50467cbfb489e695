-- ===== src/World/Threads/Promises.antt =====
-- The states that requests on the adapters of internal/adapters/memory can reach from empty stores.
use booking_concurrent.Common.{◌≤◌, ◌≡◌, inl, inr, Option-cases, true, some, arith, [], Text, ok, ℤ}
use booking_concurrent.Common.Dict.{Dict, lookup}
use booking_concurrent.Domain.Booking.{Time, Hold, Booking, before}
use booking_concurrent.Domain.Movie.{Screening}
use booking_concurrent.Memory.HoldStore
use booking_concurrent.Memory.HoldStore.{new_hold_store}
use booking_concurrent.Memory.HoldStore.Claims
use booking_concurrent.Memory.BookingStore
use booking_concurrent.Memory.BookingStore.{new_booking_store}
use booking_concurrent.Memory.BookingStore.Sales
use booking_concurrent.Memory.PaymentStore
use booking_concurrent.Memory.PaymentStore.Arbiter
use booking_concurrent.Memory.PaymentStore.Arbiter.{active_count, intent_count}
use booking_concurrent.Gateway.{FakeGateway}
use booking_concurrent.World.{World, Outside}
use booking_concurrent.World.Threads.{System, Reach}
use booking_concurrent.World.Threads.Safety.{IsSafe, reach-IsSafe}

-- The services over new in-memory adapters: no hold, no booking, no payment.
unfoldable pub opening : Time → Dict Screening → ℤ → FakeGateway → System
opening time screenings max_holds gateway = record {
  world = record {
    clock = time;
    minted = 0;
    screenings = screenings;
    holds = new_hold_store max_holds;
    bookings = new_booking_store;
    payments = [];
    gateway = gateway;
  };
  threads = [];
}

found_hold :
    (w : World) (sid : Text) (h : Hold)
    → HoldStore.get w.holds w.clock sid ≡ ok h
    → (lookup sid w.holds.sessions ≡ some h) × (before w.clock h.expires_at ≡ true)
unfolding HoldStore.get
found_hold w sid h e = elim (Option-cases (lookup sid w.holds.sessions)) [
  | inl n ↦ absurd (ground arith)
  | inr (g, n) ↦ ground arith
]

found_booking :
    (w : World) (sid : Text) (b : Booking)
    → BookingStore.get_by_session w.bookings sid ≡ ok b
    → lookup sid w.bookings.by_session ≡ some b
unfolding BookingStore.get_by_session
found_booking w sid b e = elim (Option-cases (lookup sid w.bookings.by_session)) [
  | inl n ↦ absurd (ground arith)
  | inr (g, n) ↦ ground arith
]

module _ (x : Outside) (hold_ttl time : Time) (screenings : Dict Screening) (max_holds : ℤ)
    (gateway : FakeGateway) where
  safe : (s : System) → Reach x hold_ttl (opening time screenings max_holds gateway) s → IsSafe s
  unfolding opening new_booking_store lookup Arbiter.active_count Arbiter.intent_count
  safe s run = reach-IsSafe x hold_ttl _ s run (record {
    sound = record {
      holds = Claims.new-IsSound time max_holds;
      bookings = Sales.new-IsSound;
      payments = record { one_active = λ sid. omega arith; one_row = λ iid. omega arith };
    };
    paid = λ sid b e. cc;
    orderly = tt;
  })

  -- No seat is sold twice: in every reachable state, two bookings of one seat of one screening are
  -- the booking of one session.
  pub one_sale :
      (s : System)
      → Reach x hold_ttl (opening time screenings max_holds gateway) s
      → (m n : Text) (a b : Booking) → BookingStore.get_by_session s.world.bookings m ≡ ok a
      → BookingStore.get_by_session s.world.bookings n ≡ ok b
      → a.screening_id ≡ b.screening_id
      → a.seat ≡ b.seat
      → m ≡ n
  one_sale s run m n a b p q same_screening same_seat =
      let v = safe s run in
      v.sound.bookings.exclusive m n a b (found_booking s.world _ _ p) (found_booking s.world _ _ q)
        (v.sound.bookings.confirmed m a (found_booking s.world _ _ p))
        (v.sound.bookings.confirmed n b (found_booking s.world _ _ q)) cc

  -- No seat is held twice: in every reachable state, two live holds of one seat of one screening
  -- are the hold of one session.
  pub one_hold :
      (s : System)
      → Reach x hold_ttl (opening time screenings max_holds gateway) s
      → (m n : Text) (g h : Hold) → HoldStore.get s.world.holds s.world.clock m ≡ ok g
      → HoldStore.get s.world.holds s.world.clock n ≡ ok h
      → g.screening_id ≡ h.screening_id
      → g.seat ≡ h.seat
      → m ≡ n
  one_hold s run m n g h p q same_screening same_seat =
      let v = safe s run in
      v.sound.holds.exclusive m n g h (found_hold s.world _ _ p).0 (found_hold s.world _ _ q).0
        (found_hold s.world _ _ p).1 (found_hold s.world _ _ q).1 cc

  -- No sale without payment: in every reachable state, the session of every booking has a captured
  -- payment.
  pub paid_sale :
      (s : System)
      → Reach x hold_ttl (opening time screenings max_holds gateway) s
      → (m : Text) (b : Booking) → BookingStore.get_by_session s.world.bookings m ≡ ok b
      → PaymentStore.has_captured_payment s.world.payments m ≡ true
  paid_sale s run m b p = (safe s run).paid m b (found_booking s.world _ _ p)

  -- No session pays twice at once: in every reachable state a session has at most one payment that
  -- is neither failed nor refunded, and an intent at most one row.
  pub one_payment :
      (s : System)
      → Reach x hold_ttl (opening time screenings max_holds gateway) s
      → (session_id intent_id : Text)
      → (active_count session_id s.world.payments ≤ 1)
        × (intent_count intent_id s.world.payments ≤ 1)
  one_payment s run m i =
      let v = safe s run in (v.sound.payments.one_active m, v.sound.payments.one_row i)
