-- ===== src/Tests/Database.antt =====
-- The repositories over PostgreSQL, at one booking, one payment, one account and one token.
use booking_concurrent.Common.{
  ◌≤◌, ◌≡◌, refl, true, false, none, some, List, [], ◌∷◌, bytes, text_discrete, ok, err, sentinel,
  user_error, refresh_token_reused, pos, arith, ◌⊎◌, ◌*◌, ◌/◌, ℕ, ◌+◌, ◌&&◌, leb, map,
  if◌then◌else◌,
}
use booking_concurrent.Common.Trip.{answered, unanswered}
use booking_concurrent.Common.Dict.{lookup}
use booking_concurrent.Domain.Booking.{Booking, Status, all_letters}
use booking_concurrent.Domain.Booking.Seats.{IsSeat}
use booking_concurrent.Domain.Payment.{Payment, intent, captured}
use booking_concurrent.Domain.User.{RefreshToken}
use booking_concurrent.Memory.BookingStore
use booking_concurrent.Memory.BookingStore.{new_booking_store, rows_at, any_confirmed}
use booking_concurrent.Memory.PaymentStore.Arbiter.{IsSound, active_count, intent_count}
use booking_concurrent.Memory.RefreshTokenStore
use booking_concurrent.Postgres.Bookings
use booking_concurrent.Postgres.Bookings.{Outside, Faults, Database}
use booking_concurrent.Postgres.Bookings.Outbox
use booking_concurrent.Postgres.Bookings.Outbox.{IsQueued}
use booking_concurrent.Postgres.Bookings.Refinement
use booking_concurrent.Postgres.Bookings.Rows
use booking_concurrent.Postgres.Bookings.Races as Sales
use booking_concurrent.Postgres.Bookings.Races.{Attempt, IsSold}
use booking_concurrent.Postgres.Payments
use booking_concurrent.Postgres.Payments.Agreement
use booking_concurrent.Postgres.Payments.Races
use booking_concurrent.Postgres.Payments.Histories
use booking_concurrent.Postgres.Payments.Races.{
  Statement, insert, capture_of, failure_of, move_count, has_open,
}
use booking_concurrent.Postgres.Sql.{Columns}
use booking_concurrent.Postgres.Tokens
use booking_concurrent.Postgres.Tokens.Agreement as Ledger
use booking_concurrent.Postgres.Tokens.Agreement.{index}
use booking_concurrent.Postgres.Tokens.Failures
use booking_concurrent.Postgres.Tokens.Failures.{Outcome}
use booking_concurrent.Tests.Fixtures.{seat_a1, session, alice}

abbrev lower : ℕ → ℕ
lower c = if leb 65 c && leb c 90 then c + 32 else c

-- A text reads as its lower case, and an instant comes back to the microsecond.
abbrev columns : Columns
columns = record { uuid = λ t. some (map lower t); parsed = some; instant = λ t. t / 1000 * 1000 }

abbrev around : Outside
around = record {
  columns = columns;
  encode = λ p. some p.booking_id;
  refers = λ screening_id user_id. true;
  seat_first = true;
  order_by_row_number = λ seats. seats;
}

abbrev empty_database : Database
empty_database = record { bookings = []; outbox = [] }

abbrev sale : Booking
sale = record {
  id = [];
  session_id = session;
  screening_id = bytes "hall";
  seat = seat_a1;
  user_id = alice;
  status = Status.confirmed;
  confirmed_at = 0;
}

-- The commit is done, and its answer is lost.
abbrev lost_answer : Faults
lost_answer = record {
  at_begin = false;
  at_insert = false;
  at_outbox = false;
  at_commit = unanswered;
}

empty_database-IsQueued : IsQueued around empty_database
empty_database-IsQueued = record { payloads = refl; labelled = refl }

confirm-IsQueued_example :
    IsQueued around
      (Bookings.confirm around lost_answer empty_database 7 (bytes "b") (bytes "e") sale).1
confirm-IsQueued_example =
    Outbox.confirm-IsQueued around lost_answer empty_database 7 (bytes "b") (bytes "e") sale
      empty_database-IsQueued

nothing_sold : Rows.Agrees columns [] new_booking_store
unfolding new_booking_store lookup Bookings.booking_by_session Bookings.exists_confirmed_seat
    BookingStore.seat_confirmed any_confirmed
nothing_sold = record { sessions = λ sid. refl; seats = λ sc seat v w canonical. refl }

seat_a1-IsSeat : IsSeat seat_a1
seat_a1-IsSeat = record {
  letters = unfold all_letters in refl;
  some_letter = λ e. cc;
  at_most_three = omega arith;
  counted = refl;
}

no_event : Bookings.has_event [] (bytes "e") ≡ false
unfolding Bookings.has_event
no_event = refl

-- The same sale, with the screening's id in capitals.
abbrev sale_in_capitals : Booking
sale_in_capitals = record sale { screening_id = bytes "HALL" }

confirm-refines_example :
    Refinement.SameOutcome
      (Bookings.confirm around Refinement.no_faults empty_database 7
        (bytes "b")
        (bytes "e")
        sale_in_capitals).0
      (BookingStore.confirm new_booking_store 7
        (bytes "b")
        (Refinement.under_ids (bytes "hall") alice sale_in_capitals)).0
    × Rows.Agrees columns
        (Bookings.confirm around Refinement.no_faults empty_database 7
          (bytes "b")
          (bytes "e")
          sale_in_capitals).1.bookings
        (BookingStore.confirm new_booking_store 7
          (bytes "b")
          (Refinement.under_ids (bytes "hall") alice sale_in_capitals)).1
confirm-refines_example =
    Refinement.confirm-refines around empty_database new_booking_store 7 (bytes "b") (bytes "e")
      (bytes "b") sale_in_capitals (bytes "hall") alice nothing_sold seat_a1-IsSeat (omega arith)
      refl refl refl refl refl no_event

-- Two buyers of one seat; the first never hears that it was sold to him.
abbrev attempts : List Attempt
attempts =
    record { faults = lost_answer; now = 7; id = bytes "b"; event_id = bytes "e"; row = sale }
    ∷ record {
      faults = Refinement.no_faults;
      now = 8;
      id = bytes "c";
      event_id = bytes "f";
      row = record sale { session_id = bytes "v" };
    }
    ∷ []

unsold : IsSold []
unfolding Sales.seat_count Sales.session_count
unsold = record { seats = λ sc seat. omega arith; sessions = λ sid. omega arith }

after-IsSold_example : IsSold (Sales.after around empty_database attempts).bookings
after-IsSold_example = Sales.after-IsSold around empty_database attempts unsold

abbrev open_payment : Payment
open_payment = record {
  id = bytes "p";
  booking_session_id = session;
  gateway = bytes "fake";
  intent_id = bytes "pi";
  status = intent;
  amount_cents = pos 1200;
  currency = bytes "usd";
  created_at = 0;
  updated_at = 0;
}

abbrev statements : List Statement
statements =
    insert true 1 (bytes "p") open_payment
    ∷ capture_of 2 (bytes "pi")
    ∷ failure_of 3 (bytes "pi")
    ∷ capture_of 4 (bytes "pi")
    ∷ []

no_payment-IsSound : IsSound []
unfolding active_count intent_count
no_payment-IsSound = record { one_active = λ sid. omega arith; one_row = λ iid. omega arith }

after_all-Agrees_example : Agreement.Agrees (Histories.after_all statements [])
after_all-Agrees_example = Histories.after_all-Agrees statements [] no_payment-IsSound

move_count-le-one_example : move_count (bytes "pi") statements [] ≤ 1
move_count-le-one_example = Races.move_count-le-one (bytes "pi") statements []

abbrev paid_row : Payment
paid_row = record open_payment { status = captured; updated_at = 5 }

captured_now :
    (Payments.capture answered false (λ rows. []) (open_payment ∷ []) 5 (bytes "pi")).0
    ≡ ok (paid_row, true)
unfolding Payments.capture Payments.capture_payment Payments.update_open text_discrete
captured_now = refl

capture-truthful_example :
    (paid_row.status ≡ captured)
    × (bytes "pi" ≡ bytes "pi")
    × (true ≡ has_open (open_payment ∷ []) (bytes "pi"))
capture-truthful_example =
    Races.capture-truthful answered false (λ rows. []) (open_payment ∷ []) 5 (bytes "pi") paid_row
      true captured_now

abbrev live_token : RefreshToken
live_token = record {
  id = bytes "t0";
  user_id = alice;
  family_id = bytes "f";
  token_hash = bytes "h0";
  expires_at = 900;
  created_at = 0;
  revoked_at = none;
  replaced_by = [];
}

abbrev next_token : RefreshToken
next_token = record live_token { id = bytes "t1"; token_hash = bytes "h1" }

new_token : Tokens.is_taken (live_token ∷ []) (bytes "t1") (bytes "h1") ≡ false
unfolding Tokens.is_taken text_discrete
new_token = refl

rotate-refines_example :
    ((Tokens.rotate columns Ledger.no_faults (live_token ∷ []) 5 6 (bytes "h0") next_token).0
      ≡ (RefreshTokenStore.rotate
          (index (live_token ∷ []))
          5
          (bytes "h0")
          (Ledger.as_stored columns next_token 6)).0)
    × ((index
            (Tokens.rotate columns Ledger.no_faults (live_token ∷ []) 5 6 (bytes "h0") next_token).1
          ≡ (RefreshTokenStore.rotate
              (index (live_token ∷ []))
              5
              (bytes "h0")
              (Ledger.as_stored columns next_token 6)).1)
        ⊎ (((Tokens.rotate columns Ledger.no_faults (live_token ∷ []) 5 6 (bytes "h0") next_token).0
              ≡ err (sentinel (user_error refresh_token_reused)))
            × (index
                  (Tokens.rotate columns Ledger.no_faults
                    (live_token ∷ [])
                    5
                    6
                    (bytes "h0")
                    next_token).1
                ≡ (RefreshTokenStore.rotate
                    (index (live_token ∷ []))
                    6
                    (bytes "h0")
                    (Ledger.as_stored columns next_token 6)).1)))
rotate-refines_example =
    Ledger.rotate-refines columns (live_token ∷ []) 5 6 (bytes "h0") next_token (tt, tt) refl refl
      new_token

abbrev lost_rotation : Tokens.Faults
lost_rotation = record Ledger.no_faults { at_commit = unanswered }

rotate-Outcome_example :
    Outcome
      (live_token ∷ [])
      (Tokens.rotate columns Ledger.no_faults (live_token ∷ []) 5 6 (bytes "h0") next_token)
      (Tokens.rotate columns lost_rotation (live_token ∷ []) 5 6 (bytes "h0") next_token)
rotate-Outcome_example =
    Failures.rotate-Outcome columns lost_rotation (live_token ∷ []) 5 6 (bytes "h0") next_token
