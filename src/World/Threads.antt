-- ===== src/World/Threads.antt =====
-- Requests in flight together: any of them makes its next port call, a new one arrives, or the
-- clock moves on.
pub mod Facts
pub mod Safety
pub mod Promises
use booking_concurrent.Common.{ℕ, ◌≤◌, ◌≡◌, Text, List, [], ◌∷◌, ◌++◌, Result}
use booking_concurrent.Common.Proc.{Proc, call, ret, bind}
use booking_concurrent.Domain.Booking.{Time, Seat, Hold}
use booking_concurrent.Domain.Payment.{Payment}
use booking_concurrent.Application.Ports.{Op, Reply, Events}
use booking_concurrent.Application.Booking.{ConfirmResult, SeatMapView}
use booking_concurrent.Application.Booking
use booking_concurrent.Application.Payment.{IntentResult, WebhookOutcome}
use booking_concurrent.Application.Payment
use booking_concurrent.World.{World, Outside, exec}

-- The routes of the API that lead to the booking and the payment service.
pub data Request : Type 0 where
  hold_seat : (user_id screening_id : Text) → Seat → Request
  confirm_hold release_hold : (user_id session_id : Text) → Request
  show_seat_map : (screening_id : Text) → Request
  start_payment pay : (user_id session_id : Text) → Request
  webhook : (raw_body signature : Text) → Request

pub data Answer : Type 0 where
  held : Result Hold → Answer
  confirmed : Result ConfirmResult → Answer
  released : Result (Unit {0}) → Answer
  seat_map : Result SeatMapView → Answer
  started : Result IntentResult → Answer
  paid : Result Payment → Answer
  handled : Result WebhookOutcome → Answer

-- The user that the access token names; a webhook has none.
abbrev pub user_of : Request → Text
user_of (hold_seat user_id screening_id seat) = user_id
user_of (confirm_hold user_id session_id) = user_id
user_of (release_hold user_id session_id) = user_id
user_of (show_seat_map screening_id) = []
user_of (start_payment user_id session_id) = user_id
user_of (pay user_id session_id) = user_id
user_of (webhook raw_body signature) = []

unfoldable pub serve : Time → Request → Proc Op Reply Answer
serve hold_ttl (hold_seat user_id screening_id seat) =
    bind (Booking.hold hold_ttl user_id screening_id seat) (λ r. ret (held r))
serve hold_ttl (confirm_hold user_id session_id) =
    bind (Booking.confirm user_id session_id) (λ r. ret (confirmed r))
serve hold_ttl (release_hold user_id session_id) =
    bind (Booking.release user_id session_id) (λ r. ret (released r))
serve hold_ttl (show_seat_map screening_id) =
    bind (Booking.seat_map screening_id) (λ r. ret (seat_map r))
serve hold_ttl (start_payment user_id session_id) =
    bind (Payment.create_intent user_id session_id) (λ r. ret (started r))
serve hold_ttl (pay user_id session_id) =
    bind (Payment.confirm_by_client user_id session_id) (λ r. ret (paid r))
serve hold_ttl (webhook raw_body signature) =
    bind (Payment.handle_webhook raw_body signature) (λ r. ret (handled r))

-- A request in flight: what it has called, latest first, and what it still does.
pub record Thread : Type 0 where
  pub user_id : Text
  pub past : Events
  pub rest : Proc Op Reply Answer

abbrev pub start : Time → Request → Thread
start hold_ttl r = record { user_id = user_of r; past = []; rest = serve hold_ttl r }

pub record System : Type 0 where
  pub world : World
  pub threads : List Thread

pub data Step (x : Outside) (hold_ttl : Time) (s t : System) : Type 0 where
  arrive :
      (r : Request) → t ≡ record s { threads = start hold_ttl r ∷ s.threads } → Step x hold_ttl s t
  tick :
      (now : Time)
      → s.world.clock ≤ now
      → t ≡ record s { world = record (s.world) { clock = now } }
      → Step x hold_ttl s t
  act :
      (others more : List Thread) (user_id : Text) (past : Events) (o : Op)
      (k : Reply o → Proc Op Reply Answer)
      → s.threads ≡ others ++ (record { user_id = user_id; past = past; rest = call o k } ∷ more)
      → t ≡ record {
        world = (exec x o (s.world)).1;
        threads =
            others
            ++ (record {
              user_id = user_id;
              past = (o, (exec x o (s.world)).0) ∷ past;
              rest = k (exec x o (s.world)).0;
            }
                ∷ more);
      }
      → Step x hold_ttl s t

pub data Reach (x : Outside) (hold_ttl : Time) (s : System) : System → Type 0 where
  here : Reach x hold_ttl s s
  then_step : {t u : System} → Reach x hold_ttl s t → Step x hold_ttl t u → Reach x hold_ttl s u
