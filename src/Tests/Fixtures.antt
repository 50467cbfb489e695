-- ===== src/Tests/Fixtures.antt =====
-- The data of the tests: one hall with two seats, one gateway, one day.
use booking_concurrent.Common.{◌+◌, [], ◌∷◌, none, some, Text, bytes, pos, false}
use booking_concurrent.Domain.Booking.{Time, Seat, Unicode, Hold}
use booking_concurrent.Domain.Movie.{Screening}
use booking_concurrent.Application.Ports.{WebhookEvent, event_captured}
use booking_concurrent.Gateway.{Codec, FakeGateway}
use booking_concurrent.World.{World, Outside}
use booking_concurrent.World.Run.{run}
use booking_concurrent.World.Threads.{System, serve, hold_seat, start_payment, pay, confirm_hold}
use booking_concurrent.World.Threads.Promises.{opening}

abbrev pub plain : Unicode
plain = record { upper = λ s. s; lower = λ s. s; trim = λ s. s }

abbrev pub seat_a1 : Seat
seat_a1 = record { row = bytes "A"; number = pos 1 }

abbrev pub hall : Screening
hall = record {
  id = bytes "hall";
  movie_id = bytes "film";
  starts_at = 5000;
  rows = bytes "A" ∷ [];
  seats_per_row = pos 2;
  price_cents = pos 1200;
  created_at = 0;
}

abbrev pub captured_event : WebhookEvent
captured_event = record { kind = event_captured; intent_id = bytes "pi"; amount_cents = pos 1200 }

abbrev pub codec : Codec
codec = record {
  hmac = λ secret text. bytes "mac";
  encode = λ ev. bytes "event";
  decode = λ body. some (captured_event, false);
}

abbrev pub outside : Outside
outside = record { uuid = λ n. b'u' ∷ (n + b'0') ∷ []; codec = codec }

abbrev pub gateway : FakeGateway
gateway = record { secret = bytes "secret"; fail_create = none; fail_capture = none }

abbrev pub alice : Text
alice = bytes "alice"

abbrev pub hold_ttl : Time
hold_ttl = 300

abbrev pub start_state : System
start_state = opening 1000 ((bytes "hall", hall) ∷ []) (pos 3) gateway

-- The session of the first hold.
abbrev pub session : Text
session = bytes "u0"

abbrev pub held_world : World
held_world =
    (run outside (serve hold_ttl (hold_seat alice (bytes "hall") seat_a1)) start_state.world).1

abbrev pub intent_world : World
intent_world = (run outside (serve hold_ttl (start_payment alice session)) held_world).1

abbrev pub paid_world : World
paid_world = (run outside (serve hold_ttl (pay alice session)) intent_world).1

abbrev pub sold_world : World
sold_world = (run outside (serve hold_ttl (confirm_hold alice session)) paid_world).1

abbrev pub first_hold : Hold
first_hold = record {
  session_id = session;
  screening_id = bytes "hall";
  seat = seat_a1;
  user_id = alice;
  hold_token = bytes "u1";
  expires_at = 1300;
}
