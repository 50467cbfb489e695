-- ===== src/Tests/Holds.antt =====
-- The hold store over a server in memory, at one seat and two sessions.
use booking_concurrent.Common.{
  ℕ, ◌+◌, ◌*◌, ◌-◌, ◌≤◌, ◌≡◌, ◌≢◌, ◌↔◌, refl, true, false, some, none, [], List, false, Text, bytes,
  text_discrete, int_discrete, ok, err, sentinel, booking_error, hold_not_found, arith, pos, ℤ,
  length,
}
use booking_concurrent.Common.Dict.{Dict, lookup, insert}
use booking_concurrent.Domain.Booking.{Time, Seat, Hold, can_be_confirmed, validate, all_letters}
use booking_concurrent.Domain.Booking.Seats.{IsSeat}
use booking_concurrent.Domain.Movie.Grid.{contains}
use booking_concurrent.Memory.SeatKey.{seat_key, parse_seat_key}
use booking_concurrent.Redis.Server.{second, put_all, is_literal}
use booking_concurrent.Common.Trip.{answered}
use booking_concurrent.Redis.HoldStore.{
  Keyspace, user_holds_key, hold, release, get, held_seats, epoch, hold_script, run_hold,
  hold_answer, is_full, write_session, session_key, session_fields, ttl_seconds, unix,
}
use booking_concurrent.Redis.HoldStore.Claims.{IsSound, token_at, session_at}
use booking_concurrent.Redis.HoldStore.Safety
use booking_concurrent.Redis.HoldStore.Safety.{Reached, start, held, wait}
use booking_concurrent.Redis.HoldStore.Windows
use booking_concurrent.Redis.HoldStore.Windows.{whole_second}
use booking_concurrent.Redis.HoldStore.Listing
use booking_concurrent.Redis.HoldStore.Residue
use booking_concurrent.Tests.Fixtures.{seat_a1, plain}
use booking_concurrent.Tests.Server.{server}

abbrev Keys : Type 0
Keys = Keyspace (Dict (Text × Time)) (Dict (Dict Text × Time)) (Dict (Dict ℤ))

abbrev no_keys : Keys
no_keys = record { strings = []; hashes = []; zsets = [] }

abbrev noon : Time
noon = epoch * second

-- Ten minutes and a half of a second.
abbrev seat_hold : Hold
seat_hold = record {
  session_id = bytes "s";
  screening_id = bytes "hall";
  seat = seat_a1;
  user_id = bytes "ann";
  hold_token = bytes "t";
  expires_at = (epoch + 600) * second + 500_000_000;
}

abbrev one_key : Keys
one_key = (hold server (pos 4) answered no_keys noon noon noon seat_hold).1

seat_a1-IsSeat : IsSeat seat_a1
seat_a1-IsSeat = record {
  letters = unfold all_letters in refl;
  some_letter = λ e. cc;
  at_most_three = omega arith;
  counted = refl;
}

grant : (hold server (pos 4) answered no_keys noon noon noon seat_hold).0 ≡ ok tt
unfolding hold run_hold hold_script hold_answer is_full validate text_discrete ttl_seconds lookup
grant = refl

get-hold_granted_example :
    (get server plain false one_key (noon + second) (bytes "s")
      ≡ ok (record seat_hold { expires_at = whole_second seat_hold.expires_at }))
    × (server.get one_key.strings (noon + second) (seat_key (bytes "hall") seat_a1)
        ≡ some (bytes "t"))
get-hold_granted_example =
    Windows.get-hold_granted server plain (pos 4) answered no_keys noon noon noon (noon + second)
      seat_hold seat_a1-IsSeat (omega arith) (unfold unix in omega arith) (omega arith) grant
      (omega arith) (omega arith)

-- The store's first call.
one_key-Reached : Reached server (pos 4) noon one_key
one_key-Reached =
    held noon no_keys one_key answered noon noon seat_hold refl
      (start noon no_keys (λ t sid. unfold lookup in refl))

reached-IsSound_example : IsSound server (noon + second) one_key
reached-IsSound_example =
    Safety.reached-IsSound server (pos 4) (noon + second) one_key
      (wait noon (noon + second) one_key (omega arith) one_key-Reached)

-- The key as another session left it: the token is not the session's.
abbrev stolen : Keys
stolen = record one_key {
  strings = insert (seat_key (bytes "hall") seat_a1) (bytes "q", noon + 9 * second) [];
}

stolen_seat : server.get stolen.strings noon (seat_key (bytes "hall") seat_a1) ≡ some (bytes "q")
unfolding insert lookup seat_key text_discrete booking_concurrent.Common.Decimal.itoa
stolen_seat = refl

late_token : token_at server stolen noon (bytes "s") ≡ some (bytes "t")
unfolding hold run_hold hold_script is_full validate text_discrete ttl_seconds lookup write_session
    insert seat_key put_all session_fields session_key
late_token = refl

get-release_example :
    server.get
      (release server answered stolen noon (bytes "s") (bytes "ann")).1.strings
      (noon + second)
      (seat_key (bytes "hall") seat_a1)
    ≡ server.get stolen.strings (noon + second) (seat_key (bytes "hall") seat_a1)
get-release_example =
    Safety.get-release server answered stolen noon (noon + second) (bytes "s") (bytes "ann")
      (seat_key (bytes "hall") seat_a1) (bytes "q") (omega arith) stolen_seat
      (λ e. ground (arith, late_token))

hold_granted-ends_example :
    (get server plain false one_key (noon + 602 * second) (bytes "s")
      ≡ err (sentinel (booking_error hold_not_found)))
    × (server.get one_key.strings (noon + 602 * second) (seat_key (bytes "hall") seat_a1) ≡ none)
hold_granted-ends_example =
    Windows.hold_granted-ends server plain (pos 4) answered no_keys noon noon noon
      (noon + 602 * second) seat_hold (omega arith) grant (omega arith)

get-expires_early_example :
    (g : Hold) × (get server plain false one_key (noon + 600 * second) (bytes "s") ≡ ok g)
    × (can_be_confirmed g (noon + 600 * second) ≡ false)
    × (can_be_confirmed seat_hold (noon + 600 * second) ≡ true)
get-expires_early_example =
    Windows.get-expires_early server plain (pos 4) answered no_keys noon noon noon
      (noon + 600 * second) seat_hold seat_a1-IsSeat (omega arith) (unfold unix in omega arith)
      (omega arith) grant (omega arith) (omega arith) (omega arith)

held_seats_iff_example :
    (seats : List Seat) × (held_seats server plain false one_key noon (bytes "hall") ≡ ok seats)
    × ((contains seat_a1 seats ≡ true) ↔ (
        (k : Text) × (w : Text) × (server.get one_key.strings noon k ≡ some w)
        × (parse_seat_key plain (bytes "hall") k ≡ some seat_a1)))
held_seats_iff_example =
    Listing.held_seats_iff server plain one_key noon (bytes "hall") seat_a1
      (unfold is_literal in refl)

onward-IsLimited_example : Listing.IsLimited server 4 one_key
onward-IsLimited_example =
    Residue.onward-IsLimited server 4 noon no_keys noon one_key
      (λ uid. unfold lookup in omega arith)
      (Residue.held noon no_keys one_key answered noon noon seat_hold refl Residue.here)

ann_full : is_full server (pos 1) one_key (bytes "ann") ≡ true
unfolding hold run_hold hold_script is_full validate text_discrete ttl_seconds lookup write_session
    insert user_holds_key
ann_full = refl

ann_gone :
    (t : Time) (sid : Text)
    → noon + 601 * second ≤ t
    → lookup (bytes "user_id") (session_at server one_key t sid) ≢ some (bytes "ann")
unfolding hold run_hold hold_script is_full validate text_discrete ttl_seconds lookup write_session
    insert put_all session_fields
ann_gone t sid late e = ground arith

abbrev next_hold : Hold
next_hold = record seat_hold { session_id = bytes "n"; expires_at = noon + 2000 * second }

hold-locked_example :
    (hold server
      (pos 1)
      answered
      one_key
      (noon + 700 * second)
      (noon + 700 * second)
      (noon + 700 * second)
      next_hold).0
    ≢ ok tt
hold-locked_example =
    Residue.hold-locked server (pos 1) (bytes "ann") (noon + 601 * second) (noon + 700 * second)
      one_key one_key answered (noon + 700 * second) (noon + 700 * second) next_hold ann_full
      ann_gone
      (Residue.wait (noon + 601 * second) (noon + 700 * second) one_key (omega arith) Residue.here)
      refl
