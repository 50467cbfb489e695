-- ===== src/Redis/HoldStore.antt =====
-- internal/adapters/redis/holdstore.go: the keys, the two scripts and the methods of the store.
-- A method takes the instants at which its clocks are read: the process's own, and the server's
-- when the script runs.
pub mod Keys
pub mod Claims
pub mod Calls
pub mod Safety
pub mod Windows
pub mod Listing
pub mod Residue
use booking_concurrent.Common.{
  ℕ, ◌+◌, ◌-◌, ◌*◌, ◌/◌, Bool, true, false, not, List, [], ◌∷◌, ◌++◌, Option, none, some,
  if◌then◌else◌, ltb, leb, Text, text_eq, bytes, length, ℤ, pos, negsuc, int_lt, Result, ok, err,
  Error, sentinel, message, wrap, booking_error, hold_limit_exceeded, seat_already_held,
  hold_not_found, not_hold_owner,
}
use booking_concurrent.Common.Dict.{Dict, lookup}
use booking_concurrent.Common.Decimal.{itoa, parse_int}
use booking_concurrent.Common.Trip.{Trip, answered, unsent, unanswered}
use booking_concurrent.Domain.Booking.{Time, Seat, Unicode, new_seat, Hold, validate}
use booking_concurrent.Memory.SeatKey.{seat_key, parse_seat_key}
use booking_concurrent.Redis.Server.{Redis, second}

abbrev pub global_holds_key : Text
global_holds_key = bytes "holds:expiring"

unfoldable pub session_key : Text → Text
session_key session_id = bytes "session:" ++ session_id

unfoldable pub user_holds_key : Text → Text
user_holds_key user_id = bytes "user:" ++ (user_id ++ bytes ":holds")

-- The keys of the server, of the three kinds that the store uses.
pub record Keyspace (A B C : Type 0) : Type 0 where
  pub strings : A
  pub hashes : B
  pub zsets : C

-- The seconds from year 1 to 1970.
abbrev pub epoch : ℕ
epoch = 62_135_596_800

-- `t.Unix()`
unfoldable pub unix : Time → ℤ
unix t =
    if leb epoch (t / second) then pos (t / second - epoch) else negsuc (epoch - t / second - 1)

-- `time.Unix(sec, 0)`. An instant before year 1 is not told from year 1.
unfoldable pub from_unix : ℤ → Time
from_unix (pos n) = (n + epoch) * second
from_unix (negsuc n) = (epoch - n - 1) * second

-- The lifetime, up to whole seconds. A negative one is 0 here, and is refused as 0 is.
unfoldable pub ttl_seconds : Time → Time → ℕ
ttl_seconds expires_at now =
    let ttl = expires_at - now in
    if ltb (ttl / second * second) ttl then ttl / second + 1 else ttl / second

-- The fields of a session's hash.
unfoldable pub session_fields : Hold → Dict Text
session_fields h =
    (bytes "screening_id", h.screening_id)
    ∷ (bytes "row", h.seat.row)
    ∷ (bytes "num", itoa h.seat.number)
    ∷ (bytes "user_id", h.user_id)
    ∷ (bytes "hold_token", h.hold_token)
    ∷ (bytes "expires_at", itoa (unix h.expires_at))
    ∷ []

-- `fields[name]`, which is empty where the field is missing.
abbrev pub field : Text → Dict Text → Text
field name fields = elim (lookup name fields) [ none ↦ [] | some v ↦ v ]

unfoldable pub hold_of_fields : Unicode → Text → Dict Text → Result Hold
hold_of_fields u session_id fields = elim (parse_int (field (bytes "num") fields)) [
  | none ↦ err (
      wrap (bytes "booking: corrupt session payload (num=%q): %w") (message (bytes "strconv.Atoi")))
  | some num ↦ elim (parse_int (field (bytes "expires_at") fields)) [
    | none ↦ err (
        wrap (bytes "booking: corrupt session payload (expires_at=%q): %w")
          (message (bytes "strconv.ParseInt")))
    | some expires ↦ elim (new_seat u (field (bytes "row") fields) num) [
      | err e ↦ err (wrap (bytes "booking: corrupt session payload: %w") e)
      | ok seat ↦ ok (record {
        session_id = session_id;
        screening_id = field (bytes "screening_id") fields;
        seat = seat;
        user_id = field (bytes "user_id") fields;
        hold_token = field (bytes "hold_token") fields;
        expires_at = from_unix expires;
      })
    ]
  ]
]

-- The loop of `HeldSeats`: a key that is no seat key is passed over.
unfoldable pub seats_of : Unicode → Text → List Text → List Seat
seats_of u screening_id [] = []
seats_of u screening_id (k ∷ ks) = elim (parse_seat_key u screening_id k) [
  | none ↦ seats_of u screening_id ks
  | some seat ↦ seat ∷ seats_of u screening_id ks
]

-- The name of the seat's key that the release script puts together, where no field is missing.
unfoldable pub seat_key_of_fields : Dict Text → Option Text
seat_key_of_fields fields = elim (lookup (bytes "screening_id") fields) [
  | none ↦ none
  | some screening ↦ elim (lookup (bytes "row") fields) [
    | none ↦ none
    | some row ↦ elim (lookup (bytes "num") fields) [
      | none ↦ none
      | some num ↦ some (bytes "seat:" ++ (screening ++ (b':' ∷ (row ++ (b':' ∷ num)))))
    ]
  ]
]

abbrev pub same_token : Option Text → Option Text → Bool
same_token none none = true
same_token (some a) (some b) = text_eq a b
same_token none (some _) = false
same_token (some _) none = false

-- `switch res` of `Hold`.
unfoldable pub hold_answer : Text → Result (Unit {0})
hold_answer res =
    if text_eq res (bytes "OK")
    then ok tt
    else if text_eq res (bytes "LIMIT")
    then err (sentinel (booking_error hold_limit_exceeded))
    else if text_eq res (bytes "TAKEN")
    then err (sentinel (booking_error seat_already_held))
    else err (message (bytes "booking: hold script returned unexpected result %q"))

-- `switch res` of `Release`; an error inside the script has no answer.
unfoldable pub release_answer : Option Text → Result (Unit {0})
release_answer none = err (message (bytes "booking: release script: %w"))
release_answer (some res) =
    if text_eq res (bytes "OK")
    then ok tt
    else if text_eq res (bytes "NOT_FOUND")
    then err (sentinel (booking_error hold_not_found))
    else if text_eq res (bytes "NOT_OWNER")
    then err (sentinel (booking_error not_hold_owner))
    else err (message (bytes "booking: release script returned unexpected result %q"))

module _ {A B C : Type 0} (r : Redis A B C) where
  -- What the hold script writes beside the seat's key.
  unfoldable pub write_session : Keyspace A B C → A → Time → Hold → ℕ → Keyspace A B C
  write_session s strings at h ttl = record {
    strings = strings;
    hashes = r.hset_expire s.hashes at (session_key h.session_id) (session_fields h) ttl;
    zsets =
        r.zadd (r.zadd s.zsets (user_holds_key h.user_id) (unix h.expires_at) h.session_id)
          global_holds_key (unix h.expires_at) h.session_id;
  }

  -- `ZCARD >= max`
  unfoldable pub is_full : ℤ → Keyspace A B C → Text → Bool
  is_full max_holds s user_id =
      not (int_lt (pos (length (r.zset s.zsets (user_holds_key user_id)))) max_holds)

  unfoldable pub hold_script : ℤ → Keyspace A B C → Time → Hold → ℕ → Text × Keyspace A B C
  hold_script max_holds s at h ttl =
      if is_full max_holds s h.user_id
      then (bytes "LIMIT", s)
      else elim (r.set_nx_ex s.strings at (seat_key h.screening_id h.seat) h.hold_token ttl) [
        | none ↦ (bytes "TAKEN", s)
        | some strings ↦ (bytes "OK", write_session s strings at h ttl)
      ]

  -- The call of the script, and `switch res`.
  unfoldable pub run_hold :
      ℤ → Trip → Keyspace A B C → Time → Hold → ℕ → Result (Unit {0}) × Keyspace A B C
  run_hold max_holds trip s at h ttl = elim trip [
    | unsent ↦ (err (message (bytes "booking: hold script: %w")), s)
    | unanswered ↦
        (err (message (bytes "booking: hold script: %w")), (hold_script max_holds s at h ttl).1)
    | answered ↦
        (hold_answer (hold_script max_holds s at h ttl).0, (hold_script max_holds s at h ttl).1)
  ]

  unfoldable pub hold :
      ℤ
      → Trip
      → Keyspace A B C
      → (validated until at : Time) → Hold
      → Result (Unit {0}) × Keyspace A B C
  hold max_holds trip s validated until at h = elim (validate h validated) [
    | err e ↦ (err e, s)
    | ok _ ↦
        if ltb (ttl_seconds h.expires_at until) 1
        then (err (message (bytes "booking: hold expired before it could be written")), s)
        else run_hold max_holds trip s at h (ttl_seconds h.expires_at until)
  ]

  -- What the release script deletes.
  unfoldable pub tear_down :
      Keyspace A B C → Time → Text → Text → (token : Option Text) → (seat : Text) → Keyspace A B C
  tear_down s at session_id user_id token seat = record {
    strings =
        if same_token (r.get s.strings at seat) token then r.del s.strings at seat else s.strings;
    hashes = r.hdel s.hashes at (session_key session_id);
    zsets = r.zrem (r.zrem s.zsets (user_holds_key user_id) session_id) global_holds_key session_id;
  }

  unfoldable pub release_script : Keyspace A B C → Time → Text → Text → Option Text × Keyspace A B C
  release_script s at session_id user_id =
      let fields = r.hgetall s.hashes at (session_key session_id) in
      elim (lookup (bytes "user_id") fields) [
        | none ↦ (some (bytes "NOT_FOUND"), s)
        | some owner ↦
            if not (text_eq owner user_id)
            then (some (bytes "NOT_OWNER"), s)
            else elim (seat_key_of_fields fields) [
              | none ↦ (none, s)
              | some seat ↦ (
                some (bytes "OK"),
                tear_down s at session_id user_id (lookup (bytes "hold_token") fields) seat,
              )
            ]
      ]

  unfoldable pub release :
      Trip → Keyspace A B C → Time → Text → Text → Result (Unit {0}) × Keyspace A B C
  release trip s at session_id user_id = elim trip [
    | unsent ↦ (err (message (bytes "booking: release script: %w")), s)
    | unanswered ↦ (
      err (message (bytes "booking: release script: %w")),
      (release_script s at session_id user_id).1,
    )
    | answered ↦ (
      release_answer (release_script s at session_id user_id).0,
      (release_script s at session_id user_id).1,
    )
  ]

  -- A read says whether the server was out of reach.
  unfoldable pub get : Unicode → Bool → Keyspace A B C → Time → Text → Result Hold
  get u down s at session_id =
      if down
      then err (message (bytes "booking: read session: %w"))
      else elim (r.hgetall s.hashes at (session_key session_id)) [
        | [] ↦ err (sentinel (booking_error hold_not_found))
        | f ∷ fs ↦ hold_of_fields u session_id (f ∷ fs)
      ]

  -- The walk of the cursor is one step here, though a call of another may come between.
  unfoldable pub held_seats : Unicode → Bool → Keyspace A B C → Time → Text → Result (List Seat)
  held_seats u down s at screening_id =
      if down
      then err (message (bytes "booking: scan held seats: %w"))
      else ok (
          seats_of u screening_id
            (r.scan s.strings at (bytes "seat:" ++ (screening_id ++ bytes ":*"))))
