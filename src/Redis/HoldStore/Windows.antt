-- ===== src/Redis/HoldStore/Windows.antt =====
-- How long a hold of internal/adapters/redis/holdstore.go lives: the rounding of its lifetime to
-- seconds, and the expiry that `Get` reads back.
use booking_concurrent.Common.{
  ℕ, ◌+◌, ◌-◌, ◌*◌, ◌/◌, ◌≤◌, ◌<◌, ◌≡◌, true, false, some, none, [], ◌∷◌, Text, text_eq_refl, bytes,
  arith, if◌then◌else◌, ltb, ℤ, ok, err, refl, ◌∙◌, sentinel, booking_error, hold_not_found,
}
use booking_concurrent.Common.Decimal.{parse_int-itoa, IsInt64}
use booking_concurrent.Common.Dict.{Dict, lookup}
use booking_concurrent.Domain.Booking.{Time, Hold, Unicode, can_be_confirmed}
use booking_concurrent.Domain.Booking.Seats.{IsSeat, new_seat_of_IsSeat}
use booking_concurrent.Memory.SeatKey.{seat_key}
use booking_concurrent.Redis.Server.{Redis, second, put_all}
use booking_concurrent.Common.Trip.{Trip}
use booking_concurrent.Redis.HoldStore.{
  Keyspace, hold, hold_answer, session_fields, unix, from_unix, ttl_seconds, hold_of_fields, get,
  write_session,
}
use booking_concurrent.Redis.HoldStore.Keys.{IsWritten, fields-IsWritten}
use booking_concurrent.Redis.HoldStore.Claims.{
  session_at, session_at-write, set_nx_ex-granted, get-write,
}
use booking_concurrent.Redis.HoldStore.Calls.{
  hold_script_cases, hold_cases, limit_answer, taken_answer,
}

-- The whole second that an instant falls in.
abbrev pub whole_second : Time → Time
whole_second t = t / second * second

-- A Unix time is read back as the instant's whole second.
from_unix-unix : (t : Time) → from_unix (unix t) ≡ whole_second t
unfolding from_unix unix
from_unix-unix t = ground arith

-- The lifetime reaches the expiry, and ends less than a second after it.
ttl_seconds-bounds :
    (expires until : Time)
    → until ≤ expires
    → (expires ≤ until + ttl_seconds expires until * second)
      × (until + ttl_seconds expires until * second < expires + second)
unfolding ttl_seconds
ttl_seconds-bounds expires until le = ground arith

ttl_seconds-some : (expires until : Time) → 0 < ttl_seconds expires until → until < expires
unfolding ttl_seconds
ttl_seconds-some expires until some_life = ground arith

-- What `Get` makes of the fields that `Hold` wrote.
hold_of_fields-written :
    (u : Unicode) (h : Hold) (fs : Dict Text)
    → IsWritten h fs
    → IsSeat h.seat
    → IsInt64 h.seat.number
    → IsInt64 (unix h.expires_at)
    → hold_of_fields u h.session_id fs ≡ ok (record h { expires_at = whole_second h.expires_at })
unfolding hold_of_fields
hold_of_fields-written u h fs w seat num expires = ground (
  arith,
  w.screening,
  w.row,
  w.num,
  w.user,
  w.token,
  w.expires,
  parse_int-itoa h.seat.number num,
  parse_int-itoa (unix h.expires_at) expires,
  new_seat_of_IsSeat u h.seat seat,
  from_unix-unix h.expires_at,
)

-- A written hash has fields.
get_fields :
    (u : Unicode) (sid : Text) (fs : Dict Text) (v : Text)
    → lookup (bytes "row") fs ≡ some v
    → (f : Text × Text) × (rest : Dict Text) × (fs ≡ f ∷ rest)
unfolding lookup
get_fields u sid [] v e = absurd (cc)
get_fields u sid (f ∷ rest) v e = (f, rest, refl)

module _ {A B C : Type 0} (r : Redis A B C) where
  get-fields :
      (u : Unicode) (s : Keyspace A B C) (t : Time) (sid : Text) (fs : Dict Text) (v : Text)
      → session_at r s t sid ≡ fs
      → lookup (bytes "row") fs ≡ some v
      → get r u false s t sid ≡ hold_of_fields u sid fs
  unfolding get
  get-fields u s t sid fs v e row =
      let (f, rest, shape) = get_fields u sid fs v row in rw (e, shape, get) (refl)

  get-missing :
      (u : Unicode) (s : Keyspace A B C) (t : Time) (sid : Text)
      → session_at r s t sid ≡ []
      → get r u false s t sid ≡ err (sentinel (booking_error hold_not_found))
  unfolding get
  get-missing u s t sid e = rw (e, get) (refl)

  -- What a granted call wrote, and until when.
  record IsGranted (s t : Keyspace A B C) (until at : Time) (h : Hold) : Type 0 where
    secs : ℕ
    life : ttl_seconds h.expires_at until ≡ secs
    some_life : 0 < secs
    seat :
        (x : Time)
        → at ≤ x
        → r.get t.strings x (seat_key h.screening_id h.seat)
          ≡ (if ltb x (at + secs * second) then some h.hold_token else none)
    fields :
        (x : Time)
        → at ≤ x
        → session_at r t x h.session_id ≡ (
            if ltb x (at + secs * second)
            then put_all (session_fields h) (session_at r s at h.session_id)
            else [])

  write-IsGranted :
      (s : Keyspace A B C) (b : A) (until at : Time) (h : Hold) (secs : ℕ)
      → r.set_nx_ex s.strings at (seat_key h.screening_id h.seat) h.hold_token secs ≡ some b
      → ttl_seconds h.expires_at until ≡ secs
      → ltb secs 1 ≡ false
      → IsGranted s (write_session r s b at h secs) until at h
  write-IsGranted s b until at h secs granted life positive = record {
    secs = secs;
    life = life;
    some_life = ground arith;
    seat = λ x le. ground (
      arith,
      get-write r s b at h secs x (seat_key h.screening_id h.seat),
      (set_nx_ex-granted r s.strings b at (seat_key h.screening_id h.seat) h.hold_token secs
            granted).1
          x (seat_key h.screening_id h.seat) le,
      text_eq_refl (seat_key h.screening_id h.seat),
    );
    fields = λ x le.
        ground
          (arith, session_at-write r s b at h secs x h.session_id le, text_eq_refl h.session_id);
  }

  hold-IsGranted :
      (max : ℤ) (trip : Trip) (s : Keyspace A B C) (validated until at : Time) (h : Hold)
      → (hold r max trip s validated until at h).0 ≡ ok tt
      → IsGranted s (hold r max trip s validated until at h).1 until at h
  hold-IsGranted max trip s validated until at h =
      hold_cases r (λ x. x.0 ≡ ok tt → IsGranted s x.1 until at h) max trip s validated until at h
        (λ e p. absurd (cc)) (λ e secs p. absurd (cc))
        (λ secs _ _ life positive.
          hold_script_cases r (λ x. hold_answer x.0 ≡ ok tt → IsGranted s x.1 until at h) max s at h
            secs (λ _ p. absurd (ground (arith, limit_answer)))
            (λ _ _ p. absurd (ground (arith, taken_answer)))
            (λ b _ granted _. write-IsGranted s b until at h secs granted life positive))

  -- From a granted `Hold` on, and until the hold expires, `Get` returns the hold with its expiry cut
  -- to a whole second, and the seat's key holds its token, if the server's clock is not behind the
  -- process's.
  pub get-hold_granted :
      (u : Unicode) (max : ℤ) (trip : Trip) (s : Keyspace A B C) (validated until at t : Time)
      (h : Hold)
      → IsSeat h.seat
      → IsInt64 h.seat.number
      → IsInt64 (unix h.expires_at)
      → until ≤ at
      → (hold r max trip s validated until at h).0 ≡ ok tt
      → at ≤ t
      → t < h.expires_at
      → (get r u false (hold r max trip s validated until at h).1 t h.session_id
          ≡ ok (record h { expires_at = whole_second h.expires_at }))
        × (r.get
              (hold r max trip s validated until at h).1.strings
              t
              (seat_key h.screening_id h.seat)
            ≡ some h.hold_token)
  get-hold_granted u max trip s validated until at t h seat num expires clock granted from live =
      let g = hold-IsGranted max trip s validated until at h granted in
      let written = fields-IsWritten h (session_at r s at h.session_id) in
      let reach : ltb t (at + g.secs * second) ≡ true =
        ground (arith, ttl_seconds-bounds h.expires_at until, g.life) in
      (
        get-fields u _ t h.session_id _ _ (rw reach at (g.fields t from)) written.row
            ∙ hold_of_fields-written u h _ written seat num expires,
        rw reach at (g.seat t from),
      )

  -- A granted hold is gone a second after its expiry, and the seat's key with it, but for the time
  -- that the call took to reach the server.
  pub hold_granted-ends :
      (u : Unicode) (max : ℤ) (trip : Trip) (s : Keyspace A B C) (validated until at t : Time)
      (h : Hold)
      → until ≤ at
      → (hold r max trip s validated until at h).0 ≡ ok tt
      → h.expires_at + second + (at - until) ≤ t
      → (get r u false (hold r max trip s validated until at h).1 t h.session_id
          ≡ err (sentinel (booking_error hold_not_found)))
        × (r.get
              (hold r max trip s validated until at h).1.strings
              t
              (seat_key h.screening_id h.seat)
            ≡ none)
  hold_granted-ends u max trip s validated until at t h clock granted late =
      let g = hold-IsGranted max trip s validated until at h granted in
      let gone : ltb t (at + g.secs * second) ≡ false = ground (
        arith,
        g.life,
        g.some_life,
        ttl_seconds-some h.expires_at until,
        ttl_seconds-bounds h.expires_at until,
      ) in
      let from : at ≤ t =
        ground (arith, g.life, g.some_life, ttl_seconds-some h.expires_at until) in
      (get-missing u _ t h.session_id (rw gone at (g.fields t from)), rw gone at (g.seat t from))

  -- A hold whose expiry is not on a whole second is refused before it expires: from its last whole
  -- second on, `Get` still finds it and `CanBeConfirmed` of what `Get` returns is false, while it is
  -- true of the hold that was granted.
  pub get-expires_early :
      (u : Unicode) (max : ℤ) (trip : Trip) (s : Keyspace A B C) (validated until at t : Time)
      (h : Hold)
      → IsSeat h.seat
      → IsInt64 h.seat.number
      → IsInt64 (unix h.expires_at)
      → until ≤ at
      → (hold r max trip s validated until at h).0 ≡ ok tt
      → at ≤ t
      → whole_second h.expires_at ≤ t
      → t < h.expires_at
      → (g : Hold) × (get r u false (hold r max trip s validated until at h).1 t h.session_id
          ≡ ok g)
        × (can_be_confirmed g t ≡ false)
        × (can_be_confirmed h t ≡ true)
  unfolding can_be_confirmed
  get-expires_early u max trip s validated until at t h seat num expires clock granted from cut_off
        live =
      (
        record h { expires_at = whole_second h.expires_at },
        (get-hold_granted u max trip s validated until at t h seat num expires clock granted from
            live).0,
        ground arith,
        ground arith,
      )
