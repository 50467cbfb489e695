-- ===== src/Redis/HoldStore/Listing.antt =====
-- `HeldSeats` of internal/adapters/redis/holdstore.go, and the user's set of holds.
use booking_concurrent.Common.{
  ◌&&◌, ℕ, ◌≤◌, ◌≡◌, true, false, some, List, [], ◌∷◌, ◌++◌, Text, text_eq, text_eq_refl, bytes,
  ◌↔◌, Option, length, arith, Option-cases, Bool-cases, inl, inr, pos, ok, refl,
}
use mathlib.Core.List.{append_assoc}
use booking_concurrent.Common.Strings.{after_prefix}
use booking_concurrent.Domain.Booking.{Time, Seat, seat_eq, Hold, Unicode}
use booking_concurrent.Domain.Movie.Grid.{contains}
use booking_concurrent.Memory.SeatKey.{parse_seat_key}
use booking_concurrent.Memory.HoldStore.Limits.{length-insert-le, length-delete-le}
use booking_concurrent.Redis.Server.{Redis, elem, is_literal}
use booking_concurrent.Common.Trip.{Trip}
use booking_concurrent.Redis.HoldStore.{
  Keyspace, seats_of, held_seats, user_holds_key, global_holds_key, is_full, write_session, hold,
  release, tear_down, unix,
}
use booking_concurrent.Redis.HoldStore.Calls.{
  hold_script_cases, hold_state, release_state, release_script_cases,
}

seats_of_complete :
    (u : Unicode) (sid : Text) (ks : List Text) (k : Text) (seat : Seat)
    → elem k ks ≡ true
    → parse_seat_key u sid k ≡ some seat
    → contains seat (seats_of u sid ks) ≡ true
unfolding elem seats_of contains
seats_of_complete u sid [] k seat e p = cc
seats_of_complete u sid (j ∷ ks) k seat e p =
    ground (arith, seats_of_complete u sid ks k seat, Bool-cases (text_eq j k))

seats_of_sound :
    (u : Unicode) (sid : Text) (ks : List Text) (seat : Seat)
    → contains seat (seats_of u sid ks) ≡ true
    → (k : Text) × (elem k ks ≡ true) × (parse_seat_key u sid k ≡ some seat)
unfolding elem seats_of contains
seats_of_sound u sid [] seat e = absurd (cc)
seats_of_sound u sid (j ∷ ks) seat e = elim (Option-cases (parse_seat_key u sid j)) [
  | inl bad ↦ on_tail (seats_of_sound u sid ks seat (ground arith))
  | inr (x, good) ↦ elim (Bool-cases (seat_eq x seat)) [
    | inl same ↦ (j, ground (arith, text_eq_refl j), ground arith)
    | inr other ↦ on_tail (seats_of_sound u sid ks seat (ground arith))
  ]
]
  where
    on_tail :
        (k : Text) × (elem k ks ≡ true) × (parse_seat_key u sid k ≡ some seat)
        → (k : Text) × (elem k (j ∷ ks) ≡ true) × (parse_seat_key u sid k ≡ some seat)
    on_tail (k, found, parsed) = (k, ground arith, parsed)

parse_seat_key-prefix :
    (u : Unicode) (sid k : Text) (seat : Seat)
    → parse_seat_key u sid k ≡ some seat
    → (rest : Text) × (after_prefix (bytes "seat:" ++ (sid ++ b':' ∷ [])) k ≡ some rest)
unfolding parse_seat_key
parse_seat_key-prefix u sid k seat e =
    elim (Option-cases (after_prefix (bytes "seat:" ++ (sid ++ b':' ∷ [])) k)) [
      | inl bad ↦ absurd (ground arith)
      | inr (rest, good) ↦ (rest, good)
    ]

is_literal-append : (s t : Text) → is_literal (s ++ t) ≡ (is_literal s && is_literal t)
unfolding is_literal
is_literal-append [] t = refl
is_literal-append (c ∷ s) t = ground (arith, is_literal-append s t)

seat_prefix-literal :
    (sid : Text) → is_literal sid ≡ true → is_literal (bytes "seat:" ++ (sid ++ b':' ∷ [])) ≡ true
unfolding is_literal
seat_prefix-literal sid plain = ground (arith, is_literal-append sid (b':' ∷ []))

module _ {A B C : Type 0} (r : Redis A B C) where
  seat_pattern_lists :
      (sid : Text) (s : Keyspace A B C) (now : Time) (k w rest : Text)
      → is_literal sid ≡ true
      → r.get s.strings now k ≡ some w
      → after_prefix (bytes "seat:" ++ (sid ++ b':' ∷ [])) k ≡ some rest
      → elem k (r.scan s.strings now (bytes "seat:" ++ (sid ++ bytes ":*"))) ≡ true
  seat_pattern_lists sid s now k w rest plain there fits =
      let listed = r.scan_all s.strings now _ k w (seat_prefix-literal sid plain) there rest fits in
      rw (append_assoc sid (b':' ∷ []) (b'*' ∷ [])) at listed

  -- For a screening id without the bytes that are special in a pattern of Redis (as a UUID is), a
  -- listing that the server answers succeeds, and a seat is in it exactly when a key that is there at
  -- the time reads as it; a key that reads as no seat changes nothing.
  pub held_seats_iff :
      (u : Unicode) (s : Keyspace A B C) (now : Time) (sid : Text) (seat : Seat)
      → is_literal sid ≡ true
      → (seats : List Seat) × (held_seats r u false s now sid ≡ ok seats)
        × ((contains seat seats ≡ true) ↔ (
            (k : Text) × (w : Text) × (r.get s.strings now k ≡ some w)
            × (parse_seat_key u sid k ≡ some seat)))
  unfolding held_seats
  held_seats_iff u s now sid seat plain = (
    seats_of u sid (r.scan s.strings now (bytes "seat:" ++ (sid ++ bytes ":*"))),
    refl,
    (
      λ listed.
          let (k, found, parsed) = seats_of_sound u sid _ seat listed in
          let (w, there) = r.scan_live s.strings now _ k found in (k, w, there, parsed),
      λ (k, w, there, parsed).
          let (rest, fits) = parse_seat_key-prefix u sid k seat parsed in
          seats_of_complete u sid _ k seat (seat_pattern_lists sid s now k w rest plain there fits)
            parsed,
    ),
  )

  -- No user's set of holds grows past the limit.
  abbrev pub IsLimited : ℕ → Keyspace A B C → Type 0
  IsLimited max s = (uid : Text) → length (r.zset s.zsets (user_holds_key uid)) ≤ max

  pub global-ne-user : (uid : Text) → text_eq global_holds_key (user_holds_key uid) ≡ false
  unfolding user_holds_key
  global-ne-user uid = ground arith

  write-IsLimited :
      (max : ℕ) (s : Keyspace A B C) (b : A) (at : Time) (h : Hold) (secs : ℕ)
      → is_full r (pos max) s h.user_id ≡ false
      → IsLimited max s
      → IsLimited max (write_session r s b at h secs)
  unfolding write_session is_full
  write-IsLimited max s b at h secs below v uid = ground (
    arith,
    v uid,
    global-ne-user uid,
    length-insert-le h.session_id (unix h.expires_at) (r.zset s.zsets (user_holds_key h.user_id)),
    r.zset-zadd s.zsets (user_holds_key h.user_id) (user_holds_key uid) (unix h.expires_at)
        h.session_id,
    r.zset-zadd (r.zadd s.zsets (user_holds_key h.user_id) (unix h.expires_at) h.session_id)
        global_holds_key (user_holds_key uid) (unix h.expires_at) h.session_id,
  )

  tear_down-IsLimited :
      (max : ℕ) (s : Keyspace A B C) (at : Time) (sid owner : Text) (w : Option Text) (k : Text)
      → IsLimited max s
      → IsLimited max (tear_down r s at sid owner w k)
  unfolding tear_down
  tear_down-IsLimited max s at sid owner w k v uid = ground (
    arith,
    v uid,
    global-ne-user uid,
    length-delete-le sid (r.zset s.zsets (user_holds_key owner)),
    r.zset-zrem s.zsets (user_holds_key owner) (user_holds_key uid) sid,
    r.zset-zrem (r.zrem s.zsets (user_holds_key owner) sid) global_holds_key (user_holds_key uid)
        sid,
  )

  -- A call of `Hold`, whatever becomes of it, keeps every user's set within the limit: the check
  -- and the write are one script.
  pub hold-IsLimited :
      (max : ℕ) (trip : Trip) (s : Keyspace A B C) (validated until at : Time) (h : Hold)
      → IsLimited max s
      → IsLimited max (hold r (pos max) trip s validated until at h).1
  hold-IsLimited max trip s validated until at h v =
      hold_state r (IsLimited max) (pos max) trip s validated until at h v (λ secs.
        hold_script_cases r (λ x. IsLimited max x.1) (pos max) s at h secs (λ _. v) (λ _ _. v)
          (λ b below _. write-IsLimited max s b at h secs below v))

  pub release-IsLimited :
      (max : ℕ) (trip : Trip) (s : Keyspace A B C) (at : Time) (sid uid : Text)
      → IsLimited max s
      → IsLimited max (release r trip s at sid uid).1
  release-IsLimited max trip s at sid uid v = release_state r (IsLimited max) trip s at sid uid v (
      release_script_cases r (λ x. IsLimited max x.1) s at sid uid (λ _. v) (λ _ _ _. v)
        (λ _ _ _ _. v) (λ k _ _. tear_down-IsLimited max s at sid uid _ k v))
