-- ===== src/Memory/HoldStore.antt =====
-- internal/adapters/memory/holdstore.go.
pub mod Claims
pub mod Lifecycle
pub mod Limits
use booking_concurrent.Common.{
  ℕ, Bool, true, false, ◌&&◌, not, List, [], ◌∷◌, Option, none, some, if◌then◌else◌, Text, text_eq,
  length, ℤ, pos, int_lt, int_inc, int_dec, Result, ok, err, Error, sentinel, booking_error,
  Bool-cases, Option-cases, inl, inr, ◌≡◌, hold_limit_exceeded, seat_already_held, hold_not_found,
  not_hold_owner,
}
use booking_concurrent.Common.Dict.{Dict, lookup, insert, delete}
use booking_concurrent.Domain.Booking.{Time, before, Seat, Hold}
use booking_concurrent.Memory.SeatKey.{seat_key}

pub record SeatEntry : Type 0 where
  pub token : Text
  pub expires_at : Time

pub record HoldStore : Type 0 where
  pub max_holds : ℤ
  pub seats : Dict SeatEntry
  pub sessions : Dict Hold
  pub user_holds : Dict (Dict (Unit {0}))
  pub global_size : ℤ

unfoldable pub new_hold_store : ℤ → HoldStore
new_hold_store max_holds = record {
  max_holds = max_holds;
  seats = [];
  sessions = [];
  user_holds = [];
  global_size = pos 0;
}

abbrev pub hold_key : Hold → Text
hold_key h = seat_key h.screening_id h.seat

-- The value of a nil or missing inner map.
abbrev pub or_empty : Option (Dict (Unit {0})) → Dict (Unit {0})
or_empty none = []
or_empty (some m) = m

abbrev pub is_claimed : Option SeatEntry → Time → Bool
is_claimed none now = false
is_claimed (some e) now = before now e.expires_at

-- What `Hold` writes once it has decided.
unfoldable pub claim : HoldStore → Hold → HoldStore
claim s h = record s {
  seats = insert (hold_key h) (record { token = h.hold_token; expires_at = h.expires_at }) s.seats;
  sessions = insert h.session_id h s.sessions;
  user_holds =
      insert h.user_id (insert h.session_id tt (or_empty (lookup h.user_id s.user_holds)))
        s.user_holds;
  global_size = int_inc s.global_size;
}

-- `len(s.userHolds[userID]) >= s.maxHolds`
unfoldable pub is_full : HoldStore → Text → Bool
is_full s user_id = not (int_lt (pos (length (or_empty (lookup user_id s.user_holds)))) s.max_holds)

unfoldable pub hold : HoldStore → Time → Hold → Result (Unit {0}) × HoldStore
hold s now h =
    if is_full s h.user_id
    then (err (sentinel (booking_error hold_limit_exceeded)), s)
    else if is_claimed (lookup (hold_key h) s.seats) now
    then (err (sentinel (booking_error seat_already_held)), s)
    else (ok tt, claim s h)

-- The compare-and-delete of `Release`.
unfoldable pub free_seat : Hold → Dict SeatEntry → Dict SeatEntry
free_seat h seats = elim (lookup (hold_key h) seats) [
  | none ↦ seats
  | some e ↦ if text_eq e.token h.hold_token then delete (hold_key h) seats else seats
]

unfoldable pub drop_session : Text → Text → Dict (Dict (Unit {0})) → Dict (Dict (Unit {0}))
drop_session user_id session_id holds = elim (lookup user_id holds) [
  | none ↦ holds
  | some mine ↦ insert user_id (delete session_id mine) holds
]

-- What `Release` writes once it has decided.
unfoldable pub give_up : HoldStore → Text → Text → Hold → HoldStore
give_up s session_id user_id h = record s {
  seats = free_seat h s.seats;
  sessions = delete session_id s.sessions;
  user_holds = drop_session user_id session_id s.user_holds;
  global_size = int_dec s.global_size;
}

unfoldable pub release : HoldStore → Time → Text → Text → Result (Unit {0}) × HoldStore
release s now session_id user_id = elim (lookup session_id s.sessions) [
  | none ↦ (err (sentinel (booking_error hold_not_found)), s)
  | some h ↦
      if not (before now h.expires_at)
      then (err (sentinel (booking_error hold_not_found)), s)
      else if not (text_eq h.user_id user_id)
      then (err (sentinel (booking_error not_hold_owner)), s)
      else (ok tt, give_up s session_id user_id h)
]

unfoldable pub get : HoldStore → Time → Text → Result Hold
get s now session_id = elim (lookup session_id s.sessions) [
  | none ↦ err (sentinel (booking_error hold_not_found))
  | some h ↦
      if not (before now h.expires_at) then err (sentinel (booking_error hold_not_found)) else ok h
]

-- The loop of `HeldSeats`.
unfoldable pub live_seats : Dict Hold → Time → Text → List Seat
live_seats [] now screening_id = []
live_seats ((_, h) ∷ sessions) now screening_id =
    let rest = live_seats sessions now screening_id in
    if text_eq h.screening_id screening_id && before now h.expires_at then h.seat ∷ rest else rest

unfoldable pub held_seats : HoldStore → Time → Text → List Seat
held_seats s now screening_id = live_seats s.sessions now screening_id

-- The branches of `Hold` and of `Release`, for a property of the result and the new store.
pub hold_cases {ℓ} :
    (P : Result (Unit {0}) × HoldStore → Type ℓ) (s : HoldStore) (now : Time) (h : Hold)
    → (is_full s h.user_id ≡ true → P (err (sentinel (booking_error hold_limit_exceeded)), s))
    → (is_full s h.user_id ≡ false
        → is_claimed (lookup (hold_key h) s.seats) now ≡ true
        → P (err (sentinel (booking_error seat_already_held)), s))
    → (is_full s h.user_id ≡ false
        → is_claimed (lookup (hold_key h) s.seats) now ≡ false
        → P (ok tt, claim s h))
    → P (hold s now h)
unfolding hold
hold_cases P s now h full taken free = elim (Bool-cases (is_full s h.user_id)) [
  | inl e ↦ rw e (full e)
  | inr e ↦ rw e (elim (Bool-cases (is_claimed (lookup (hold_key h) s.seats) now)) [
    | inl c ↦ rw c (taken e c)
    | inr c ↦ rw c (free e c)
  ])
]

pub release_cases {ℓ} :
    (P : Result (Unit {0}) × HoldStore → Type ℓ) (s : HoldStore) (now : Time) (sid uid : Text)
    → (lookup sid s.sessions ≡ none → P (err (sentinel (booking_error hold_not_found)), s))
    → ((h : Hold)
        → lookup sid s.sessions ≡ some h
        → before now h.expires_at ≡ false
        → P (err (sentinel (booking_error hold_not_found)), s))
    → ((h : Hold)
        → lookup sid s.sessions ≡ some h
        → before now h.expires_at ≡ true
        → text_eq h.user_id uid ≡ false
        → P (err (sentinel (booking_error not_hold_owner)), s))
    → ((h : Hold)
        → lookup sid s.sessions ≡ some h
        → before now h.expires_at ≡ true
        → text_eq h.user_id uid ≡ true
        → P (ok tt, give_up s sid uid h))
    → P (release s now sid uid)
unfolding release
release_cases P s now sid uid missing expired foreign mine =
    elim (Option-cases (lookup sid s.sessions)) [
      | inl e ↦ rw (e, release) (missing e)
      | inr (h, e) ↦
          rw (e, release)
            (elim (Bool-cases (before now h.expires_at)) [
              | inr old ↦ rw old (expired h e old)
              | inl live ↦ rw live (elim (Bool-cases (text_eq h.user_id uid)) [
                | inl own ↦ rw own (mine h e live own)
                | inr other ↦ rw other (foreign h e live other)
              ])
            ])
    ]
