-- ===== src/Memory/BookingStore.antt =====
-- internal/adapters/memory/bookingstore.go.
pub mod Sales
pub mod Races
use booking_concurrent.Common.{
  Bool, true, false, ◌&&◌, ◌||◌, List, [], ◌∷◌, ◌++◌, Option, none, some, if◌then◌else◌, Text,
  text_eq, Result, ok, err, sentinel, booking_error, session_already_confirmed, seat_already_booked,
  booking_not_found, Bool-cases, Option-cases, inl, inr, ◌≡◌,
}
use booking_concurrent.Common.Dict.{Dict, lookup, insert}
use booking_concurrent.Domain.Booking.{Time, Seat, Booking, Status, is_confirmed}
use booking_concurrent.Memory.SeatKey.{seat_key}

pub record BookingStore : Type 0 where
  pub by_session : Dict Booking
  pub by_seat : Dict (List Booking)

unfoldable pub new_booking_store : BookingStore
new_booking_store = record { by_session = []; by_seat = [] }

abbrev pub booking_key : Booking → Text
booking_key b = seat_key b.screening_id b.seat

-- `s.bySeat[key]`
abbrev pub rows_at : Dict (List Booking) → Text → List Booking
rows_at m k = elim (lookup k m) [ none ↦ [] | some bs ↦ bs ]

-- The loops that look for a confirmed row.
unfoldable pub any_confirmed : List Booking → Bool
any_confirmed [] = false
any_confirmed (b ∷ bs) = if is_confirmed b.status then true else any_confirmed bs

-- The row that the store writes: identity and time are its own.
abbrev pub stamp : Booking → Text → Time → Booking
stamp b id now = record b { id = id; status = Status.confirmed; confirmed_at = now }

unfoldable pub record_sale : BookingStore → Booking → BookingStore
record_sale s b = record {
  by_session = insert b.session_id b s.by_session;
  by_seat = insert (booking_key b) (rows_at s.by_seat (booking_key b) ++ b ∷ []) s.by_seat;
}

unfoldable pub confirm : BookingStore → Time → Text → Booking → Result Booking × BookingStore
confirm s now id b = elim (lookup b.session_id s.by_session) [
  | some _ ↦ (err (sentinel (booking_error session_already_confirmed)), s)
  | none ↦
      if any_confirmed (rows_at s.by_seat (booking_key b))
      then (err (sentinel (booking_error seat_already_booked)), s)
      else (ok (stamp b id now), record_sale s (stamp b id now))
]

unfoldable pub get_by_session : BookingStore → Text → Result Booking
get_by_session s session_id = elim (lookup session_id s.by_session) [
  | none ↦ err (sentinel (booking_error booking_not_found))
  | some b ↦ ok b
]

unfoldable pub seat_confirmed : BookingStore → Text → Seat → Bool
seat_confirmed s screening_id seat = any_confirmed (rows_at s.by_seat (seat_key screening_id seat))

-- The inner loop of `ConfirmedSeats`.
unfoldable pub sold_in : List Booking → Text → List Seat
sold_in [] screening_id = []
sold_in (b ∷ bs) screening_id =
    let rest = sold_in bs screening_id in
    if text_eq b.screening_id screening_id && is_confirmed b.status then b.seat ∷ rest else rest

-- The outer loop.
unfoldable pub sold_seats : Dict (List Booking) → Text → List Seat
sold_seats [] screening_id = []
sold_seats ((_, bs) ∷ m) screening_id = sold_in bs screening_id ++ sold_seats m screening_id

unfoldable pub confirmed_seats : BookingStore → Text → List Seat
confirmed_seats s screening_id = sold_seats s.by_seat screening_id

-- The branches of `Confirm`, for a property of the result and the new store.
pub confirm_cases {ℓ} :
    (P : Result Booking × BookingStore → Type ℓ) (s : BookingStore) (now : Time) (id : Text)
    (b : Booking)
    → ((old : Booking)
        → lookup b.session_id s.by_session ≡ some old
        → P (err (sentinel (booking_error session_already_confirmed)), s))
    → (lookup b.session_id s.by_session ≡ none
        → any_confirmed (rows_at s.by_seat (booking_key b)) ≡ true
        → P (err (sentinel (booking_error seat_already_booked)), s))
    → (lookup b.session_id s.by_session ≡ none
        → any_confirmed (rows_at s.by_seat (booking_key b)) ≡ false
        → P (ok (stamp b id now), record_sale s (stamp b id now)))
    → P (confirm s now id b)
unfolding confirm
confirm_cases P s now id b again taken free =
    elim (Option-cases (lookup b.session_id s.by_session)) [
      | inr (old, e) ↦ rw (e, confirm) (again old e)
      | inl e ↦
          rw (e, confirm)
            (elim (Bool-cases (any_confirmed (rows_at s.by_seat (booking_key b)))) [
              | inl c ↦ rw c (taken e c)
              | inr c ↦ rw c (free e c)
            ])
    ]
