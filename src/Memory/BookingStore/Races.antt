-- ===== src/Memory/BookingStore/Races.antt =====
-- Many confirms in a row, in the order in which the mutex admits them.
use booking_concurrent.Common.{
  ℕ, ◌+◌, ◌≤◌, ◌≡◌, refl, Bool, true, false, ◌&&◌, none, List, [], ◌∷◌, arith, Text, text_eq,
  Result, ok, err, if◌then◌else◌,
}
use booking_concurrent.Common.Dict.{lookup}
use booking_concurrent.Domain.Booking.{Time, Booking}
use booking_concurrent.Memory.BookingStore.{
  BookingStore, booking_key, rows_at, any_confirmed, stamp, record_sale, confirm, confirm_cases,
}
use booking_concurrent.Memory.BookingStore.Sales.{sold-record_sale}

pub record Attempt : Type 0 where
  pub now : Time
  pub id : Text
  pub row : Booking

abbrev pub is_ok {ℓ} : {A : Type ℓ} → Result A → Bool
is_ok (ok a) = true
is_ok (err e) = false

-- How many of the attempts sell the seat with key `k`.
pub sales : Text → BookingStore → List Attempt → ℕ
sales k s [] = 0
sales k s (a ∷ rest) =
    let r = confirm s a.now a.id a.row in
    (if text_eq (booking_key a.row) k && is_ok r.0 then 1 else 0) + sales k r.1 rest

-- One attempt on a seat that is sold sells nothing, and it stays sold; one that sells it marks it.
attempt_effect :
    (k : Text) (s : BookingStore) (a : Attempt)
    → let r = confirm s a.now a.id a.row in
      (any_confirmed (rows_at s.by_seat k) ≡ true
        → ((text_eq (booking_key a.row) k && is_ok r.0) ≡ false)
          × (any_confirmed (rows_at r.1.by_seat k) ≡ true))
      × ((text_eq (booking_key a.row) k && is_ok r.0) ≡ true
          → any_confirmed (rows_at r.1.by_seat k) ≡ true)
attempt_effect k s a =
    confirm_cases
      (λ r.
        (any_confirmed (rows_at s.by_seat k) ≡ true
          → ((text_eq (booking_key a.row) k && is_ok r.0) ≡ false)
            × (any_confirmed (rows_at r.1.by_seat k) ≡ true))
        × ((text_eq (booking_key a.row) k && is_ok r.0) ≡ true
            → any_confirmed (rows_at r.1.by_seat k) ≡ true))
      s a.now a.id a.row (λ _ _. ground arith) (λ _ _. ground arith)
      (λ _ free. ground (arith, sold-record_sale s (stamp a.row a.id a.now) k refl))

sales_of_sold :
    (k : Text) (s : BookingStore) (tries : List Attempt)
    → any_confirmed (rows_at s.by_seat k) ≡ true
    → sales k s tries ≡ 0
unfolding sales
sales_of_sold k s [] h = refl
sales_of_sold k s (a ∷ rest) h =
    ground (arith, attempt_effect k s a, sales_of_sold k (confirm s a.now a.id a.row).1 rest)

-- No sequence of attempts, on any seats, by any sessions, sells one seat twice.
pub sales-le-one : (k : Text) (s : BookingStore) (tries : List Attempt) → sales k s tries ≤ 1
unfolding sales
sales-le-one k s [] = omega arith
sales-le-one k s (a ∷ rest) = ground (
  arith,
  attempt_effect k s a,
  sales_of_sold k (confirm s a.now a.id a.row).1 rest,
  sales-le-one k (confirm s a.now a.id a.row).1 rest,
)

-- A free seat is sold to the first attempt on it by a session that has no booking yet.
pub first_attempt_wins :
    (s : BookingStore) (a : Attempt) (rest : List Attempt)
    → lookup a.row.session_id s.by_session ≡ none
    → any_confirmed (rows_at s.by_seat (booking_key a.row)) ≡ false
    → (confirm s a.now a.id a.row
        ≡ (ok (stamp a.row a.id a.now), record_sale s (stamp a.row a.id a.now)))
      × (sales (booking_key a.row) s (a ∷ rest) ≡ 1)
unfolding sales confirm
first_attempt_wins s a rest fresh free = (won, ground (arith, won, sold_out))
  where
    won :
        confirm s a.now a.id a.row
        ≡ (ok (stamp a.row a.id a.now), record_sale s (stamp a.row a.id a.now))
    won = rw (fresh, confirm) (rw free)

    sold_out : sales (booking_key a.row) (record_sale s (stamp a.row a.id a.now)) rest ≡ 0
    sold_out =
        sales_of_sold _ _ rest
          (ground (arith, sold-record_sale s (stamp a.row a.id a.now) (booking_key a.row) refl))
