-- ===== src/Domain/Movie.antt =====
-- internal/domain/movie/movie.go: a movie, a screening and its grid of seats.
pub mod Grid
use booking_concurrent.Common.{
  ℕ, zero, suc, ◌+◌, ◌*◌, ◌≡◌, Bool, true, false, ◌||◌, List, [], ◌∷◌, ◌++◌, arith, if◌then◌else◌,
  Text, text_eq, length, ℤ, pos, negsuc, int_lt, rounds, int_scale,
}
use booking_concurrent.Domain.Booking.{Seat, Time}

pub record Movie : Type 0 where
  pub id : Text
  pub title : Text
  pub synopsis : Text
  pub duration_minutes : ℤ
  pub created_at : Time

pub record Screening : Type 0 where
  pub id : Text
  pub movie_id : Text
  pub starts_at : Time
  pub rows : List Text
  pub seats_per_row : ℤ
  pub price_cents : ℤ
  pub created_at : Time

-- The loop of `HasSeat` over the rows.
unfoldable pub has_row : List Text → Text → Bool
has_row [] r = false
has_row (row ∷ rows) r = if text_eq row r then true else has_row rows r

unfoldable pub has_seat : Screening → Seat → Bool
has_seat s seat =
    if int_lt seat.number (pos 1) || int_lt s.seats_per_row seat.number
    then false
    else has_row s.rows seat.row

-- The inner loop of `AllSeats`: `left` rounds to go, from seat number `n`.
unfoldable pub row_seats : Text → (left n : ℕ) → List Seat
row_seats row zero n = []
row_seats row (suc left) n = record { row = row; number = pos n } ∷ row_seats row left (suc n)

-- The outer loop.
unfoldable pub grid : List Text → ℕ → List Seat
grid [] k = []
grid (row ∷ rows) k = row_seats row k 1 ++ grid rows k

unfoldable pub all_seats : Screening → List Seat
all_seats s = grid s.rows (rounds s.seats_per_row)

unfoldable pub seat_count : Screening → ℤ
seat_count s = int_scale (length s.rows) s.seats_per_row
