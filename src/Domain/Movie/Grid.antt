-- ===== src/Domain/Movie/Grid.antt =====
-- The seat grid of a screening: `HasSeat`, `AllSeats` and `SeatCount`.
use mathlib.Core.List.{Mem, mem-cons, not-mem-nil, mem-cons_self, mem-cons_of_mem}
use mathlib.Core.Logic.Or
use booking_concurrent.Common.{
  ℕ, zero, suc, ◌+◌, ◌*◌, ◌≡◌, ◌↔◌, refl, Bool, true, false, ◌&&◌, ◌||◌, List, [], ◌∷◌, ◌++◌, arith,
  leb, ltb, Text, text_eq, length, length-append, ℤ, pos, negsuc, int_lt, rounds, not, ap,
}
use booking_concurrent.Domain.Booking.{Seat, seat_eq, seat_discrete}
use booking_concurrent.Domain.Movie.{
  Screening, has_row, has_seat, row_seats, grid, all_seats, seat_count,
}

-- Membership in a set of seats, as a test.
unfoldable pub contains : Seat → List Seat → Bool
contains x [] = false
contains x (y ∷ ys) = seat_eq y x || contains x ys

pub contains-append :
    (x : Seat) (xs ys : List Seat) → contains x (xs ++ ys) ≡ (contains x xs || contains x ys)
unfolding contains
contains-append x [] ys = refl
contains-append x (y ∷ xs) ys = ground (arith, contains-append x xs ys)

contains_prop : (x : Seat) (xs : List Seat) → IsProp (contains x xs ≡ true)
contains_prop x xs = hlevel

contains_of_mem : (x : Seat) (xs : List Seat) → Mem x xs → contains x xs ≡ true
unfolding contains
contains_of_mem x [] m = absurd (not-mem-nil m)
contains_of_mem x (y ∷ ys) m =
    Or.elim (contains_prop x (y ∷ ys)) (mem-cons.0 m) (λ e. ground arith)
      (λ t. ground (arith, contains_of_mem x ys t))

mem_of_contains : (x : Seat) (xs : List Seat) → contains x xs ≡ true → Mem x xs
unfolding contains
mem_of_contains x [] h = cc
mem_of_contains x (y ∷ ys) h = elim (seat_discrete y x) [
  | yes p ↦ rw p mem-cons_self
  | no p ↦ mem-cons_of_mem y (mem_of_contains x ys (ground arith))
]

pub contains_iff_mem : (x : Seat) (xs : List Seat) → (contains x xs ≡ true) ↔ Mem x xs
contains_iff_mem x xs = (mem_of_contains x xs, contains_of_mem x xs)

-- The seats numbered from `n` on, `left` of them.
abbrev in_range : ℤ → ℕ → ℕ → Bool
in_range (pos k) left n = leb n k && ltb k (n + left)
in_range (negsuc k) left n = false

contains-row_seats :
    (seat : Seat) (row : Text) (left n : ℕ)
    → contains seat (row_seats row left n) ≡ (text_eq row seat.row && in_range seat.number left n)
unfolding contains row_seats
contains-row_seats seat row zero n = ground arith
contains-row_seats seat row (suc left) n = ground (arith, contains-row_seats seat row left (suc n))

contains-grid :
    (seat : Seat) (rows : List Text) (k : ℕ)
    → contains seat (grid rows k) ≡ (has_row rows seat.row && in_range seat.number k 1)
unfolding contains grid has_row
contains-grid seat [] k = refl
contains-grid seat (row ∷ rows) k = ground (
  arith,
  contains-append seat (row_seats row k 1) (grid rows k),
  contains-row_seats seat row k 1,
  contains-grid seat rows k,
)

in_range_of_bounds :
    (n k : ℤ) → in_range n (rounds k) 1 ≡ (not (int_lt n (pos 1)) && not (int_lt k n))
in_range_of_bounds (pos n) (pos k) = ground arith
in_range_of_bounds (pos n) (negsuc k) = ground arith
in_range_of_bounds (negsuc n) (pos k) = ground arith
in_range_of_bounds (negsuc n) (negsuc k) = ground arith

contains-all_seats : (s : Screening) (seat : Seat) → contains seat (all_seats s) ≡ has_seat s seat
unfolding all_seats has_seat
contains-all_seats s seat = ground (
  arith,
  contains-grid seat s.rows (rounds s.seats_per_row),
  in_range_of_bounds seat.number s.seats_per_row,
)

-- `HasSeat` accepts exactly the seats that `AllSeats` lists, for every screening.
pub has_seat_iff_mem-all_seats :
    (s : Screening) (seat : Seat) → (has_seat s seat ≡ true) ↔ Mem seat (all_seats s)
has_seat_iff_mem-all_seats s seat =
    rw (← contains-all_seats s seat) (contains_iff_mem seat (all_seats s))

length-row_seats : (row : Text) (left n : ℕ) → length (row_seats row left n) ≡ left
unfolding row_seats
length-row_seats row zero n = refl
length-row_seats row (suc left) n = omega (arith, length-row_seats row left (suc n))

length-grid : (rows : List Text) (k : ℕ) → length (grid rows k) ≡ length rows * k
unfolding grid
length-grid [] k = omega arith
length-grid (row ∷ rows) k = grind (
  arith,
  length-append (row_seats row k 1) (grid rows k),
  length-row_seats row k 1,
  length-grid rows k,
)

-- `AllSeats` lists `SeatCount` seats, where the rows have no negative length.
pub length-all_seats :
    (s : Screening) (k : ℕ) → s.seats_per_row ≡ pos k → pos (length (all_seats s)) ≡ seat_count s
unfolding all_seats seat_count
length-all_seats s k e = rw e (ap pos (length-grid s.rows k))
