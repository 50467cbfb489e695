-- ===== src/Memory/SeatKey.antt =====
-- `SeatKey` of internal/adapters/memory/holdstore.go, and `seatKey` and `parseSeatKey` of
-- internal/adapters/redis/holdstore.go.
pub mod Codec
use booking_concurrent.Common.{
  Option, none, some, List, [], ◌∷◌, ◌++◌, Text, bytes, ℤ, Result, ok, err,
}
use booking_concurrent.Common.Decimal.{itoa, parse_int}
use booking_concurrent.Common.Strings.{cut, after_prefix}
use booking_concurrent.Domain.Booking.{Seat, Unicode, new_seat}

unfoldable pub seat_key : Text → Seat → Text
seat_key screening_id seat =
    bytes "seat:" ++ (screening_id ++ (b':' ∷ (seat.row ++ (b':' ∷ itoa seat.number))))

abbrev pub seat_of : Result Seat → Option Seat
seat_of (ok s) = some s
seat_of (err e) = none

-- The row and the number of a key, once the prefix is gone.
unfoldable pub parse_rest : Unicode → Option (Text × Text) → Option Seat
parse_rest u none = none
parse_rest u (some (row, num)) = elim (parse_int num) [
  | none ↦ none
  | some n ↦ seat_of (new_seat u row n)
]

unfoldable pub parse_seat_key : Unicode → Text → Text → Option Seat
parse_seat_key u screening_id key =
    elim (after_prefix (bytes "seat:" ++ (screening_id ++ b':' ∷ [])) key) [
      | none ↦ none
      | some rest ↦ parse_rest u (cut b':' rest)
    ]
