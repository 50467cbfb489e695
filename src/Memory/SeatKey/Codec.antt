-- ===== src/Memory/SeatKey/Codec.antt =====
-- `seatKey` and `parseSeatKey` of internal/adapters/redis/holdstore.go, one after the other.
use mathlib.Core.List.{append_assoc}
use booking_concurrent.Common.{
  suc, ◌≡◌, ◌≢◌, ap, true, some, [], ◌∷◌, ◌++◌, arith, Text, bytes, All, ℤ, pos, negsuc,
}
use booking_concurrent.Common.Decimal.{itoa, parse_int-itoa, digits, All-digits, is_digit, IsInt64}
use booking_concurrent.Common.Strings.{
  cut-append, after_prefix, after_prefix-append, last_cut, last_cut-append,
}
use booking_concurrent.Domain.Booking.{Seat, Unicode, all_letters}
use booking_concurrent.Domain.Booking.Seats.{IsSeat, new_seat_of_IsSeat}
use booking_concurrent.Memory.SeatKey.{seat_key, parse_rest, parse_seat_key}

no_colon_letters : (s : Text) → all_letters s ≡ true → All (λ c. c ≢ b':') s
unfolding all_letters
no_colon_letters [] h = tt
no_colon_letters (c ∷ s) h = (ground arith, no_colon_letters s (ground arith))

no_colon_digits : (s : Text) → All (λ c. is_digit c ≡ true) s → All (λ c. c ≢ b':') s
no_colon_digits [] h = tt
no_colon_digits (c ∷ s) h = (ground (arith, h.0), no_colon_digits s h.1)

no_colon_itoa : (a : ℤ) → All (λ c. c ≢ b':') (itoa a)
unfolding itoa
no_colon_itoa (pos n) = no_colon_digits (digits (suc n) n) (All-digits (suc n) n)
no_colon_itoa (negsuc n) =
    (omega arith, no_colon_digits (digits (suc (suc n)) (suc n)) (All-digits (suc (suc n)) (suc n)))

-- `parseSeatKey` reads back every key that `seatKey` writes for a seat, whatever the screening's id
-- and the Unicode tables.
pub parse_seat_key-seat_key :
    (u : Unicode) (sid : Text) (s : Seat)
    → IsSeat s
    → IsInt64 s.number
    → parse_seat_key u sid (seat_key sid s) ≡ some s
unfolding parse_seat_key parse_rest
parse_seat_key-seat_key u sid s v r =
    rw (key_split, after_prefix-append (bytes "seat:" ++ (sid ++ b':' ∷ [])) rest, parse_seat_key)
      (rw (cut-append b':' s.row (itoa s.number) (no_colon_letters s.row v.letters), parse_rest)
        (rw (parse_int-itoa s.number r, new_seat_of_IsSeat u s v)))
  where
    rest : Text
    rest = s.row ++ b':' ∷ itoa s.number

    key_split : seat_key sid s ≡ (bytes "seat:" ++ (sid ++ b':' ∷ [])) ++ rest
    key_split = unfold seat_key in simp append_assoc

-- The screening's id and the row, as the last colon of a key leaves them.
seat_key-shape :
    (sid : Text) (s : Seat)
    → seat_key sid s ≡ ((bytes "seat:" ++ sid) ++ (b':' ∷ s.row)) ++ b':' ∷ itoa s.number
unfolding seat_key
seat_key-shape sid s = simp append_assoc

cut_twice :
    (sid : Text) (s : Seat)
    → IsSeat s
    → (last_cut b':' (seat_key sid s)
        ≡ some ((bytes "seat:" ++ sid) ++ (b':' ∷ s.row), itoa s.number))
      × (last_cut b':' ((bytes "seat:" ++ sid) ++ (b':' ∷ s.row))
          ≡ some (bytes "seat:" ++ sid, s.row))
cut_twice sid s v = (
  rw (seat_key-shape sid s) (last_cut-append b':' _ (itoa s.number) (no_colon_itoa s.number)),
  last_cut-append b':' (bytes "seat:" ++ sid) s.row (no_colon_letters s.row v.letters),
)

after_seat : (sid : Text) → after_prefix (bytes "seat:") (bytes "seat:" ++ sid) ≡ some sid
after_seat sid = after_prefix-append (bytes "seat:") sid

-- Two seats share a key only if they are the same seat of the same screening, whatever the
-- screenings' ids.
pub seat_key-injective :
    (a b : Text) (s t : Seat)
    → IsSeat s
    → IsSeat t
    → IsInt64 s.number
    → IsInt64 t.number
    → seat_key a s ≡ seat_key b t
    → (a ≡ b) × (s ≡ t)
seat_key-injective a b s t vs vt rs rt e =
    let (cs, ds) = cut_twice a s vs in
    let (ct, dt) = cut_twice b t vt in
    ground (
      arith,
      cs,
      ct,
      ds,
      dt,
      ap (last_cut b':') e,
      after_seat a,
      after_seat b,
      parse_int-itoa s.number rs,
      parse_int-itoa t.number rt,
    )
