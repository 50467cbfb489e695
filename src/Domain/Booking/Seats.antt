-- ===== src/Domain/Booking/Seats.antt =====
-- What `NewSeat` and `Validate` accept.
use booking_concurrent.Common.{
  ◌≤◌, ◌≡◌, ◌≢◌, refl, true, false, [], ◌∷◌, map, arith, Text, length, ℤ, pos, int_lt, ok,
}
use booking_concurrent.Domain.Booking.{
  Time, Seat, Unicode, trim_left, trim_right, is_ascii, trim_space, upper_byte, to_upper,
  all_letters, new_seat, Hold, validate, can_be_confirmed,
}

-- One to three capital letters, and a number from 1 on.
pub record IsSeat (s : Seat) : Type 0 where
  pub letters : all_letters s.row ≡ true
  pub some_letter : s.row ≢ []
  pub at_most_three : length s.row ≤ 3
  pub counted : int_lt s.number (pos 1) ≡ false

-- Whatever `NewSeat` accepts is such a seat, with the number unchanged.
pub new_seat-IsSeat :
    (u : Unicode) (row : Text) (n : ℤ) (s : Seat)
    → new_seat u row n ≡ ok s
    → IsSeat s × (s.number ≡ n)
unfolding new_seat
new_seat-IsSeat u row n s e = ground arith

is_ascii_of_letters : (s : Text) → all_letters s ≡ true → is_ascii s ≡ true
unfolding all_letters is_ascii
is_ascii_of_letters [] h = refl
is_ascii_of_letters (c ∷ s) h = ground (arith, is_ascii_of_letters s)

trim_left_of_letters : (s : Text) → all_letters s ≡ true → trim_left s ≡ s
unfolding all_letters trim_left
trim_left_of_letters [] h = refl
trim_left_of_letters (c ∷ s) h = ground arith

trim_right_of_letters : (s : Text) → all_letters s ≡ true → trim_right s ≡ s
unfolding all_letters trim_right
trim_right_of_letters [] h = refl
trim_right_of_letters (c ∷ s) h = ground (arith, trim_right_of_letters s)

upper_of_letters : (s : Text) → all_letters s ≡ true → map upper_byte s ≡ s
unfolding all_letters
upper_of_letters [] h = refl
upper_of_letters (c ∷ s) h = ground (arith, upper_of_letters s)

normal_of_letters :
    (u : Unicode) (s : Text) → all_letters s ≡ true → to_upper u (trim_space u s) ≡ s
unfolding to_upper trim_space
normal_of_letters u s h =
    rw (is_ascii_of_letters s h, trim_left_of_letters s h, trim_right_of_letters s h)
      (rw (is_ascii_of_letters s h) (upper_of_letters s h))

-- A seat that `NewSeat` can make is made again from its own row and number: the normal form is
-- stable, whatever the Unicode tables.
pub new_seat_of_IsSeat : (u : Unicode) (s : Seat) → IsSeat s → new_seat u s.row s.number ≡ ok s
unfolding new_seat
new_seat_of_IsSeat u s v =
    rw (normal_of_letters u s.row v.letters)
      (ground (arith, v.letters, v.some_letter, v.at_most_three))

-- A hold that `Validate` accepts is confirmable at that time, at every earlier time, and at no time
-- from its expiry on.
pub validate-window :
    (h : Hold) (now t : Time)
    → validate h now ≡ ok tt
    → (can_be_confirmed h now ≡ true)
      × (t ≤ now → can_be_confirmed h t ≡ true)
      × (h.expires_at ≤ t → can_be_confirmed h t ≡ false)
unfolding validate can_be_confirmed
validate-window h now t e = ground arith
