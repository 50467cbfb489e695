-- ===== src/Domain/Booking.antt =====
-- internal/domain/booking/booking.go: seats, holds and bookings.
-- An instant is a number of nanoseconds since the zero `time.Time`.
pub mod Seats
use booking_concurrent.Common.{
  ℕ, ◌+◌, ◌-◌, ◌≡◌, Bool, true, false, ◌&&◌, ◌||◌, not, List, [], ◌∷◌, map, arith, ltb, leb, ◌==◌,
  if◌then◌else◌, Text, text_eq, text_discrete, length, bytes, ℤ, pos, negsuc, int_lt, int_discrete,
  Result, ok, err, ◌>>=◌, ◌>>◌, refuse_if, Error, message,
}

abbrev pub Time : Type 0
Time = ℕ

-- `a.Before(b)`
abbrev pub before : Time → Time → Bool
before a b = ltb a b

pub data Status : Type 0 where
  confirmed cancelled : Status

pub data SeatStatus : Type 0 where
  available held booked : SeatStatus

pub record Seat : Type 0 where
  pub row : Text
  pub number : ℤ

-- What the Unicode tables of the standard library do to a string that has a byte above 127.
pub record Unicode : Type 0 where
  pub upper : Text → Text
  pub lower : Text → Text
  pub trim : Text → Text

abbrev is_space : ℕ → Bool
is_space c = c == 32 || (leb 9 c && leb c 13)

unfoldable pub trim_left : Text → Text
trim_left [] = []
trim_left (c ∷ s) = let rest = trim_left s in if is_space c then rest else c ∷ s

-- Drops the spaces at the end.
unfoldable pub trim_right : Text → Text
trim_right [] = []
trim_right (c ∷ s) = elim (trim_right s) [
  | [] ↦ if is_space c then [] else c ∷ []
  | d ∷ r ↦ c ∷ d ∷ r
]

unfoldable pub is_ascii : Text → Bool
is_ascii [] = true
is_ascii (c ∷ s) = ltb c 128 && is_ascii s

abbrev pub lower_byte : ℕ → ℕ
lower_byte c = if leb b'A' c && leb c b'Z' then c + 32 else c

-- `strings.ToLower`
unfoldable pub to_lower : Unicode → Text → Text
to_lower u s = if is_ascii s then map lower_byte s else u.lower s

-- `strings.TrimSpace`
unfoldable pub trim_space : Unicode → Text → Text
trim_space u s = if is_ascii s then trim_right (trim_left s) else u.trim s

abbrev pub upper_byte : ℕ → ℕ
upper_byte c = if leb b'a' c && leb c b'z' then c - 32 else c

-- `strings.ToUpper`
unfoldable pub to_upper : Unicode → Text → Text
to_upper u s = if is_ascii s then map upper_byte s else u.upper s

-- The loop over the row's characters.
unfoldable pub all_letters : Text → Bool
all_letters [] = true
all_letters (c ∷ s) = if ltb c b'A' || ltb b'Z' c then false else all_letters s

unfoldable pub new_seat : Unicode → Text → ℤ → Result Seat
new_seat u row number = do
  let row' = to_upper u (trim_space u row)
  refuse_if (text_eq row' [] || ltb 3 (length row'))
      (message (bytes "booking: invalid seat row %q (1-3 letters)"))
  refuse_if (not (all_letters row')) (message (bytes "booking: invalid seat row %q (letters only)"))
  refuse_if (int_lt number (pos 1))
      (message (bytes "booking: invalid seat number %d (must be >= 1)"))
  ok (record { row = row'; number = number })

pub record Hold : Type 0 where
  pub session_id : Text
  pub screening_id : Text
  pub seat : Seat
  pub user_id : Text
  pub hold_token : Text
  pub expires_at : Time

unfoldable pub is_expired : Hold → Time → Bool
is_expired h now = not (before now h.expires_at)

unfoldable pub validate : Hold → Time → Result (Unit {0})
validate h now = do
  refuse_if (text_eq h.session_id []) (message (bytes "booking: hold requires a session ID"))
  refuse_if (text_eq h.screening_id []) (message (bytes "booking: hold requires a screening ID"))
  refuse_if (text_eq h.user_id []) (message (bytes "booking: hold requires a user ID"))
  refuse_if (text_eq h.hold_token []) (message (bytes "booking: hold requires a hold token"))
  refuse_if (text_eq h.seat.row [] || int_lt h.seat.number (pos 1))
      (message (bytes "booking: hold requires a valid seat"))
  refuse_if (h.expires_at == 0 || not (before now h.expires_at))
      (message (bytes "booking: hold expiry must be in the future"))
  ok tt

unfoldable pub can_be_confirmed : Hold → Time → Bool
unfolding is_expired
can_be_confirmed h now = not (is_expired h now)

pub record Booking : Type 0 where
  pub id : Text
  pub session_id : Text
  pub screening_id : Text
  pub seat : Seat
  pub user_id : Text
  pub status : Status
  pub confirmed_at : Time

abbrev pub is_confirmed : Status → Bool
is_confirmed confirmed = true
is_confirmed cancelled = false

unfoldable pub can_be_cancelled : Booking → Bool
can_be_cancelled b = is_confirmed b.status

pub seat_ext : (a b : Seat) → a.row ≡ b.row → a.number ≡ b.number → a ≡ b
seat_ext a b p q = ground arith

-- Go's `==` on seats.
unfoldable pub seat_discrete : (a b : Seat) → Dec (a ≡ b)
seat_discrete a b = elim (text_discrete a.row b.row) [
  | yes p ↦ elim (int_discrete a.number b.number) [
    | yes q ↦ yes (seat_ext a b p q)
    | no q ↦ no (λ e. q (cc))
  ]
  | no p ↦ no (λ e. p (cc))
]

abbrev pub seat_eq : Seat → Seat → Bool
seat_eq a b = elim (seat_discrete a b) [ yes _ ↦ true | no _ ↦ false ]
