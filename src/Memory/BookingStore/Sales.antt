-- ===== src/Memory/BookingStore/Sales.antt =====
-- `Confirm` of the booking store as the arbiter of a seat.
use booking_concurrent.Common.{
  ◌≡◌, refl, true, false, ◌||◌, some, List, [], ◌∷◌, ◌++◌, arith, Text, text_eq, ok, if◌then◌else◌,
}
use booking_concurrent.Common.Dict.{lookup, lookup-insert}
use booking_concurrent.Domain.Booking.{Time, Booking, is_confirmed}
use booking_concurrent.Memory.BookingStore.{
  BookingStore, booking_key, rows_at, any_confirmed, stamp, record_sale, confirm, get_by_session,
  seat_confirmed, confirm_cases, new_booking_store,
}

pub record IsSound (s : BookingStore) : Type 0 where
  pub keyed : (sid : Text) (b : Booking) → lookup sid s.by_session ≡ some b → b.session_id ≡ sid
  pub confirmed :
      (sid : Text) (b : Booking) → lookup sid s.by_session ≡ some b → is_confirmed b.status ≡ true
  pub filed :
      (sid : Text) (b : Booking)
      → lookup sid s.by_session ≡ some b
      → is_confirmed b.status ≡ true
      → any_confirmed (rows_at s.by_seat (booking_key b)) ≡ true
  pub exclusive :
      (x y : Text) (a b : Booking)
      → lookup x s.by_session ≡ some a
      → lookup y s.by_session ≡ some b
      → is_confirmed a.status ≡ true
      → is_confirmed b.status ≡ true
      → booking_key a ≡ booking_key b
      → x ≡ y

pub new-IsSound : IsSound new_booking_store
unfolding new_booking_store lookup
new-IsSound = record {
  keyed = λ sid b e. cc;
  confirmed = λ sid b e. cc;
  filed = λ sid b e c. cc;
  exclusive = λ x y a b p q ca cb e. cc;
}

pub any_confirmed-append :
    (bs cs : List Booking) → any_confirmed (bs ++ cs) ≡ (any_confirmed bs || any_confirmed cs)
unfolding any_confirmed
any_confirmed-append [] cs = refl
any_confirmed-append (b ∷ bs) cs = ground (arith, any_confirmed-append bs cs)

pub rows_at-record_sale :
    (s : BookingStore) (b : Booking) (k : Text)
    → rows_at (record_sale s b).by_seat k ≡ (
        if text_eq (booking_key b) k
        then rows_at s.by_seat (booking_key b) ++ b ∷ []
        else rows_at s.by_seat k)
unfolding record_sale
rows_at-record_sale s b k =
    ground (
      arith,
      lookup-insert (booking_key b) k (rows_at s.by_seat (booking_key b) ++ b ∷ []) s.by_seat,
    )

-- A confirmed row at a seat is there to stay, and a sale makes one.
pub sold-record_sale :
    (s : BookingStore) (b : Booking) (k : Text)
    → is_confirmed b.status ≡ true
    → any_confirmed (rows_at (record_sale s b).by_seat k)
      ≡ (text_eq (booking_key b) k || any_confirmed (rows_at s.by_seat k))
unfolding any_confirmed
sold-record_sale s b k c = ground (
  arith,
  rows_at-record_sale s b k,
  any_confirmed-append (rows_at s.by_seat (booking_key b)) (b ∷ []),
)

pub by_session-record_sale :
    (s : BookingStore) (b : Booking) (sid : Text)
    → lookup sid (record_sale s b).by_session
      ≡ (if text_eq b.session_id sid then some b else lookup sid s.by_session)
unfolding record_sale
by_session-record_sale s b sid = lookup-insert b.session_id sid b s.by_session

record_sale-IsSound :
    {s : BookingStore} (b : Booking)
    → is_confirmed b.status ≡ true
    → any_confirmed (rows_at s.by_seat (booking_key b)) ≡ false
    → IsSound s
    → IsSound (record_sale s b)
record_sale-IsSound {s} b c free v = record {
  keyed = λ sid a e. ground (arith, by_session-record_sale s b sid, v.keyed sid a);
  confirmed = λ sid a e. ground (arith, by_session-record_sale s b sid, v.confirmed sid a);
  filed = λ sid a e ca. ground (
    arith,
    by_session-record_sale s b sid,
    sold-record_sale s b (booking_key a) c,
    v.filed sid a,
  );
  exclusive = λ x y a d p q ca cd e. ground (
    arith,
    by_session-record_sale s b x,
    by_session-record_sale s b y,
    v.filed x a,
    v.filed y d,
    v.exclusive x y a d,
  );
}

-- Every attempt to confirm, won or lost, keeps the store sound.
pub confirm-IsSound :
    {s : BookingStore} (now : Time) (id : Text) (b : Booking)
    → IsSound s
    → IsSound (confirm s now id b).1
confirm-IsSound {s} now id b v =
    confirm_cases (λ r. IsSound r.1) s now id b (λ _ _. v) (λ _ _. v)
      (λ _ free. record_sale-IsSound (stamp b id now) refl free v)

-- What was sold stays sold, whatever is attempted next.
pub sold-confirm :
    (s : BookingStore) (now : Time) (id : Text) (b : Booking) (k : Text)
    → any_confirmed (rows_at s.by_seat k) ≡ true
    → any_confirmed (rows_at (confirm s now id b).1.by_seat k) ≡ true
sold-confirm s now id b k h =
    confirm_cases (λ r. any_confirmed (rows_at r.1.by_seat k) ≡ true) s now id b (λ _ _. h)
      (λ _ _. h) (λ _ _. ground (arith, sold-record_sale s (stamp b id now) k refl))

-- A booking that the store has given out is never changed by a later attempt.
pub by_session-confirm :
    (s : BookingStore) (now : Time) (id : Text) (b : Booking) (sid : Text) (old : Booking)
    → lookup sid s.by_session ≡ some old
    → lookup sid (confirm s now id b).1.by_session ≡ some old
by_session-confirm s now id b sid old h =
    confirm_cases (λ r. lookup sid r.1.by_session ≡ some old) s now id b (λ _ _. h) (λ _ _. h)
      (λ fresh _. ground (arith, by_session-record_sale s (stamp b id now) sid))

-- A confirm that succeeds returns the row that the session and the seat now show.
pub confirm_visible :
    (s : BookingStore) (now : Time) (id : Text) (b row : Booking)
    → (confirm s now id b).0 ≡ ok row
    → (get_by_session (confirm s now id b).1 b.session_id ≡ ok row)
      × (seat_confirmed (confirm s now id b).1 b.screening_id b.seat ≡ true)
      × (row ≡ stamp b id now)
confirm_visible s now id b row =
    confirm_cases
      (λ r.
        r.0 ≡ ok row
        → (get_by_session r.1 b.session_id ≡ ok row)
          × (seat_confirmed r.1 b.screening_id b.seat ≡ true)
          × (row ≡ stamp b id now))
      s now id b (λ _ _ e. cc) (λ _ _ e. cc)
      (λ _ _ e.
        unfold get_by_session seat_confirmed in
        ground (
          arith,
          by_session-record_sale s (stamp b id now) b.session_id,
          sold-record_sale s (stamp b id now) (booking_key b) refl,
        ))
