-- ===== src/World/Run/Selling.antt =====
-- A confirm on its own: what it sells, what it refuses, and what a replay gets.
use booking_concurrent.Common.{
  ◌+◌, ◌≡◌, ◌⊎◌, refl, inl, inr, Bool, true, false, ◌&&◌, none, arith, Text, text_eq, Result, ok,
  err, Error, sentinel, booking_error, payment_error, hold_not_found, not_hold_owner, hold_expired,
  payment_not_captured, Option-cases, Bool-cases,
}
use booking_concurrent.Common.Dict.{lookup, lookup-delete}
use booking_concurrent.Common.Proc.{reject_if}
use booking_concurrent.Domain.Booking.{before, Hold, can_be_confirmed}
use booking_concurrent.Memory.HoldStore
use booking_concurrent.Memory.HoldStore.{give_up}
use booking_concurrent.Memory.BookingStore
use booking_concurrent.Memory.BookingStore.{stamp, record_sale, any_confirmed, rows_at, booking_key}
use booking_concurrent.Memory.PaymentStore
use booking_concurrent.Application.Booking.{confirm, draft, finish, cleanup_hold}
use booking_concurrent.World.{World, Outside, exec}
use booking_concurrent.World.Run.{run}

-- The hold lookups that must not tell a prober which sessions exist.
abbrev pub IsHidden : Error → Type 0
IsHidden e =
    (e ≡ sentinel (booking_error hold_not_found))
    ⊎ (e ≡ sentinel (booking_error not_hold_owner))
    ⊎ (e ≡ sentinel (booking_error hold_expired))

-- Whether the session is a live hold of this user.
abbrev pub is_own_live_hold : World → Text → Text → Bool
is_own_live_hold w uid sid = elim (HoldStore.get w.holds w.clock sid) [
  | err e ↦ false
  | ok h ↦ text_eq h.user_id uid && before w.clock h.expires_at
]

-- The world after the sale of a hold: the booking is recorded and the hold is given up.
abbrev pub sold : Outside → World → Text → Text → Hold → World
sold x w uid sid h = record w {
  minted = w.minted + 1;
  bookings = record_sale w.bookings (stamp (draft h) (x.uuid w.minted) w.clock);
  holds = (HoldStore.release w.holds w.clock sid uid).1;
}

-- A live hold of this user, paid for, of a session without a booking and on a seat that is not sold,
-- is sold: the answer is the booking of just that hold at the clock's reading, the store records
-- it, and the hold is given up.
pub confirm_sells :
    (x : Outside) (w : World) (uid sid : Text) (h : Hold)
    → HoldStore.get w.holds w.clock sid ≡ ok h
    → text_eq h.user_id uid ≡ true
    → before w.clock h.expires_at ≡ true
    → PaymentStore.has_captured_payment w.payments sid ≡ true
    → lookup h.session_id w.bookings.by_session ≡ none
    → any_confirmed (rows_at w.bookings.by_seat (booking_key (draft h))) ≡ false
    → run x (confirm uid sid) w ≡ (
      ok (record { booking = stamp (draft h) (x.uuid w.minted) w.clock; created = true }),
      sold x w uid sid h,
    )
unfolding run exec confirm finish cleanup_hold reject_if can_be_confirmed BookingStore.confirm
confirm_sells x w uid sid h held own live paid fresh free = ground arith

pub get-IsHidden :
    (w : World) (sid : Text) (e : Error) → HoldStore.get w.holds w.clock sid ≡ err e → IsHidden e
unfolding HoldStore.get
get-IsHidden w sid e h = elim (Option-cases (lookup sid w.holds.sessions)) [
  | inl n ↦ inl (ground arith)
  | inr (g, n) ↦ inl (ground arith)
]

-- Without a live hold of this user a confirm answers one of the three errors that look alike, and
-- changes nothing.
pub confirm-IsHidden :
    (x : Outside) (w : World) (uid sid : Text)
    → is_own_live_hold w uid sid ≡ false
    → (e : Error) × IsHidden e × (run x (confirm uid sid) w ≡ (err e, w))
confirm-IsHidden x w uid sid no_hold = go (HoldStore.get w.holds w.clock sid) refl
  where
    go :
        (r : Result Hold)
        → HoldStore.get w.holds w.clock sid ≡ r
        → (e : Error) × IsHidden e × (run x (confirm uid sid) w ≡ (err e, w))
    go (err e) h = (e, get-IsHidden w sid e h, unfold run exec confirm in ground arith)
    go (ok h) held = elim (Bool-cases (text_eq h.user_id uid)) [
      | inr foreign ↦ (_, inr (inl refl), unfold run exec confirm reject_if in ground arith)
      | inl own ↦
          (_, inr (inr refl), unfold run exec confirm reject_if can_be_confirmed in ground arith)
    ]

-- With a live hold of this user but no captured payment, a confirm answers that the payment is
-- missing, and changes nothing.
pub confirm_unpaid :
    (x : Outside) (w : World) (uid sid : Text)
    → is_own_live_hold w uid sid ≡ true
    → PaymentStore.has_captured_payment w.payments sid ≡ false
    → run x (confirm uid sid) w ≡ (err (sentinel (payment_error payment_not_captured)), w)
unfolding run exec confirm reject_if can_be_confirmed
confirm_unpaid x w uid sid own unpaid = ground arith

released :
    (w : World) (uid sid : Text) (h : Hold)
    → HoldStore.get w.holds w.clock sid ≡ ok h
    → text_eq h.user_id uid ≡ true
    → before w.clock h.expires_at ≡ true
    → HoldStore.get (HoldStore.release w.holds w.clock sid uid).1 w.clock sid
      ≡ err (sentinel (booking_error hold_not_found))
unfolding HoldStore.get HoldStore.release give_up
released w uid sid h held own live = elim (Option-cases (lookup sid w.holds.sessions)) [
  | inl n ↦ absurd (ground arith)
  | inr (g, n) ↦ ground (arith, lookup-delete sid sid w.holds.sessions)
]

-- After a confirm that sells (a live hold of this user, paid for, of a session without a booking and
-- on a seat that is not sold), the same confirm again at the same instant finds no hold: it answers
-- that error and changes nothing.
pub replay_refused :
    (x : Outside) (w : World) (uid sid : Text) (h : Hold)
    → HoldStore.get w.holds w.clock sid ≡ ok h
    → text_eq h.user_id uid ≡ true
    → before w.clock h.expires_at ≡ true
    → PaymentStore.has_captured_payment w.payments sid ≡ true
    → lookup h.session_id w.bookings.by_session ≡ none
    → any_confirmed (rows_at w.bookings.by_seat (booking_key (draft h))) ≡ false
    → run x (confirm uid sid) (run x (confirm uid sid) w).1
      ≡ (err (sentinel (booking_error hold_not_found)), (run x (confirm uid sid) w).1)
replay_refused x w uid sid h held own live paid fresh free =
    rw (confirm_sells x w uid sid h held own live paid fresh free) gone
  where
    gone :
        run x (confirm uid sid) (sold x w uid sid h)
        ≡ (err (sentinel (booking_error hold_not_found)), sold x w uid sid h)
    gone = unfold run exec confirm in ground (arith, released w uid sid h held own live)
