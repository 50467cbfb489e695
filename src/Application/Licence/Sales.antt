-- ===== src/Application/Licence/Sales.antt =====
-- The booking service and the licences.
use booking_concurrent.Common.{◌≡◌, refl, inl, inr, true, false, [], arith, Text, Result, ok, err}
use booking_concurrent.Common.Proc.{Obeys, done, next, Obeys-reject, Obeys-when, Obeys-return}
use booking_concurrent.Domain.Booking.{Time, Seat, Hold, Booking, validate}
use booking_concurrent.Application.Ports.{
  Events, hold_claim, hold_seats, booking_confirm, seat_confirmed, confirmed_seats,
  payment_captured, booking_get,
}
use booking_concurrent.Application.Booking.{draft, confirm, finish, claim, hold, release, seat_map}
use booking_concurrent.Application.Licence.{
  Licensed, not-eq-false, live_of_confirmable, eq_of_text_eq,
}

finish-Obeys :
    (user_id session_id : Text) (past : Events) (r : Result Booking)
    → Obeys (Licensed user_id) past (finish user_id session_id r)
unfolding finish
finish-Obeys user_id session_id past (ok b) = next tt λ r. done _ _
finish-Obeys user_id session_id past (err e) =
    Obeys-when
      (λ _. next {o = booking_get session_id} tt (elim [
        | ok b ↦ Obeys-when (λ _. done _ _) (λ _. Obeys-when (λ _. done _ _) (λ _. done _ _))
        | err f ↦ Obeys-when (λ _. done _ _) (λ _. done _ _)
      ]))
      (λ _. done _ _)

-- `Confirm` asks the booking store for a sale only of a live hold of this user whose session has a
-- captured payment, and of just that hold's seat, whatever the adapters reply.
pub confirm-Obeys :
    (user_id session_id : Text) → Obeys (Licensed user_id) [] (confirm user_id session_id)
unfolding confirm
confirm-Obeys user_id session_id = next tt (elim [
  | err e ↦ done _ _
  | ok h ↦ Obeys-reject _ (done _ _) λ own. next tt λ t. Obeys-reject _ (done _ _) λ live.
      next {o = payment_captured session_id} tt (elim [
        | err e ↦ done _ _
        | ok false ↦ Obeys-reject _ (done _ _) λ paid. absurd (ground arith)
        | ok true ↦ Obeys-reject _ (done _ _) λ paid.
            next {o = booking_confirm (draft h)}
              (
                session_id,
                h,
                (
                  t,
                  inr (inr (inl refl)),
                  inr (inl refl),
                  eq_of_text_eq _ _ own,
                  live_of_confirmable h t live,
                ),
                inl refl,
                refl,
              )
              λ r. finish-Obeys user_id session_id _ r
      ])
])

claim-Obeys :
    (user_id : Text) (past : Events) (h : Hold) (t : Time) (r : Result (Unit {0}))
    → (validate h t ≡ ok tt → Licensed user_id past (hold_claim h))
    → validate h t ≡ r
    → Obeys (Licensed user_id) past (claim h r)
unfolding claim
claim-Obeys user_id past h t (err e) licence valid = done _ _
claim-Obeys user_id past h t (ok _) licence valid =
    next {o = hold_claim h} (licence valid) λ r. Obeys-return _ (λ _. ok h) r

-- `Hold` claims only a seat that the screening has and that it has read as not sold, for this user
-- and well formed, whatever the adapters reply.
pub hold-Obeys :
    (hold_ttl : Time) (user_id screening_id : Text) (seat : Seat)
    → Obeys (Licensed user_id) [] (hold hold_ttl user_id screening_id seat)
unfolding hold
hold-Obeys hold_ttl user_id screening_id seat = next tt (elim [
  | err e ↦ done _ _
  | ok s ↦ Obeys-reject _ (done _ _) λ has. next {o = seat_confirmed screening_id seat} tt (elim [
    | err e ↦ done _ _
    | ok true ↦ Obeys-reject _ (done _ _) λ free. absurd (ground arith)
    | ok false ↦ Obeys-reject _ (done _ _) λ free. next tt λ t. next tt λ sid. next tt λ token.
        claim-Obeys user_id _ _ t _
          (λ valid. (
            s,
            t,
            inr (inr (inr (inr (inl refl)))),
            inr (inr (inr (inl refl))),
            inr (inr (inl refl)),
            not-eq-false _ has,
            valid,
            refl,
          ))
          refl
  ])
])

pub release-Obeys :
    (user_id session_id : Text) → Obeys (Licensed user_id) [] (release user_id session_id)
unfolding release
release-Obeys user_id session_id = next tt λ r. done _ _

pub seat_map-Obeys :
    (user_id screening_id : Text) → Obeys (Licensed user_id) [] (seat_map screening_id)
unfolding seat_map
seat_map-Obeys user_id screening_id = next tt (elim [
  | err e ↦ done _ _
  | ok s ↦ next {o = confirmed_seats screening_id} tt (elim [
    | err e ↦ done _ _
    | ok booked ↦
        next {o = hold_seats screening_id} tt (elim [ err e ↦ done _ _ | ok held ↦ done _ _ ])
  ])
])
