-- ===== src/Postgres/Bookings/Outbox.antt =====
-- The outbox of internal/adapters/postgres/repos_booking.go: an event for each sale.
use booking_concurrent.Common.{◌≡◌, refl, ap, some, List, [], ◌∷◌, ◌++◌, map, Text}
use booking_concurrent.Common.Trip.{Trip, answered, unsent, unanswered}
use booking_concurrent.Domain.Booking.{Time, Booking}
use booking_concurrent.Postgres.Bookings.{
  Outside, Faults, Database, OutboxEvent, payload_of, event_of, booking_confirmed_event_type,
  commit, confirm, confirm_cases,
}

-- One event for each booking, in the order of the sales, with the booking's own columns.
pub record IsQueued (o : Outside) (db : Database) : Type 0 where
  pub payloads :
      map (λ (e : OutboxEvent). some e.payload) db.outbox
      ≡ map (λ (b : Booking). o.encode (payload_of b)) db.bookings
  pub labelled :
      map (λ (e : OutboxEvent). e.event_type) db.outbox
      ≡ map (λ (b : Booking). booking_confirmed_event_type) db.bookings

map-append {ℓ κ} :
    {A : Type ℓ} {B : Type κ} (f : A → B) (xs ys : List A) → map f (xs ++ ys) ≡ map f xs ++ map f ys
map-append f [] ys = refl
map-append f (x ∷ xs) ys = ap (λ r. f x ∷ r) (map-append f xs ys)

sold-IsQueued :
    (o : Outside) (db : Database) (row : Booking) (event_id payload : Text)
    → o.encode (payload_of row) ≡ some payload
    → IsQueued o db
    → IsQueued o (record {
      bookings = db.bookings ++ row ∷ [];
      outbox = db.outbox ++ event_of event_id payload ∷ [];
    })
sold-IsQueued o db row event_id payload e v = record {
  payloads =
      rw
        (
          map-append (λ (x : OutboxEvent). some x.payload) db.outbox
              (event_of event_id payload ∷ []),
          map-append (λ (x : Booking). o.encode (payload_of x)) db.bookings (row ∷ []),
          v.payloads,
          e,
        )
        refl;
  labelled =
      rw
        (
          map-append (λ (x : OutboxEvent). x.event_type) db.outbox (event_of event_id payload ∷ []),
          map-append (λ (x : Booking). booking_confirmed_event_type) db.bookings (row ∷ []),
          v.labelled,
        )
        refl;
}

pub commit_either {ℓ} :
    (P : Database → Type ℓ) (t : Trip) (old new : Database) (row : Booking)
    → P old
    → P new
    → P (commit t old new row).1
unfolding commit
commit_either P answered old new row p q = q
commit_either P unsent old new row p q = p
commit_either P unanswered old new row p q = q

-- Whatever fails, and wherever: after a `Confirm` there is an event for each booking and a booking
-- for each event, and the event's payload is the encoded row.
pub confirm-IsQueued :
    (o : Outside) (f : Faults) (db : Database) (now : Time) (id event_id : Text) (b : Booking)
    → IsQueued o db
    → IsQueued o (confirm o f db now id event_id b).1
confirm-IsQueued o f db now id event_id b v =
    confirm_cases (λ r. IsQueued o r.1) o f db now id event_id b (λ _. v)
      (λ row payload _ e.
        commit_either (IsQueued o) f.at_commit db _ row v
          (sold-IsQueued o db row event_id payload e v))
