-- ===== src/Postgres/Payments/Histories.antt =====
-- The tables that statements of internal/adapters/postgres/repos_payment.go lead to.
use booking_concurrent.Common.{
  ◌≤◌, ◌≡◌, refl, Bool, ◌&&◌, none, List, [], ◌∷◌, ◌++◌, Text, text_eq, arith, Bool-cases,
  Option-cases, inl, inr,
}
use booking_concurrent.Domain.Booking.{Time}
use booking_concurrent.Domain.Payment.{Payment, Status}
use booking_concurrent.Memory.PaymentStore.Arbiter.{
  IsSound, intent_count, active_count, active_count-append, intent_count-append,
}
use booking_concurrent.Postgres.Payments.{
  update_open, capture_payment, fail_payment, payment_violation, inserted, intent_row, is_open,
}
use booking_concurrent.Postgres.Payments.Agreement.{
  Agrees, indexed-Agrees, has_intent_lem, has_active_lem,
}
use booking_concurrent.Postgres.Payments.Races.{Statement, insert, capture_of, failure_of, after}

unfoldable pub after_all : List Statement → List Payment → List Payment
after_all [] rows = rows
after_all (s ∷ ss) rows = after_all ss (after s rows)

intent_count-update :
    (next : Status) (rows : List Payment) (now : Time) (jid iid : Text)
    → intent_count iid (update_open next rows now jid).1 ≡ intent_count iid rows
unfolding update_open intent_count
intent_count-update next [] now jid iid = refl {a = 0}
intent_count-update next (row ∷ rows) now jid iid =
    elim (Bool-cases (text_eq row.intent_id jid && is_open row.status)) [
      | inl hit ↦ rw hit (ground (arith, intent_count-update next rows now jid iid))
      | inr miss ↦ rw miss (ground (arith, intent_count-update next rows now jid iid))
    ]

-- An open payment is active already.
active_count-update :
    (next : Status) (rows : List Payment) (now : Time) (jid sid : Text)
    → active_count sid (update_open next rows now jid).1 ≤ active_count sid rows
unfolding update_open active_count
active_count-update next [] now jid sid = omega arith
active_count-update next (row ∷ rows) now jid sid =
    elim (Bool-cases (text_eq row.intent_id jid && is_open row.status)) [
      | inl hit ↦ rw hit (ground (arith, active_count-update next rows now jid sid))
      | inr miss ↦ rw miss (ground (arith, active_count-update next rows now jid sid))
    ]

update-IsSound :
    (next : Status) (rows : List Payment) (now : Time) (jid : Text)
    → IsSound rows
    → IsSound (update_open next rows now jid).1
update-IsSound next rows now jid v = record {
  one_active = λ sid. omega (arith, active_count-update next rows now jid sid, v.one_active sid);
  one_row = λ iid. omega (arith, intent_count-update next rows now jid iid, v.one_row iid);
}

-- What the indexes say of a row that violates none of them.
new_row :
    (first : Bool) (rows : List Payment) (p : Payment)
    → payment_violation first rows p ≡ none
    → (intent_count p.intent_id rows ≡ 0) × (active_count p.booking_session_id rows ≡ 0)
unfolding payment_violation
new_row first rows p e = (
  (has_intent_lem rows p.intent_id).0 (ground arith),
  (has_active_lem rows p.booking_session_id).0 (ground arith),
)

append-IsSound :
    (rows : List Payment) (p : Payment)
    → intent_count p.intent_id rows ≡ 0
    → active_count p.booking_session_id rows ≡ 0
    → IsSound rows
    → IsSound (rows ++ p ∷ [])
unfolding intent_count active_count
append-IsSound rows p i a v = record {
  one_active = λ sid. ground (arith, v.one_active sid, active_count-append sid rows (p ∷ []));
  one_row = λ iid. ground (arith, v.one_row iid, intent_count-append iid rows (p ∷ []));
}

after-IsSound : (s : Statement) (rows : List Payment) → IsSound rows → IsSound (after s rows)
unfolding after capture_payment fail_payment
after-IsSound (insert first now id p) rows v =
    elim (Option-cases (payment_violation first rows (intent_row p id now))) [
      | inr (e, bad) ↦ rw bad (unfold inserted in v)
      | inl none' ↦
          let (i, a) = new_row first rows (intent_row p id now) none' in
          rw none' (unfold inserted in append-IsSound rows (intent_row p id now) i a v)
    ]
after-IsSound (capture_of now iid) rows v = update-IsSound Status.captured rows now iid v
after-IsSound (failure_of now iid) rows v = update-IsSound Status.failed rows now iid v

-- Whatever statements any number of requests have run, from a table in which an intent has one row
-- and a session one active row (as an empty table): the repository does what the store in memory
-- does. Captures and failures that meet no fault and no other writer between their statements give
-- the same answer and the same table, and every lookup gives the same answer.
pub after_all-Agrees :
    (ss : List Statement) (rows : List Payment) → IsSound rows → Agrees (after_all ss rows)
unfolding after_all
after_all-Agrees [] rows v = indexed-Agrees rows v
after_all-Agrees (s ∷ ss) rows v = after_all-Agrees ss (after s rows) (after-IsSound s rows v)
