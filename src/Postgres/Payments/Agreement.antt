-- ===== src/Postgres/Payments/Agreement.antt =====
-- The repository of internal/adapters/postgres/repos_payment.go beside the store of
-- internal/adapters/memory/paymentstore.go.
use booking_concurrent.Common.{
  ◌≤◌, Bool, true, false, ◌||◌, ◌≡◌, ◌↔◌, refl, none, some, List, [], ◌∷◌, Text, text_eq,
  text_discrete, bytes, arith, ok, Result, sentinel, pos, int_lt, Bool-cases, Option-cases, inl,
  inr, payment_error, payment_intent_exists,
}
use booking_concurrent.Common.Trip.{answered}
use booking_concurrent.Domain.Booking.{Time}
use booking_concurrent.Domain.Payment.{Payment, Status}
use booking_concurrent.Memory.PaymentStore
use booking_concurrent.Memory.PaymentStore.{
  capture_row, keep_captured, after_row, fail_row, keep_failed, last_active, stamp,
}
use booking_concurrent.Memory.PaymentStore.Arbiter.{
  IsSound, intent_count, active_count, conflict_iff,
}
use booking_concurrent.Postgres.Sql.{IsInt32, int32_of_IsInt32, pg_error, unique_violation}
use booking_concurrent.Postgres.Payments.{
  update_open, capture_payment, fail_payment, payment_by_intent, classify_capture, classify_failed,
  capture, mark_failed, get_by_intent, active_payment, get_active_by_session, exists_captured,
  has_captured_payment, payment_violation, insert_intent, insert_refused, insert_answer, inserted,
  has_intent, has_active, payment_conflict_error, constraint_payment_active_session,
}

update_open_absent :
    (next : Status) (rows : List Payment) (now : Time) (iid : Text)
    → intent_count iid rows ≡ 0
    → update_open next rows now iid ≡ (none, rows)
unfolding update_open intent_count
update_open_absent next [] now iid e = refl
update_open_absent next (row ∷ rows) now iid e =
    ground (arith, update_open_absent next rows now iid)

-- `Capture` with nothing between its statements, as a function of the table.
capture_alone : List Payment → Time → Text → Result (Payment × Bool) × List Payment
capture_alone rows now iid = capture answered false (λ t. t) rows now iid

capture_alone-skip :
    (row : Payment) (rows : List Payment) (now : Time) (iid : Text)
    → text_eq row.intent_id iid ≡ false
    → capture_alone (row ∷ rows) now iid ≡ after_row row (capture_alone rows now iid)
unfolding capture_alone capture capture_payment update_open classify_capture payment_by_intent
capture_alone-skip row rows now iid e =
    ground (arith, Option-cases (update_open Status.captured rows now iid).0)

capture_alone-hit :
    (row : Payment) (rows : List Payment) (now : Time) (iid : Text)
    → text_eq row.intent_id iid ≡ true
    → intent_count iid rows ≡ 0
    → capture_alone (row ∷ rows) now iid ≡ keep_captured row rows (capture_row row now row.status)
unfolding capture_alone capture capture_payment update_open classify_capture payment_by_intent
    capture_row
capture_alone-hit row rows now iid e none_left =
    ground (arith, update_open_absent Status.captured rows now iid none_left)

capture_alone-memory :
    (rows : List Payment) (now : Time) (iid : Text)
    → intent_count iid rows ≤ 1
    → capture_alone rows now iid ≡ PaymentStore.capture rows now iid
unfolding PaymentStore.capture intent_count
capture_alone-memory [] now iid h =
    unfold capture_alone capture capture_payment update_open classify_capture payment_by_intent in
    refl
capture_alone-memory (row ∷ rows) now iid h = elim (Bool-cases (text_eq row.intent_id iid)) [
  | inl same ↦
      rw (same, PaymentStore.capture) (capture_alone-hit row rows now iid same (ground arith))
  | inr other ↦
      rw
        (
          other,
          PaymentStore.capture,
          capture_alone-skip row rows now iid other,
          capture_alone-memory rows now iid (ground arith),
        )
        refl
]

failed_alone : List Payment → Time → Text → Result Payment × List Payment
failed_alone rows now iid = mark_failed answered false (λ t. t) rows now iid

failed_alone-skip :
    (row : Payment) (rows : List Payment) (now : Time) (iid : Text)
    → text_eq row.intent_id iid ≡ false
    → failed_alone (row ∷ rows) now iid ≡ after_row row (failed_alone rows now iid)
unfolding failed_alone mark_failed fail_payment update_open classify_failed payment_by_intent
failed_alone-skip row rows now iid e =
    ground (arith, Option-cases (update_open Status.failed rows now iid).0)

failed_alone-hit :
    (row : Payment) (rows : List Payment) (now : Time) (iid : Text)
    → text_eq row.intent_id iid ≡ true
    → intent_count iid rows ≡ 0
    → failed_alone (row ∷ rows) now iid ≡ keep_failed row rows (fail_row row now row.status)
unfolding failed_alone mark_failed fail_payment update_open classify_failed payment_by_intent
    fail_row
failed_alone-hit row rows now iid e none_left =
    ground (arith, update_open_absent Status.failed rows now iid none_left)

failed_alone-memory :
    (rows : List Payment) (now : Time) (iid : Text)
    → intent_count iid rows ≤ 1
    → failed_alone rows now iid ≡ PaymentStore.mark_failed rows now iid
unfolding PaymentStore.mark_failed intent_count
failed_alone-memory [] now iid h =
    unfold failed_alone mark_failed fail_payment update_open classify_failed payment_by_intent in
    refl
failed_alone-memory (row ∷ rows) now iid h = elim (Bool-cases (text_eq row.intent_id iid)) [
  | inl same ↦
      rw (same, PaymentStore.mark_failed) (failed_alone-hit row rows now iid same (ground arith))
  | inr other ↦
      rw
        (
          other,
          PaymentStore.mark_failed,
          failed_alone-skip row rows now iid other,
          failed_alone-memory rows now iid (ground arith),
        )
        refl
]

pub has_intent_lem :
    (rows : List Payment) (iid : Text) → (has_intent rows iid ≡ false) ↔ (intent_count iid rows ≡ 0)
unfolding has_intent intent_count
has_intent_lem [] iid = ground arith
has_intent_lem (row ∷ rows) iid = ground (arith, has_intent_lem rows iid)

pub has_active_lem :
    (rows : List Payment) (sid : Text) → (has_active rows sid ≡ false) ↔ (active_count sid rows ≡ 0)
unfolding has_active active_count
has_active_lem [] sid = ground arith
has_active_lem (row ∷ rows) sid = ground (arith, has_active_lem rows sid)

exists_captured-memory :
    (rows : List Payment) (sid : Text)
    → exists_captured rows sid ≡ PaymentStore.has_captured_payment rows sid
unfolding exists_captured PaymentStore.has_captured_payment
exists_captured-memory [] sid = refl
exists_captured-memory (row ∷ rows) sid = ground (arith, exists_captured-memory rows sid)

payment_by_intent-memory :
    (rows : List Payment) (iid : Text)
    → get_by_intent false rows iid ≡ PaymentStore.get_by_intent rows iid
unfolding get_by_intent payment_by_intent PaymentStore.get_by_intent
payment_by_intent-memory [] iid = refl
payment_by_intent-memory (row ∷ rows) iid = ground (arith, payment_by_intent-memory rows iid)

active_payment-none :
    (rows : List Payment) (sid : Text)
    → active_count sid rows ≡ 0
    → (active_payment rows sid ≡ none) × (last_active rows sid ≡ none)
unfolding active_payment last_active active_count
active_payment-none [] sid e = (refl, refl)
active_payment-none (row ∷ rows) sid e = ground (arith, active_payment-none rows sid)

active_payment-memory :
    (rows : List Payment) (sid : Text)
    → active_count sid rows ≤ 1
    → active_payment rows sid ≡ last_active rows sid
unfolding active_payment last_active active_count
active_payment-memory [] sid h = refl
active_payment-memory (row ∷ rows) sid h =
    ground (arith, active_payment-memory rows sid, active_payment-none rows sid)

-- What the unique indexes say of the table is what makes the repository and the store in memory one:
-- on such a table the two captures, the two failures and the four reads give the same answers and
-- leave the same rows.
pub record Agrees (rows : List Payment) : Type 0 where
  pub captures :
      (now : Time) (intent_id : Text)
      → capture answered false (λ t. t) rows now intent_id ≡ PaymentStore.capture rows now intent_id
  pub failures :
      (now : Time) (intent_id : Text)
      → mark_failed answered false (λ t. t) rows now intent_id
        ≡ PaymentStore.mark_failed rows now intent_id
  pub by_intent :
      (intent_id : Text)
      → get_by_intent false rows intent_id ≡ PaymentStore.get_by_intent rows intent_id
  pub by_session :
      (session_id : Text)
      → get_active_by_session false rows session_id
        ≡ PaymentStore.get_active_by_session rows session_id
  pub gate :
      (session_id : Text)
      → has_captured_payment false rows session_id
        ≡ ok (PaymentStore.has_captured_payment rows session_id)

-- On a table in which an intent has one row and a session one active row, as the unique indexes see to
-- it, the repository does what the store in memory does: captures and failures that meet no fault and
-- no other writer between their statements give the same answer and the same table, and every lookup
-- gives the same answer.
pub indexed-Agrees : (rows : List Payment) → IsSound rows → Agrees rows
unfolding get_active_by_session PaymentStore.get_active_by_session has_captured_payment
indexed-Agrees rows v = record {
  captures = λ now iid. unfold capture_alone in (capture_alone-memory rows now iid (v.one_row iid));
  failures = λ now iid. unfold failed_alone in (failed_alone-memory rows now iid (v.one_row iid));
  by_intent = λ iid. payment_by_intent-memory rows iid;
  by_session = λ sid. rw (active_payment-memory rows sid (v.one_active sid)) (ground arith);
  gate = λ sid. rw (exists_captured-memory rows sid) refl;
}

only_active :
    (rows : List Payment) (p : Payment)
    → intent_count p.intent_id rows ≡ 0
    → has_active rows p.booking_session_id ≡ true
    → PaymentStore.conflict rows p ≡ some (sentinel (payment_error payment_intent_exists))
unfolding PaymentStore.conflict intent_count has_active
only_active [] p e a = absurd (cc)
only_active (row ∷ rows) p e a = ground (arith, only_active rows p)

session_conflict :
    insert_refused (pg_error unique_violation constraint_payment_active_session)
    ≡ sentinel (payment_error payment_intent_exists)
unfolding insert_refused payment_conflict_error text_discrete
session_conflict = refl

-- An insertion with an intent that is new is the same in both: the row, or the error of a session
-- that has an active payment already. The gateway and the amount are what the table admits.
pub insert_intent-agrees :
    (intent_first : Bool) (rows : List Payment) (now : Time) (id : Text) (p : Payment)
    → (text_eq p.gateway (bytes "fake") || text_eq p.gateway (bytes "stripe")) ≡ true
    → int_lt p.amount_cents (pos 0) ≡ false
    → IsInt32 p.amount_cents
    → intent_count p.intent_id rows ≡ 0
    → insert_intent intent_first answered rows now id p ≡ PaymentStore.insert_intent rows now id p
unfolding insert_intent payment_violation inserted insert_answer PaymentStore.insert_intent
insert_intent-agrees intent_first rows now id p gateway amount fits fresh = ground (
  arith,
  int32_of_IsInt32 p.amount_cents fits,
  has_intent_lem rows p.intent_id,
  has_active_lem rows p.booking_session_id,
  conflict_iff rows p,
  session_conflict,
  only_active rows p fresh,
)
