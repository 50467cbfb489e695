-- ===== src/Postgres/Payments.antt =====
-- internal/adapters/postgres/repos_payment.go, over the statements of db/queries/payments.sql. A row
-- of `payments` is a payment: `paymentFromRow` copies the columns, and a status of the table is one
-- of the six that its check admits.
pub mod Agreement
pub mod Races
pub mod Histories
use booking_concurrent.Common.{
  ℕ, Bool, true, false, ◌&&◌, ◌||◌, not, List, [], ◌∷◌, ◌++◌, Option, none, some, if◌then◌else◌,
  Text, text_eq, bytes, ltb, ◌==◌, ℤ, pos, int_lt, Result, ok, err, Error, sentinel, message, wrap,
  payment_error, payment_not_found, payment_invalid_transition, payment_intent_exists,
}
use booking_concurrent.Common.Sorting.{text_lt}
use booking_concurrent.Common.Trip.{Trip, answered, unsent, unanswered}
use booking_concurrent.Domain.Booking.{Time}
use booking_concurrent.Domain.Payment.{Payment, Status, status_eq}
use booking_concurrent.Postgres.Sql.{
  DbError, no_rows, pg_error, broken, unique_violation, check_violation, int32,
}
use booking_concurrent.Postgres.Bookings.{db_failure}

abbrev pub constraint_payment_active_session : Text
constraint_payment_active_session = bytes "payments_active_session_unique"

abbrev pub constraint_payment_intent_unique : Text
constraint_payment_intent_unique = bytes "payments_intent_unique"

-- `status NOT IN ('failed', 'refunded')`
abbrev pub not_over : Status → Bool
not_over status = not (status_eq status Status.failed || status_eq status Status.refunded)

-- `status IN ('intent', 'authorized')`
abbrev pub is_open : Status → Bool
is_open status = status_eq status Status.intent || status_eq status Status.authorized

unfoldable pub has_intent : List Payment → Text → Bool
has_intent [] intent_id = false
has_intent (row ∷ rows) intent_id = text_eq row.intent_id intent_id || has_intent rows intent_id

unfoldable pub has_active : List Payment → Text → Bool
has_active [] session_id = false
has_active (row ∷ rows) session_id =
    (text_eq row.booking_session_id session_id && not_over row.status) || has_active rows session_id

-- The constraint that stops the insertion of a row, if one does. Whether a server names the first
-- or the second of two violated indexes is the parameter `intent_first`.
unfoldable pub payment_violation : Bool → List Payment → Payment → Option DbError
payment_violation intent_first rows p =
    if not (text_eq p.gateway (bytes "fake") || text_eq p.gateway (bytes "stripe"))
    then some (pg_error check_violation (bytes "payments_gateway_known"))
    else if int_lt p.amount_cents (pos 0)
    then some (pg_error check_violation (bytes "payments_amount_nonnegative"))
    else if has_intent rows p.intent_id
        && (intent_first || not (has_active rows p.booking_session_id))
    then some (pg_error unique_violation constraint_payment_intent_unique)
    else if has_active rows p.booking_session_id
    then some (pg_error unique_violation constraint_payment_active_session)
    else none

-- The row that `InsertPaymentIntent` writes.
abbrev pub intent_row : Payment → Text → Time → Payment
intent_row p id now = record p {
  id = id;
  status = Status.intent;
  amount_cents = int32 p.amount_cents;
  created_at = now;
  updated_at = now;
}

-- `paymentConflictError`
unfoldable pub payment_conflict_error : DbError → Option Error
payment_conflict_error no_rows = none
payment_conflict_error broken = none
payment_conflict_error (pg_error code constraint) =
    if not (text_eq code unique_violation)
    then none
    else if text_eq constraint constraint_payment_active_session
    then some (sentinel (payment_error payment_intent_exists))
    else none

unfoldable pub insert_refused : DbError → Error
insert_refused e = elim (payment_conflict_error e) [
  | some conflict ↦ conflict
  | none ↦ db_failure (bytes "payment: insert intent: %w")
]

-- The table after the insertion, which a violation leaves as it is.
unfoldable pub inserted : Option DbError → List Payment → Payment → List Payment
inserted (some e) rows row = rows
inserted none rows row = rows ++ row ∷ []

unfoldable pub insert_answer : Option DbError → Payment → Result Payment
insert_answer (some e) row = err (insert_refused e)
insert_answer none row = ok row

unfoldable pub insert_intent :
    Bool → Trip → List Payment → Time → Text → Payment → Result Payment × List Payment
insert_intent intent_first trip rows now id p =
    let row = intent_row p id now in
    let violation = payment_violation intent_first rows row in
    elim trip [
      | answered ↦ (insert_answer violation row, inserted violation rows row)
      | unsent ↦ (err (db_failure (bytes "payment: insert intent: %w")), rows)
      | unanswered ↦
          (err (db_failure (bytes "payment: insert intent: %w")), inserted violation rows row)
    ]

-- `UPDATE payments SET status = $, updated_at = now() WHERE intent_id = $ AND status IN (...)
-- RETURNING *`: the first row returned, and the table.
unfoldable pub update_open : Status → List Payment → Time → Text → Option Payment × List Payment
update_open next [] now intent_id = (none, [])
update_open next (row ∷ rows) now intent_id =
    let rest = update_open next rows now intent_id in
    let row' = record row { status = next; updated_at = now } in
    if text_eq row.intent_id intent_id && is_open row.status
    then (some row', row' ∷ rest.1)
    else (rest.0, row ∷ rest.1)

-- `CapturePayment` and `FailPayment`
unfoldable pub capture_payment : List Payment → Time → Text → Option Payment × List Payment
capture_payment = update_open Status.captured

unfoldable pub fail_payment : List Payment → Time → Text → Option Payment × List Payment
fail_payment = update_open Status.failed

-- `GetPaymentByIntent`
unfoldable pub payment_by_intent : List Payment → Text → Option Payment
payment_by_intent [] intent_id = none
payment_by_intent (row ∷ rows) intent_id =
    if text_eq row.intent_id intent_id then some row else payment_by_intent rows intent_id

-- The second statement of `Capture`, which says why the first has met no row.
unfoldable pub classify_capture : Bool → List Payment → Text → Result (Payment × Bool)
classify_capture down rows intent_id =
    if down
    then err (db_failure (bytes "payment: capture: classify: %w"))
    else elim (payment_by_intent rows intent_id) [
      | none ↦ err (sentinel (payment_error payment_not_found))
      | some current ↦
          if status_eq current.status Status.captured
          then ok (current, false)
          else err (
              wrap (bytes "payment: capture: intent %s is in status %q: %w")
                (sentinel (payment_error payment_invalid_transition)))
    ]

unfoldable pub classify_failed : Bool → List Payment → Text → Result Payment
classify_failed down rows intent_id =
    if down
    then err (db_failure (bytes "payment: mark failed: classify: %w"))
    else elim (payment_by_intent rows intent_id) [
      | none ↦ err (sentinel (payment_error payment_not_found))
      | some current ↦
          if status_eq current.status Status.failed
          then ok current
          else err (
              wrap (bytes "payment: mark failed: intent %s is in status %q: %w")
                (sentinel (payment_error payment_invalid_transition)))
    ]

-- `Capture`: two statements and no transaction. What others write between the two is `meanwhile`.
unfoldable pub capture :
    Trip
    → (down : Bool) → (meanwhile : List Payment → List Payment) → List Payment
    → Time
    → Text
    → Result (Payment × Bool) × List Payment
capture unsent down meanwhile rows now intent_id =
    (err (db_failure (bytes "payment: capture: %w")), rows)
capture unanswered down meanwhile rows now intent_id =
    (err (db_failure (bytes "payment: capture: %w")), (capture_payment rows now intent_id).1)
capture answered down meanwhile rows now intent_id =
    let (moved, after) = capture_payment rows now intent_id in
    elim moved [
      | some row ↦ (ok (row, true), after)
      | none ↦ (classify_capture down (meanwhile after) intent_id, meanwhile after)
    ]

unfoldable pub mark_failed :
    Trip
    → (down : Bool) → (meanwhile : List Payment → List Payment) → List Payment
    → Time
    → Text
    → Result Payment × List Payment
mark_failed unsent down meanwhile rows now intent_id =
    (err (db_failure (bytes "payment: mark failed: %w")), rows)
mark_failed unanswered down meanwhile rows now intent_id =
    (err (db_failure (bytes "payment: mark failed: %w")), (fail_payment rows now intent_id).1)
mark_failed answered down meanwhile rows now intent_id =
    let (moved, after) = fail_payment rows now intent_id in
    elim moved [
      | some row ↦ (ok row, after)
      | none ↦ (classify_failed down (meanwhile after) intent_id, meanwhile after)
    ]

unfoldable pub get_by_intent : Bool → List Payment → Text → Result Payment
get_by_intent down rows intent_id =
    if down
    then err (db_failure (bytes "payment: get by intent: %w"))
    else elim (payment_by_intent rows intent_id) [
      | none ↦ err (sentinel (payment_error payment_not_found))
      | some row ↦ ok row
    ]

-- `ORDER BY created_at DESC, id DESC LIMIT 1`: whether the first row comes before the second.
abbrev pub comes_first : Payment → Payment → Bool
comes_first a b =
    ltb b.created_at a.created_at || (a.created_at == b.created_at && text_lt b.id a.id)

abbrev pub first_of : Payment → Option Payment → Payment
first_of row none = row
first_of row (some other) = if comes_first other row then other else row

-- `GetActivePaymentBySession`
unfoldable pub active_payment : List Payment → Text → Option Payment
active_payment [] session_id = none
active_payment (row ∷ rows) session_id =
    let rest = active_payment rows session_id in
    if text_eq row.booking_session_id session_id && not_over row.status
    then some (first_of row rest)
    else rest

unfoldable pub get_active_by_session : Bool → List Payment → Text → Result Payment
get_active_by_session down rows session_id =
    if down
    then err (db_failure (bytes "payment: get active by session: %w"))
    else elim (active_payment rows session_id) [
      | none ↦ err (sentinel (payment_error payment_not_found))
      | some row ↦ ok row
    ]

-- `HasCapturedPayment`
unfoldable pub exists_captured : List Payment → Text → Bool
exists_captured [] session_id = false
exists_captured (row ∷ rows) session_id =
    (text_eq row.booking_session_id session_id && status_eq row.status Status.captured)
    || exists_captured rows session_id

unfoldable pub has_captured_payment : Bool → List Payment → Text → Result Bool
has_captured_payment down rows session_id =
    if down
    then err (db_failure (bytes "payment: has captured payment: %w"))
    else ok (exists_captured rows session_id)
