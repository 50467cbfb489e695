-- ===== src/Memory/PaymentStore.antt =====
-- internal/adapters/memory/paymentstore.go.
pub mod Arbiter
pub mod Phases
pub mod Money
use booking_concurrent.Common.{
  Bool, true, false, ◌&&◌, ◌||◌, not, List, [], ◌∷◌, ◌++◌, Option, none, some, if◌then◌else◌, Text,
  text_eq, bytes, Result, ok, err, message, wrap, ℤ, sentinel, payment_error, payment_not_found,
  payment_invalid_transition, payment_intent_exists, Error,
}
use booking_concurrent.Domain.Booking.{Time}
use booking_concurrent.Domain.Payment.{Payment, Status, status_eq, default_currency}

-- The rows, in the order of insertion.
abbrev pub PaymentStore : Type 0
PaymentStore = List Payment

-- `isActive`
abbrev pub is_active : Status → Bool
is_active status = not (status_eq status Status.failed) && not (status_eq status Status.refunded)

-- The loop of `InsertIntent` over the rows: the error that it returns, if any.
unfoldable pub conflict : PaymentStore → Payment → Option Error
conflict [] p = none
conflict (row ∷ rows) p =
    if text_eq row.intent_id p.intent_id
    then some (message (bytes "memory: payment insert: duplicate intent id %q"))
    else if text_eq row.booking_session_id p.booking_session_id && is_active row.status
    then some (sentinel (payment_error payment_intent_exists))
    else conflict rows p

abbrev pub stamp : Payment → Text → Time → Payment
stamp p id now = record p { id = id; status = Status.intent; created_at = now; updated_at = now }

unfoldable pub insert_intent : PaymentStore → Time → Text → Payment → Result Payment × PaymentStore
insert_intent rows now id p = elim (conflict rows p) [
  | some e ↦ (err e, rows)
  | none ↦ (ok (stamp p id now), rows ++ stamp p id now ∷ [])
]

-- The loop of `GetActiveBySession`, which runs from the last row to the first.
unfoldable pub last_active : PaymentStore → Text → Option Payment
last_active [] session_id = none
last_active (row ∷ rows) session_id = elim (last_active rows session_id) [
  | some p ↦ some p
  | none ↦
      if text_eq row.booking_session_id session_id && is_active row.status then some row else none
]

unfoldable pub get_active_by_session : PaymentStore → Text → Result Payment
get_active_by_session rows session_id = elim (last_active rows session_id) [
  | some p ↦ ok p
  | none ↦ err (sentinel (payment_error payment_not_found))
]

unfoldable pub get_by_intent : PaymentStore → Text → Result Payment
get_by_intent [] intent_id = err (sentinel (payment_error payment_not_found))
get_by_intent (row ∷ rows) intent_id =
    if text_eq row.intent_id intent_id then ok row else get_by_intent rows intent_id

-- The switch of `Capture` on the row that was found: the row to store, and whether it is new.
unfoldable pub capture_row : Payment → Time → Status → Result (Payment × Bool)
capture_row row now Status.intent =
    ok (record row { status = Status.captured; updated_at = now }, true)
capture_row row now Status.authorized =
    ok (record row { status = Status.captured; updated_at = now }, true)
capture_row row now Status.captured = ok (row, false)
capture_row row now _ = err (
    wrap (bytes "payment: capture: intent %s is in status %q: %w")
      (sentinel (payment_error payment_invalid_transition)))

-- The switch of `MarkFailed`.
unfoldable pub fail_row : Payment → Time → Status → Result Payment
fail_row row now Status.intent = ok (record row { status = Status.failed; updated_at = now })
fail_row row now Status.authorized = ok (record row { status = Status.failed; updated_at = now })
fail_row row now Status.failed = ok row
fail_row row now _ = err (
    wrap (bytes "payment: mark failed: intent %s is in status %q: %w")
      (sentinel (payment_error payment_invalid_transition)))

abbrev pub keep_captured :
    Payment → PaymentStore → Result (Payment × Bool) → Result (Payment × Bool) × PaymentStore
keep_captured row rows (ok (p, fresh)) = (ok (p, fresh), p ∷ rows)
keep_captured row rows (err e) = (err e, row ∷ rows)

abbrev pub keep_failed : Payment → PaymentStore → Result Payment → Result Payment × PaymentStore
keep_failed row rows (ok p) = (ok p, p ∷ rows)
keep_failed row rows (err e) = (err e, row ∷ rows)

abbrev pub after_row {ℓ} : {A : Type ℓ} → Payment → A × PaymentStore → A × PaymentStore
after_row row (r, rows) = (r, row ∷ rows)

-- `findIndexByIntentLocked`, and the write to the row at that index.
unfoldable pub capture : PaymentStore → Time → Text → Result (Payment × Bool) × PaymentStore
capture [] now intent_id = (err (sentinel (payment_error payment_not_found)), [])
capture (row ∷ rows) now intent_id =
    let rest = after_row row (capture rows now intent_id) in
    if text_eq row.intent_id intent_id
    then keep_captured row rows (capture_row row now row.status)
    else rest

unfoldable pub mark_failed : PaymentStore → Time → Text → Result Payment × PaymentStore
mark_failed [] now intent_id = (err (sentinel (payment_error payment_not_found)), [])
mark_failed (row ∷ rows) now intent_id =
    let rest = after_row row (mark_failed rows now intent_id) in
    if text_eq row.intent_id intent_id
    then keep_failed row rows (fail_row row now row.status)
    else rest

unfoldable pub has_captured_payment : PaymentStore → Text → Bool
has_captured_payment [] session_id = false
has_captured_payment (row ∷ rows) session_id =
    if text_eq row.booking_session_id session_id && status_eq row.status Status.captured
    then true
    else has_captured_payment rows session_id

-- `SeedCaptured`, the shortcut of tests.
unfoldable pub seed_captured : PaymentStore → Time → Text → Text → Text → ℤ → Payment × PaymentStore
seed_captured rows now id session_id intent_id amount_cents =
    let p : Payment = record {
      id = id;
      booking_session_id = session_id;
      gateway = bytes "fake";
      intent_id = intent_id;
      status = Status.captured;
      amount_cents = amount_cents;
      currency = default_currency;
      created_at = now;
      updated_at = now;
    } in
    (p, rows ++ p ∷ [])
