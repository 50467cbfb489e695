-- ===== src/Memory/PaymentStore/Arbiter.antt =====
-- `InsertIntent` of the payment store as the arbiter of sessions and intents.
use booking_concurrent.Common.{
  ℕ, ◌+◌, ◌≤◌, ◌≡◌, ◌↔◌, refl, Bool, true, ◌&&◌, none, some, [], ◌∷◌, ◌++◌, arith, Text, text_eq,
  ok, if◌then◌else◌,
}
use booking_concurrent.Domain.Booking.{Time}
use booking_concurrent.Domain.Payment.{Payment}
use booking_concurrent.Memory.PaymentStore.{
  PaymentStore, is_active, conflict, stamp, insert_intent, last_active, capture_row, fail_row,
  capture, mark_failed,
}

unfoldable pub active_count : Text → PaymentStore → ℕ
active_count session_id [] = 0
active_count session_id (row ∷ rows) =
    (if text_eq row.booking_session_id session_id && is_active row.status then 1 else 0)
    + active_count session_id rows

unfoldable pub intent_count : Text → PaymentStore → ℕ
intent_count intent_id [] = 0
intent_count intent_id (row ∷ rows) =
    (if text_eq row.intent_id intent_id then 1 else 0) + intent_count intent_id rows

-- The two unique indices of the payments table.
pub record IsSound (rows : PaymentStore) : Type 0 where
  pub one_active : (session_id : Text) → active_count session_id rows ≤ 1
  pub one_row : (intent_id : Text) → intent_count intent_id rows ≤ 1

pub active_count-append :
    (sid : Text) (xs ys : PaymentStore)
    → active_count sid (xs ++ ys) ≡ active_count sid xs + active_count sid ys
unfolding active_count
active_count-append sid [] ys = omega arith
active_count-append sid (x ∷ xs) ys = omega (arith, active_count-append sid xs ys)

pub intent_count-append :
    (iid : Text) (xs ys : PaymentStore)
    → intent_count iid (xs ++ ys) ≡ intent_count iid xs + intent_count iid ys
unfolding intent_count
intent_count-append iid [] ys = omega arith
intent_count-append iid (x ∷ xs) ys = omega (arith, intent_count-append iid xs ys)

-- The scan of `InsertIntent` finds no conflict exactly when there is no row in the way.
pub conflict_iff :
    (rows : PaymentStore) (p : Payment)
    → (conflict rows p ≡ none)
      ↔ ((active_count p.booking_session_id rows ≡ 0) × (intent_count p.intent_id rows ≡ 0))
unfolding conflict active_count intent_count
conflict_iff [] p = ground arith
conflict_iff (row ∷ rows) p = ground (arith, conflict_iff rows p)

-- An intent is recorded exactly when its session has no active payment and its id no row.
pub insert_intent_iff :
    (rows : PaymentStore) (now : Time) (id : Text) (p : Payment)
    → ((insert_intent rows now id p).0 ≡ ok (stamp p id now))
      ↔ ((active_count p.booking_session_id rows ≡ 0) × (intent_count p.intent_id rows ≡ 0))
unfolding insert_intent
insert_intent_iff rows now id p = ground (arith, conflict_iff rows p)

pub insert_intent-IsSound :
    {rows : PaymentStore} (now : Time) (id : Text) (p : Payment)
    → IsSound rows
    → IsSound (insert_intent rows now id p).1
unfolding insert_intent active_count intent_count
insert_intent-IsSound {rows} now id p v = record {
  one_active = λ sid. ground (
    arith,
    conflict_iff rows p,
    active_count-append sid rows (stamp p id now ∷ []),
    v.one_active sid,
  );
  one_row = λ iid. ground (
    arith,
    conflict_iff rows p,
    intent_count-append iid rows (stamp p id now ∷ []),
    v.one_row iid,
  );
}

capture_row_counts :
    (row p : Payment) (now : Time) (fresh : Bool)
    → capture_row row now row.status ≡ ok (p, fresh)
    → (p.intent_id ≡ row.intent_id)
      × (p.booking_session_id ≡ row.booking_session_id)
      × (is_active p.status ≡ is_active row.status)
unfolding capture_row
capture_row_counts row p now fresh e = ground arith

active_count-capture :
    (sid : Text) (rows : PaymentStore) (now : Time) (iid : Text)
    → active_count sid (capture rows now iid).1 ≡ active_count sid rows
unfolding capture active_count capture_row
active_count-capture sid [] now iid = refl
active_count-capture sid (row ∷ rows) now iid =
    ground (arith, active_count-capture sid rows now iid)

intent_count-capture :
    (j : Text) (rows : PaymentStore) (now : Time) (iid : Text)
    → intent_count j (capture rows now iid).1 ≡ intent_count j rows
unfolding capture intent_count capture_row
intent_count-capture j [] now iid = refl
intent_count-capture j (row ∷ rows) now iid = ground (arith, intent_count-capture j rows now iid)

active_count-mark_failed-le :
    (sid : Text) (rows : PaymentStore) (now : Time) (iid : Text)
    → active_count sid (mark_failed rows now iid).1 ≤ active_count sid rows
unfolding mark_failed active_count fail_row
active_count-mark_failed-le sid [] now iid = omega arith
active_count-mark_failed-le sid (row ∷ rows) now iid =
    ground (arith, active_count-mark_failed-le sid rows now iid)

intent_count-mark_failed :
    (j : Text) (rows : PaymentStore) (now : Time) (iid : Text)
    → intent_count j (mark_failed rows now iid).1 ≡ intent_count j rows
unfolding mark_failed intent_count fail_row
intent_count-mark_failed j [] now iid = refl
intent_count-mark_failed j (row ∷ rows) now iid =
    ground (arith, intent_count-mark_failed j rows now iid)

pub capture-IsSound :
    {rows : PaymentStore} (now : Time) (iid : Text)
    → IsSound rows
    → IsSound (capture rows now iid).1
capture-IsSound {rows} now iid v = record {
  one_active = λ sid. omega (arith, active_count-capture sid rows now iid, v.one_active sid);
  one_row = λ j. omega (arith, intent_count-capture j rows now iid, v.one_row j);
}

pub mark_failed-IsSound :
    {rows : PaymentStore} (now : Time) (iid : Text)
    → IsSound rows
    → IsSound (mark_failed rows now iid).1
mark_failed-IsSound {rows} now iid v = record {
  one_active = λ sid. omega (arith, active_count-mark_failed-le sid rows now iid, v.one_active sid);
  one_row = λ j. omega (arith, intent_count-mark_failed j rows now iid, v.one_row j);
}

-- The backward scan misses exactly when no payment of the session is active.
pub last_active-eq-none_iff :
    (rows : PaymentStore) (sid : Text) → (last_active rows sid ≡ none) ↔ (active_count sid rows ≡ 0)
unfolding last_active active_count
last_active-eq-none_iff [] sid = ground arith
last_active-eq-none_iff (row ∷ rows) sid = ground (arith, last_active-eq-none_iff rows sid)

-- What it finds is an active payment of that session.
pub last_active_lem :
    (rows : PaymentStore) (sid : Text) (p : Payment)
    → last_active rows sid ≡ some p
    → (p.booking_session_id ≡ sid) × (is_active p.status ≡ true)
unfolding last_active
last_active_lem [] sid p e = cc
last_active_lem (row ∷ rows) sid p e = ground (arith, last_active_lem rows sid p)
