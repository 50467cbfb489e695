-- ===== src/Memory/PaymentStore/Phases.antt =====
-- The store as one state machine for each intent: what a capture and a failure do to its status.
use booking_concurrent.Common.{
  ◌≡◌, Bool, true, false, Option, none, some, [], ◌∷◌, ◌++◌, arith, Text, text_eq, if◌then◌else◌,
}
use booking_concurrent.Domain.Booking.{Time}
use booking_concurrent.Domain.Payment.{Payment, Status}
use booking_concurrent.Memory.PaymentStore.{
  PaymentStore, stamp, insert_intent, capture_row, fail_row, capture, mark_failed,
}

-- The status of the payment with this intent, if there is one.
unfoldable pub phase : Text → PaymentStore → Option Status
phase iid [] = none
phase iid (row ∷ rows) = if text_eq row.intent_id iid then some row.status else phase iid rows

abbrev pub is_open : Status → Bool
is_open Status.intent = true
is_open Status.authorized = true
is_open _ = false

-- What becomes of an intent's status: an open one moves to `target`, any other stays.
abbrev pub settle : Status → Option Status → Option Status
settle target none = none
settle target (some s) = if is_open s then some target else some s

phase-capture :
    (j : Text) (rows : PaymentStore) (now : Time) (iid : Text)
    → phase j (capture rows now iid).1
      ≡ (if text_eq iid j then settle Status.captured (phase j rows) else phase j rows)
unfolding phase capture capture_row
phase-capture j [] now iid = ground arith
phase-capture j (row ∷ rows) now iid = ground (arith, phase-capture j rows now iid)

phase-mark_failed :
    (j : Text) (rows : PaymentStore) (now : Time) (iid : Text)
    → phase j (mark_failed rows now iid).1
      ≡ (if text_eq iid j then settle Status.failed (phase j rows) else phase j rows)
unfolding phase mark_failed fail_row
phase-mark_failed j [] now iid = ground arith
phase-mark_failed j (row ∷ rows) now iid = ground (arith, phase-mark_failed j rows now iid)

phase-append :
    (j : Text) (rows : PaymentStore) (p : Payment)
    → phase j (rows ++ p ∷ []) ≡ elim (phase j rows) [
      | some s ↦ some s
      | none ↦ if text_eq p.intent_id j then some p.status else none
    ]
unfolding phase
phase-append j [] p = ground arith
phase-append j (row ∷ rows) p = ground (arith, phase-append j rows p)

pub phase-insert_intent :
    (j : Text) (rows : PaymentStore) (now : Time) (id : Text) (p : Payment) (s : Status)
    → phase j rows ≡ some s
    → phase j (insert_intent rows now id p).1 ≡ some s
unfolding insert_intent
phase-insert_intent j rows now id p s e = ground (arith, phase-append j rows (stamp p id now))

-- The writes of the store act on each intent as the two-transition machine does: a capture or a
-- failure moves its own intent out of an open status, and touches no other.
pub phase_refines :
    (j iid : Text) (rows : PaymentStore) (now : Time)
    → (phase j (capture rows now iid).1
        ≡ (if text_eq iid j then settle Status.captured (phase j rows) else phase j rows))
      × (phase j (mark_failed rows now iid).1
          ≡ (if text_eq iid j then settle Status.failed (phase j rows) else phase j rows))
phase_refines j iid rows now = (phase-capture j rows now iid, phase-mark_failed j rows now iid)
