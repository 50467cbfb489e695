-- ===== src/Postgres/Payments/Races.antt =====
-- The statements of internal/adapters/postgres/repos_payment.go in any order: whatever requests are
-- in flight, what they do to the table is a sequence of these.
use booking_concurrent.Common.{
  ℕ, ◌+◌, ◌≤◌, Bool, true, false, ◌&&◌, ◌||◌, not, ◌≡◌, refl, some, List, [], ◌∷◌, ◌++◌, Text,
  text_eq, arith, ok, if◌then◌else◌, Bool-cases, Option-cases, inl, inr,
}
use booking_concurrent.Common.Trip.{Trip, answered, unsent, unanswered}
use booking_concurrent.Domain.Booking.{Time}
use booking_concurrent.Domain.Payment.{Payment, Status}
use booking_concurrent.Postgres.Bookings.{is_some}
use booking_concurrent.Postgres.Payments.{
  update_open, capture_payment, fail_payment, payment_by_intent, classify_capture, capture,
  payment_violation, inserted, intent_row, has_intent, is_open,
}

pub data Statement : Type 0 where
  insert : (intent_first : Bool) (now : Time) (id : Text) (p : Payment) → Statement
  capture_of : (now : Time) (intent_id : Text) → Statement
  failure_of : (now : Time) (intent_id : Text) → Statement

-- The table after a statement.
unfoldable pub after : Statement → List Payment → List Payment
after (insert first now id p) rows =
    inserted (payment_violation first rows (intent_row p id now)) rows (intent_row p id now)
after (capture_of now iid) rows = (capture_payment rows now iid).1
after (failure_of now iid) rows = (fail_payment rows now iid).1

-- Whether the statement is the one that captures the intent.
unfoldable pub moves : Text → Statement → List Payment → Bool
moves iid (insert first now id p) rows = false
moves iid (capture_of now jid) rows = text_eq jid iid && is_some (capture_payment rows now jid).0
moves iid (failure_of now jid) rows = false

unfoldable pub move_count : Text → List Statement → List Payment → ℕ
move_count iid [] rows = 0
move_count iid (s ∷ ss) rows =
    (if moves iid s rows then 1 else 0) + move_count iid ss (after s rows)

unfoldable pub has_open : List Payment → Text → Bool
has_open [] iid = false
has_open (row ∷ rows) iid = (text_eq row.intent_id iid && is_open row.status) || has_open rows iid

has_open-update :
    (next : Status) (rows : List Payment) (now : Time) (jid iid : Text)
    → is_open next ≡ false
    → has_open (update_open next rows now jid).1 iid ≡ (has_open rows iid && not (text_eq jid iid))
unfolding has_open update_open
has_open-update next [] now jid iid over = refl
has_open-update next (row ∷ rows) now jid iid over =
    elim (Bool-cases (text_eq row.intent_id jid && is_open row.status)) [
      | inl hit ↦ rw hit (ground (arith, has_open-update next rows now jid iid over))
      | inr miss ↦ rw miss (ground (arith, has_open-update next rows now jid iid over))
    ]

has_intent-update :
    (next : Status) (rows : List Payment) (now : Time) (jid iid : Text)
    → has_intent (update_open next rows now jid).1 iid ≡ has_intent rows iid
unfolding update_open has_intent
has_intent-update next [] now jid iid = refl
has_intent-update next (row ∷ rows) now jid iid =
    elim (Bool-cases (text_eq row.intent_id jid && is_open row.status)) [
      | inl hit ↦ rw hit (ground (arith, has_intent-update next rows now jid iid))
      | inr miss ↦ rw miss (ground (arith, has_intent-update next rows now jid iid))
    ]

is_some-update :
    (next : Status) (rows : List Payment) (now : Time) (jid : Text)
    → is_some (update_open next rows now jid).0 ≡ has_open rows jid
unfolding update_open has_open
is_some-update next [] now jid = refl
is_some-update next (row ∷ rows) now jid = ground (arith, is_some-update next rows now jid)

has_open-append :
    (rows : List Payment) (p : Payment) (iid : Text)
    → (has_open (rows ++ p ∷ []) iid
        ≡ (has_open rows iid || (text_eq p.intent_id iid && is_open p.status)))
      × (has_intent (rows ++ p ∷ []) iid ≡ (has_intent rows iid || text_eq p.intent_id iid))
unfolding has_open has_intent
has_open-append [] p iid = ground arith
has_open-append (row ∷ rows) p iid = ground (arith, has_open-append rows p iid)

-- Whether a capture of the intent may still happen.
may_move : Text → List Payment → ℕ
may_move iid rows = if has_open rows iid || not (has_intent rows iid) then 1 else 0

insert-may_move :
    (first : Bool) (now : Time) (id iid : Text) (p : Payment) (rows : List Payment)
    → may_move iid (after (insert first now id p) rows) ≤ may_move iid rows
unfolding may_move after inserted payment_violation
insert-may_move first now id iid p rows =
    ground (arith, has_open-append rows (intent_row p id now) iid)

has_intent_of_open :
    (rows : List Payment) (iid : Text) → has_open rows iid ≡ true → has_intent rows iid ≡ true
unfolding has_open has_intent
has_intent_of_open [] iid e = cc
has_intent_of_open (row ∷ rows) iid e = ground (arith, has_intent_of_open rows iid)

capture-may_move :
    (now : Time) (jid iid : Text) (rows : List Payment)
    → (if moves iid (capture_of now jid) rows then 1 else 0)
        + may_move iid (after (capture_of now jid) rows)
      ≤ may_move iid rows
unfolding moves may_move after capture_payment
capture-may_move now jid iid rows = ground (
  arith,
  has_open-update Status.captured rows now jid iid refl,
  has_intent-update Status.captured rows now jid iid,
  is_some-update Status.captured rows now jid,
  has_intent_of_open rows jid,
)

failure-may_move :
    (now : Time) (jid iid : Text) (rows : List Payment)
    → may_move iid (after (failure_of now jid) rows) ≤ may_move iid rows
unfolding may_move after fail_payment
failure-may_move now jid iid rows = ground (
  arith,
  has_open-update Status.failed rows now jid iid refl,
  has_intent-update Status.failed rows now jid iid,
)

step-may_move :
    (iid : Text) (s : Statement) (rows : List Payment)
    → (if moves iid s rows then 1 else 0) + may_move iid (after s rows) ≤ may_move iid rows
step-may_move iid (insert first now id p) rows =
    unfold moves in omega (arith, insert-may_move first now id iid p rows)
step-may_move iid (capture_of now jid) rows = capture-may_move now jid iid rows
step-may_move iid (failure_of now jid) rows =
    unfold moves in omega (arith, failure-may_move now jid iid rows)

move_count-may_move :
    (iid : Text) (ss : List Statement) (rows : List Payment)
    → move_count iid ss rows ≤ may_move iid rows
unfolding move_count
move_count-may_move iid [] rows = omega arith
move_count-may_move iid (s ∷ ss) rows =
    omega (arith, step-may_move iid s rows, move_count-may_move iid ss (after s rows))

-- In any sequence of statements, from any table, an intent is captured at most once.
pub move_count-le-one :
    (iid : Text) (ss : List Statement) (rows : List Payment) → move_count iid ss rows ≤ 1
unfolding may_move
move_count-le-one iid ss rows = ground (arith, move_count-may_move iid ss rows)

returned :
    (rows : List Payment) (now : Time) (iid : Text) (p : Payment)
    → (update_open Status.captured rows now iid).0 ≡ some p
    → (p.status ≡ Status.captured) × (p.intent_id ≡ iid)
unfolding update_open
returned [] now iid p e = absurd (cc)
returned (row ∷ rows) now iid p e = ground (arith, returned rows now iid p)

found_by_intent :
    (rows : List Payment) (iid : Text) (p : Payment)
    → payment_by_intent rows iid ≡ some p
    → p.intent_id ≡ iid
unfolding payment_by_intent
found_by_intent [] iid p e = absurd (cc)
found_by_intent (row ∷ rows) iid p e = ground (arith, found_by_intent rows iid p)

-- Whatever others write between the two statements of `Capture`: a payment that it returns is the
-- intent's and is captured, and it is said to be captured now exactly when this call found it open.
pub capture-truthful :
    (trip : Trip) (down : Bool) (meanwhile : List Payment → List Payment) (rows : List Payment)
    (now : Time) (iid : Text) (p : Payment) (fresh : Bool)
    → (capture trip down meanwhile rows now iid).0 ≡ ok (p, fresh)
    → (p.status ≡ Status.captured) × (p.intent_id ≡ iid) × (fresh ≡ has_open rows iid)
unfolding capture capture_payment classify_capture
capture-truthful unsent down meanwhile rows now iid p fresh e = absurd (cc)
capture-truthful unanswered down meanwhile rows now iid p fresh e = absurd (cc)
capture-truthful answered down meanwhile rows now iid p fresh e = ground (
  arith,
  returned rows now iid p,
  found_by_intent (meanwhile (update_open Status.captured rows now iid).1) iid p,
  is_some-update Status.captured rows now iid,
  Option-cases (update_open Status.captured rows now iid).0,
)
