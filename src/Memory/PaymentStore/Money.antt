-- ===== src/Memory/PaymentStore/Money.antt =====
-- The writes of the payment store in a row: what they charge, and what becomes of a row.
use booking_concurrent.Common.{
  ℕ, ◌+◌, ◌≤◌, ◌≡◌, ◌⊎◌, refl, inl, inr, Bool, true, false, ◌&&◌, ◌||◌, Option, none, some, List,
  [], ◌∷◌, ◌++◌, arith, Text, text_eq, Result, ok, err, if◌then◌else◌, Option-cases, Bool-cases,
  sym, ◌∙◌,
}
use booking_concurrent.Domain.Booking.{Time}
use booking_concurrent.Domain.Payment.{Payment, Status, can_transition_to}
use booking_concurrent.Memory.PaymentStore.{
  PaymentStore, conflict, stamp, insert_intent, capture_row, fail_row, capture, mark_failed,
  has_captured_payment, keep_captured, keep_failed,
}
use booking_concurrent.Memory.PaymentStore.Phases.{
  phase, is_open, phase_refines, phase-insert_intent,
}

-- A write of the store, at the clock's reading.
pub data Write : Type 0 where
  inserts : Time → (id : Text) → Payment → Write
  captures : Time → (intent_id : Text) → Write
  fails : Time → (intent_id : Text) → Write

unfoldable pub write : PaymentStore → Write → PaymentStore
write rows (inserts now id p) = (insert_intent rows now id p).1
write rows (captures now iid) = (capture rows now iid).1
write rows (fails now iid) = (mark_failed rows now iid).1

abbrev pub is_fresh : Result (Payment × Bool) → Bool
is_fresh (ok (p, fresh)) = fresh
is_fresh (err e) = false

-- Whether this write is a capture of `iid` that reports that it moved the money.
unfoldable pub charges : Text → PaymentStore → Write → Bool
charges iid rows (inserts now id p) = false
charges iid rows (captures now j) = text_eq j iid && is_fresh (capture rows now j).0
charges iid rows (fails now j) = false

unfoldable pub charge_count : Text → PaymentStore → List Write → ℕ
charge_count iid rows [] = 0
charge_count iid rows (w ∷ ws) =
    (if charges iid rows w then 1 else 0) + charge_count iid (write rows w) ws

abbrev is_settled : Option Status → Bool
is_settled none = false
is_settled (some s) = if is_open s then false else true

abbrev is_open_phase : Option Status → Bool
is_open_phase none = false
is_open_phase (some s) = is_open s

is_fresh-capture :
    (rows : PaymentStore) (now : Time) (iid : Text)
    → is_fresh (capture rows now iid).0 ≡ true
    → is_open_phase (phase iid rows) ≡ true
unfolding capture phase capture_row
is_fresh-capture [] now iid h = cc
is_fresh-capture (row ∷ rows) now iid h = ground (arith, is_fresh-capture rows now iid)

settled-write :
    (iid : Text) (rows : PaymentStore) (w : Write)
    → is_settled (phase iid rows) ≡ true
    → (phase iid (write rows w) ≡ phase iid rows) × (charges iid rows w ≡ false)
unfolding write charges
settled-write iid rows (inserts now id p) h = elim (Option-cases (phase iid rows)) [
  | inl e ↦ absurd (ground arith)
  | inr (s, e) ↦ (phase-insert_intent iid rows now id p s e ∙ sym e, refl)
]
settled-write iid rows (captures now j) h =
    ground (arith, phase_refines iid j rows now, is_fresh-capture rows now j)
settled-write iid rows (fails now j) h = ground (arith, phase_refines iid j rows now)

charge_settles :
    (iid : Text) (rows : PaymentStore) (w : Write)
    → charges iid rows w ≡ true
    → is_settled (phase iid (write rows w)) ≡ true
unfolding write charges
charge_settles iid rows (inserts now id p) h = cc
charge_settles iid rows (captures now j) h =
    ground (arith, phase_refines iid j rows now, is_fresh-capture rows now j)
charge_settles iid rows (fails now j) h = cc

charge_count_of_settled :
    (iid : Text) (rows : PaymentStore) (ws : List Write)
    → is_settled (phase iid rows) ≡ true
    → charge_count iid rows ws ≡ 0
unfolding charge_count
charge_count_of_settled iid rows [] h = refl
charge_count_of_settled iid rows (w ∷ ws) h =
    ground (arith, settled-write iid rows w, charge_count_of_settled iid (write rows w) ws)

-- However captures by clients and by webhooks, failures and new intents interleave, at most one
-- capture of an intent reports that it moved the money.
pub charge_count-le-one :
    (iid : Text) (rows : PaymentStore) (ws : List Write) → charge_count iid rows ws ≤ 1
unfolding charge_count
charge_count-le-one iid rows [] = omega arith
charge_count-le-one iid rows (w ∷ ws) = ground (
  arith,
  charge_settles iid rows w,
  charge_count_of_settled iid (write rows w) ws,
  charge_count-le-one iid (write rows w) ws,
)

-- What a write may do to a row: nothing, or a legal move that touches the status and its time only.
abbrev pub RowStep : Payment → Payment → Type 0
RowStep old new =
    (new ≡ old)
    ⊎ ((can_transition_to old.status new.status ≡ true)
        × (new ≡ record old { status = new.status; updated_at = new.updated_at }))

-- The old rows move one by one, and rows in status `intent` may follow them.
abbrev pub Evolves : PaymentStore → PaymentStore → Type 0
Evolves [] [] = Unit {0}
Evolves [] (y ∷ ys) = (y.status ≡ Status.intent) × Evolves [] ys
Evolves (x ∷ xs) [] = ⊥
Evolves (x ∷ xs) (y ∷ ys) = RowStep x y × Evolves xs ys

Evolves-refl : (rows : PaymentStore) → Evolves rows rows
Evolves-refl [] = tt
Evolves-refl (x ∷ xs) = (inl refl, Evolves-refl xs)

Evolves-append :
    (rows : PaymentStore) (p : Payment) → p.status ≡ Status.intent → Evolves rows (rows ++ p ∷ [])
Evolves-append [] p e = (e, tt)
Evolves-append (x ∷ xs) p e = (inl refl, Evolves-append xs p e)

capture_row-Evolves :
    (row : Payment) (rows : PaymentStore) (now : Time) (s : Status)
    → row.status ≡ s
    → Evolves (row ∷ rows) (keep_captured row rows (capture_row row now s)).1
unfolding capture_row can_transition_to
capture_row-Evolves row rows now Status.intent e = (inr (ground arith), Evolves-refl rows)
capture_row-Evolves row rows now Status.authorized e = (inr (ground arith), Evolves-refl rows)
capture_row-Evolves row rows now Status.captured e = Evolves-refl (row ∷ rows)
capture_row-Evolves row rows now _ e = Evolves-refl (row ∷ rows)

fail_row-Evolves :
    (row : Payment) (rows : PaymentStore) (now : Time) (s : Status)
    → row.status ≡ s
    → Evolves (row ∷ rows) (keep_failed row rows (fail_row row now s)).1
unfolding fail_row can_transition_to
fail_row-Evolves row rows now Status.intent e = (inr (ground arith), Evolves-refl rows)
fail_row-Evolves row rows now Status.authorized e = (inr (ground arith), Evolves-refl rows)
fail_row-Evolves row rows now Status.failed e = Evolves-refl (row ∷ rows)
fail_row-Evolves row rows now _ e = Evolves-refl (row ∷ rows)

Evolves-capture :
    (rows : PaymentStore) (now : Time) (iid : Text) → Evolves rows (capture rows now iid).1
unfolding capture
Evolves-capture [] now iid = tt
Evolves-capture (row ∷ rows) now iid = elim (Bool-cases (text_eq row.intent_id iid)) [
  | inl e ↦ rw e (capture_row-Evolves row rows now row.status refl)
  | inr e ↦ rw e (inl refl, Evolves-capture rows now iid)
]

Evolves-mark_failed :
    (rows : PaymentStore) (now : Time) (iid : Text) → Evolves rows (mark_failed rows now iid).1
unfolding mark_failed
Evolves-mark_failed [] now iid = tt
Evolves-mark_failed (row ∷ rows) now iid = elim (Bool-cases (text_eq row.intent_id iid)) [
  | inl e ↦ rw e (fail_row-Evolves row rows now row.status refl)
  | inr e ↦ rw e (inl refl, Evolves-mark_failed rows now iid)
]

Evolves-insert_intent :
    (rows : PaymentStore) (now : Time) (id : Text) (p : Payment)
    → Evolves rows (insert_intent rows now id p).1
unfolding insert_intent
Evolves-insert_intent rows now id p = elim (Option-cases (conflict rows p)) [
  | inl e ↦ rw (e, insert_intent) (Evolves-append rows (stamp p id now) refl)
  | inr (x, e) ↦ rw (e, insert_intent) (Evolves-refl rows)
]

-- No write skips an edge of `CanTransitionTo`, drops a row, or changes what a row is about.
pub write-Evolves : (rows : PaymentStore) (w : Write) → Evolves rows (write rows w)
unfolding write
write-Evolves rows (inserts now id p) = Evolves-insert_intent rows now id p
write-Evolves rows (captures now iid) = Evolves-capture rows now iid
write-Evolves rows (fails now iid) = Evolves-mark_failed rows now iid

has_captured-append :
    (xs ys : PaymentStore) (sid : Text)
    → has_captured_payment (xs ++ ys) sid
      ≡ (has_captured_payment xs sid || has_captured_payment ys sid)
unfolding has_captured_payment
has_captured-append [] ys sid = refl
has_captured-append (x ∷ xs) ys sid = ground (arith, has_captured-append xs ys sid)

has_captured-capture :
    (rows : PaymentStore) (now : Time) (iid sid : Text)
    → has_captured_payment rows sid ≡ true
    → has_captured_payment (capture rows now iid).1 sid ≡ true
unfolding has_captured_payment capture capture_row
has_captured-capture [] now iid sid h = h
has_captured-capture (row ∷ rows) now iid sid h =
    ground (arith, has_captured-capture rows now iid sid)

has_captured-mark_failed :
    (rows : PaymentStore) (now : Time) (iid sid : Text)
    → has_captured_payment (mark_failed rows now iid).1 sid ≡ has_captured_payment rows sid
unfolding has_captured_payment mark_failed fail_row
has_captured-mark_failed [] now iid sid = refl
has_captured-mark_failed (row ∷ rows) now iid sid =
    ground (arith, has_captured-mark_failed rows now iid sid)

-- The confirm gate never closes again: a session with a captured payment keeps one.
pub has_captured-write :
    (rows : PaymentStore) (w : Write) (sid : Text)
    → has_captured_payment rows sid ≡ true
    → has_captured_payment (write rows w) sid ≡ true
unfolding write insert_intent
has_captured-write rows (inserts now id p) sid h =
    ground (arith, has_captured-append rows (stamp p id now ∷ []) sid)
has_captured-write rows (captures now iid) sid h = has_captured-capture rows now iid sid h
has_captured-write rows (fails now iid) sid h = rw has_captured-mark_failed h
