-- ===== src/World/Threads/Facts.antt =====
-- What a request has read and can still rely on, whatever the others have done since.
use booking_concurrent.Common.{
  ◌≡◌, refl, sym, subst, inl, inr, Bool, true, false, [], ◌∷◌, Text, All, Result, ok, err, arith,
  Option-cases,
}
use booking_concurrent.Common.Dict.{lookup}
use booking_concurrent.Common.Proc.{Event, In, Obeys, Obeys-bind_ret}
use booking_concurrent.Domain.Booking.{Time, Hold}
use booking_concurrent.Memory.HoldStore
use booking_concurrent.Memory.PaymentStore
use booking_concurrent.Application.Ports.{Op, Reply, Events, hold_get, payment_captured}
use booking_concurrent.Application.Licence.{Licensed}
use booking_concurrent.Application.Licence.Sales.{
  confirm-Obeys, hold-Obeys, release-Obeys, seat_map-Obeys,
}
use booking_concurrent.Application.Licence.Charges.{
  create_intent-Obeys, confirm_by_client-Obeys, handle_webhook-Obeys,
}
use booking_concurrent.World.{World, Outside, exec}
use booking_concurrent.World.Sound.{IsSound}
use booking_concurrent.World.Threads.{
  Request, serve, user_of, hold_seat, confirm_hold, release_hold, show_seat_map, start_payment, pay,
  webhook,
}

-- A hold was read under its own session, and a captured payment is still there.
abbrev pub Fact : World → Event Op Reply → Type 0
Fact w (hold_get sid, ok h) = h.session_id ≡ sid
Fact w (payment_captured sid, ok true) = PaymentStore.has_captured_payment w.payments sid ≡ true
Fact w _ = Unit {0}

abbrev pub Captured : World → Text → Type 0
Captured w sid = PaymentStore.has_captured_payment w.payments sid ≡ true

pub Fact-kept :
    (w v : World)
    → ((sid : Text) → Captured w sid → Captured v sid)
    → (e : Event Op Reply) → Fact w e
    → Fact v e
Fact-kept w v keep (hold_get sid, ok h) f = f
Fact-kept w v keep (payment_captured sid, ok true) f = keep sid f
Fact-kept w v keep _ f = f

pub facts_kept :
    (w v : World)
    → ((sid : Text) → Captured w sid → Captured v sid)
    → (past : Events) → All (Fact w) past
    → All (Fact v) past
facts_kept w v keep [] fs = tt
facts_kept w v keep (e ∷ past) (f, fs) = (Fact-kept w v keep e f, facts_kept w v keep past fs)

pub Fact-of_In :
    (w : World) (past : Events) (e : Event Op Reply) → In e past → All (Fact w) past → Fact w e
Fact-of_In w [] e i fs = absurd i
Fact-of_In w (d ∷ past) e (inl same) (f, fs) = subst (Fact w) (sym same) f
Fact-of_In w (d ∷ past) e (inr i) (f, fs) = Fact-of_In w past e i fs

get-Fact :
    (w : World) (sid : Text) (r : Result Hold)
    → HoldStore.get w.holds w.clock sid ≡ r
    → IsSound w
    → Fact w (hold_get sid, r)
unfolding HoldStore.get
get-Fact w sid (err e) eq v = tt
get-Fact w sid (ok h) eq v = elim (Option-cases (lookup sid w.holds.sessions)) [
  | inl e ↦ absurd (ground arith)
  | inr (g, e) ↦ ground (arith, v.holds.keyed sid g e)
]

captured-Fact :
    (w : World) (sid : Text) (b : Bool)
    → PaymentStore.has_captured_payment w.payments sid ≡ b
    → Fact w (payment_captured sid, ok b)
captured-Fact w sid true e = e
captured-Fact w sid false e = tt

-- What a call has just read is a fact.
pub new-Fact :
    (x : Outside) (o : Op) (w : World) → IsSound w → Fact (exec x o w).1 (o, (exec x o w).0)
unfolding exec
new-Fact x (hold_get sid) w v = get-Fact w sid _ refl v
new-Fact x (payment_captured sid) w v = captured-Fact w sid _ refl
new-Fact x _ w v = tt

-- Every route keeps to the licences.
pub serve-Obeys :
    (hold_ttl : Time) (r : Request) → Obeys (Licensed (user_of r)) [] (serve hold_ttl r)
unfolding serve
serve-Obeys hold_ttl (hold_seat uid scr seat) = Obeys-bind_ret _ (hold-Obeys hold_ttl uid scr seat)
serve-Obeys hold_ttl (confirm_hold uid sid) = Obeys-bind_ret _ (confirm-Obeys uid sid)
serve-Obeys hold_ttl (release_hold uid sid) = Obeys-bind_ret _ (release-Obeys uid sid)
serve-Obeys hold_ttl (show_seat_map scr) = Obeys-bind_ret _ (seat_map-Obeys [] scr)
serve-Obeys hold_ttl (start_payment uid sid) = Obeys-bind_ret _ (create_intent-Obeys uid sid)
serve-Obeys hold_ttl (pay uid sid) = Obeys-bind_ret _ (confirm_by_client-Obeys uid sid)
serve-Obeys hold_ttl (webhook body sig) = Obeys-bind_ret _ (handle_webhook-Obeys [] body sig)
