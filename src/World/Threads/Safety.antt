-- ===== src/World/Threads/Safety.antt =====
-- The invariant of the running system.
use booking_concurrent.Common.{
  ◌≡◌, sym, subst, ◌∙◌, All-append, All-left, All-right, some, List, [], ◌∷◌, ◌++◌, Text, All,
  arith,
}
use booking_concurrent.Common.Dict.{lookup}
use booking_concurrent.Common.Proc.{Proc, Obeys, next, call}
use booking_concurrent.Domain.Booking.{Time, Booking}
use booking_concurrent.Memory.BookingStore
use booking_concurrent.Memory.BookingStore.{booking_key, stamp}
use booking_concurrent.Memory.BookingStore.Sales
use booking_concurrent.Application.Ports.{Op, Reply, Events, booking_confirm}
use booking_concurrent.Application.Licence.{Licensed, SaleLicence}
use booking_concurrent.World.{World, Outside, exec}
use booking_concurrent.World.Sound.{IsSound, captured-exec, exec-IsSound, tick-IsSound}
use booking_concurrent.World.Threads.{
  Answer, Thread, System, Step, arrive, tick, act, Reach, here, then_step,
}
use booking_concurrent.World.Threads.Facts.{
  Fact, Captured, facts_kept, Fact-of_In, new-Fact, serve-Obeys,
}

-- Every booking belongs to a session that has a captured payment.
abbrev pub IsPaid : World → Type 0
IsPaid w = (sid : Text) (b : Booking) → lookup sid w.bookings.by_session ≡ some b → Captured w sid

-- What the request still does keeps to its licences, and what it has read still holds.
abbrev pub IsOrderly : World → Thread → Type 0
IsOrderly w t = Obeys (Licensed t.user_id) t.past t.rest × All (Fact w) t.past

pub record IsSafe (s : System) : Type 0 where
  pub sound : IsSound s.world
  pub paid : IsPaid s.world
  pub orderly : All (IsOrderly s.world) s.threads

module _ {Rule : Events → Op → Type 0} {A : Type 0} where
  obeys_allowed :
      {past : Events} {o : Op} {k : Reply o → Proc Op Reply A}
      → Obeys Rule past (call o k)
      → Rule past o
  obeys_allowed (next allowed rest) = allowed

  Obeys-rest :
      {past : Events} {o : Op} {k : Reply o → Proc Op Reply A}
      → Obeys Rule past (call o k)
      → (r : Reply o) → Obeys Rule ((o, r) ∷ past) (k r)
  Obeys-rest (next allowed rest) = rest

IsOrderly-kept :
    (w v : World)
    → ((sid : Text) → Captured w sid → Captured v sid)
    → (ts : List Thread) → All (IsOrderly w) ts
    → All (IsOrderly v) ts
IsOrderly-kept w v keep [] h = tt
IsOrderly-kept w v keep (t ∷ ts) ((obeys, facts), h) =
    ((obeys, facts_kept w v keep t.past facts), IsOrderly-kept w v keep ts h)

-- A licence to sell, with the facts read, names a session that has paid.
paid_of_licence :
    (w : World) (uid : Text) (past : Events) (b : Booking)
    → SaleLicence uid past b
    → All (Fact w) past
    → Captured w b.session_id
paid_of_licence w uid past b (sid, h, (t, read, clock, own, live), paid, same) facts =
    let keyed : h.session_id ≡ sid = Fact-of_In w past _ read facts in
    let same_session : b.session_id ≡ h.session_id = cc in
    subst (Captured w) (sym (same_session ∙ keyed)) (Fact-of_In w past _ paid facts)

confirm-IsPaid :
    (w : World) (id : Text) (b : Booking)
    → Captured w b.session_id
    → IsPaid w
    → (sid : Text) (row : Booking)
    → lookup sid (BookingStore.confirm w.bookings w.clock id b).1.by_session ≡ some row
    → Captured w sid
confirm-IsPaid w id b paid all sid row =
    BookingStore.confirm_cases (λ r. lookup sid r.1.by_session ≡ some row → Captured w sid)
      w.bookings w.clock id b (λ _ _. all sid row) (λ _ _. all sid row)
      (λ _ _ e.
        ground
          (arith, Sales.by_session-record_sale w.bookings (stamp b id w.clock) sid, all sid row))

-- A call that keeps to its licence leaves every booking paid.
exec-IsPaid :
    (x : Outside) (uid : Text) (past : Events) (o : Op) (w : World)
    → Licensed uid past o
    → All (Fact w) past
    → IsPaid w
    → IsPaid (exec x o w).1
unfolding exec
exec-IsPaid x uid past (booking_confirm b) w l facts paid sid row e =
    confirm-IsPaid w (x.uuid w.minted) b (paid_of_licence w uid past b l facts) paid sid row e
exec-IsPaid x uid past o w l facts paid sid row e = captured-exec x o w sid (paid sid row e)

act-IsSafe :
    (x : Outside) (w : World) (others more : List Thread) (uid : Text) (past : Events) (o : Op)
    (k : Reply o → Proc Op Reply Answer)
    → IsSafe (record {
      world = w;
      threads = others ++ (record { user_id = uid; past = past; rest = call o k } ∷ more);
    })
    → IsSafe (record {
      world = (exec x o w).1;
      threads =
          others
          ++ (record { user_id = uid; past = (o, (exec x o w).0) ∷ past; rest = k (exec x o w).0 }
              ∷ more);
    })
act-IsSafe x w others more uid past o k v = record {
  sound = exec-IsSound x o w v.sound;
  paid = exec-IsPaid x uid past o w (obeys_allowed mine.0.0) mine.0.1 v.paid;
  orderly =
      All-append (IsOrderly (exec x o w).1) others _
        (IsOrderly-kept w (exec x o w).1 (captured-exec x o w) others
          (All-left (IsOrderly w) others _ v.orderly))
        (
          (
            Obeys-rest mine.0.0 (exec x o w).0,
            (
              new-Fact x o w v.sound,
              facts_kept w (exec x o w).1 (captured-exec x o w) past mine.0.1,
            ),
          ),
          IsOrderly-kept w (exec x o w).1 (captured-exec x o w) more mine.1,
        );
}
  where
    mine : All (IsOrderly w) (record { user_id = uid; past = past; rest = call o k } ∷ more)
    mine = All-right (IsOrderly w) others _ v.orderly

-- Every step, by whichever request, keeps the system safe.
pub Step-IsSafe :
    (x : Outside) (hold_ttl : Time) (s t : System) → Step x hold_ttl s t → IsSafe s → IsSafe t
Step-IsSafe x hold_ttl s t (arrive r eq) v =
    subst IsSafe (sym eq) (record {
      sound = v.sound;
      paid = v.paid;
      orderly = ((serve-Obeys hold_ttl r, tt), v.orderly);
    })
Step-IsSafe x hold_ttl s t (tick time le eq) v = subst IsSafe (sym eq) (record {
  sound = tick-IsSound s.world time le v.sound;
  paid = v.paid;
  orderly =
      IsOrderly-kept s.world (record (s.world) { clock = time }) (λ sid h. h) s.threads v.orderly;
})
Step-IsSafe x hold_ttl s t (act others more uid past o k from eq) v = subst IsSafe (sym eq) (
    act-IsSafe x s.world others more uid past o k
      (subst (λ ts. IsSafe (record { world = s.world; threads = ts })) from v))

pub reach-IsSafe :
    (x : Outside) (hold_ttl : Time) (s t : System) → Reach x hold_ttl s t → IsSafe s → IsSafe t
reach-IsSafe x hold_ttl s t here v = v
reach-IsSafe x hold_ttl s t (then_step run step) v =
    Step-IsSafe x hold_ttl _ t step (reach-IsSafe x hold_ttl s _ run v)
