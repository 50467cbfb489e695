-- ===== src/World/Run/Alone.antt =====
-- A request that runs on its own, as steps of the system.
use booking_concurrent.Common.{[], ◌∷◌, List, Text, refl}
use booking_concurrent.Common.Proc.{Proc, ret, call}
use booking_concurrent.Domain.Booking.{Time}
use booking_concurrent.Application.Ports.{Op, Reply, Events}
use booking_concurrent.World.{World, Outside, exec}
use booking_concurrent.World.Run.{run}
use booking_concurrent.World.Threads.{
  Request, Answer, Thread, System, Reach, then_step, arrive, act, serve, user_of,
}

run-Reach :
    (x : Outside) (hold_ttl : Time) (s : System) (uid : Text) (more : List Thread)
    (p : Proc Op Reply Answer) (w : World) (past : Events)
    → Reach x hold_ttl s
        (record { world = w; threads = record { user_id = uid; past = past; rest = p } ∷ more })
    → (t : Thread) × Reach x hold_ttl s (record { world = (run x p w).1; threads = t ∷ more })
unfolding run
run-Reach x hold_ttl s uid more (ret a) w past reach =
    (record { user_id = uid; past = past; rest = ret a }, reach)
run-Reach x hold_ttl s uid more (call o k) w past reach =
    run-Reach x hold_ttl s uid more (k (exec x o w).0) (exec x o w).1 ((o, (exec x o w).0) ∷ past)
      (then_step reach (act [] more uid past o k refl refl))

-- Whatever can be reached, it can be reached that a new request has then run to its end.
pub serve-Reach :
    (x : Outside) (hold_ttl : Time) (s t : System) (r : Request)
    → Reach x hold_ttl s t
    → (done : Thread) × Reach x hold_ttl s
        (record { world = (run x (serve hold_ttl r) t.world).1; threads = done ∷ t.threads })
serve-Reach x hold_ttl s t r reach =
    run-Reach x hold_ttl s (user_of r) t.threads (serve hold_ttl r) t.world []
      (then_step reach (arrive r refl))
