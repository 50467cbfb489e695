-- ===== src/World/Run.antt =====
-- One request on its own, from its first port call to its answer.
pub mod Selling
pub mod Paying
pub mod Checkout
pub mod Alone
use booking_concurrent.Common.{◌≡◌, refl}
use booking_concurrent.Common.Proc.{Proc, ret, call, bind}
use booking_concurrent.Application.Ports.{Op, Reply}
use booking_concurrent.World.{World, Outside, exec}

unfoldable pub run : {A : Type 0} → Outside → Proc Op Reply A → World → A × World
run x (ret a) w = (a, w)
run x (call o k) w = run x (k (exec x o w).0) (exec x o w).1

pub run-bind :
    {A B : Type 0} (x : Outside) (p : Proc Op Reply A) (f : A → Proc Op Reply B) (w : World)
    → run x (bind p f) w ≡ run x (f (run x p w).0) (run x p w).1
unfolding run
run-bind x (ret a) f w = refl
run-bind x (call o k) f w = run-bind x (k (exec x o w).0) f (exec x o w).1
