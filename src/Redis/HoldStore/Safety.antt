-- ===== src/Redis/HoldStore/Safety.antt =====
-- Histories of calls of internal/adapters/redis/holdstore.go.
use booking_concurrent.Common.{ℕ, ◌≤◌, ◌≡◌, ◌≢◌, some, [], Text, arith, Option-cases, ℤ, ok, refl}
use booking_concurrent.Common.Dict.{lookup}
use booking_concurrent.Domain.Booking.{Time, Hold}
use booking_concurrent.Memory.SeatKey.{seat_key}
use booking_concurrent.Redis.Server.{Redis}
use booking_concurrent.Common.Trip.{Trip}
use booking_concurrent.Redis.HoldStore.{Keyspace, hold, hold_script, hold_answer, release}
use booking_concurrent.Redis.HoldStore.Claims.{
  IsSound, later-IsSound, write-IsSound, token_at, session_at, set_nx_ex-granted, get-write,
}
use booking_concurrent.Redis.HoldStore.Calls.{
  hold_script_cases, hold_cases, hold_state, release_state, release_script_cases, tear_down-IsSound,
  limit_answer, taken_answer, get-tear_down, no_seat,
}

module _ {A B C : Type 0} (r : Redis A B C) where
  hold-IsSound :
      {at : Time} {s : Keyspace A B C} (max : ℤ) (trip : Trip) (validated until : Time) (h : Hold)
      → IsSound r at s
      → IsSound r at (hold r max trip s validated until at h).1
  hold-IsSound {at} {s} max trip validated until h v =
      hold_state r (IsSound r at) max trip s validated until at h v (λ secs.
        hold_script_cases r (λ x. IsSound r at x.1) max s at h secs (λ _. v) (λ _ _. v)
          (λ b _ granted. write-IsSound r b h secs granted v))

  release-IsSound :
      {at : Time} {s : Keyspace A B C} (trip : Trip) (sid uid : Text)
      → IsSound r at s
      → IsSound r at (release r trip s at sid uid).1
  release-IsSound {at} {s} trip sid uid v = release_state r (IsSound r at) trip s at sid uid v (
      release_script_cases r (λ x. IsSound r at x.1) s at sid uid (λ _. v) (λ _ _ _. v)
        (λ _ _ _ _. v) (λ k _ mine. tear_down-IsSound r sid uid k mine v))

  -- The states that calls reach from a server without sessions, as time goes on. Every call may
  -- fail on its way, before the script or after it.
  pub data Reached (max : ℤ) : Time → Keyspace A B C → Type 0 where
    start :
        (now : Time) (s : Keyspace A B C)
        → ((t : Time) (sid : Text) → session_at r s t sid ≡ [])
        → Reached max now s
    wait : (t u : Time) (s : Keyspace A B C) → t ≤ u → Reached max t s → Reached max u s
    held :
        (at : Time) (s t : Keyspace A B C) (trip : Trip) (validated until : Time) (h : Hold)
        → t ≡ (hold r max trip s validated until at h).1
        → Reached max at s
        → Reached max at t
    released :
        (at : Time) (s t : Keyspace A B C) (trip : Trip) (sid uid : Text)
        → t ≡ (release r trip s at sid uid).1
        → Reached max at s
        → Reached max at t

  start-IsSound :
      (now : Time) (s : Keyspace A B C)
      → ((t : Time) (sid : Text) → session_at r s t sid ≡ [])
      → IsSound r now s
  unfolding lookup
  start-IsSound now s empty = record {
    complete = λ t sid uid le e. ground (arith, empty t sid);
    owned = λ t sid k le e. ground (arith, empty t sid, no_seat r);
    exclusive = λ t a b k le e. ground (arith, empty t a, no_seat r);
  }

  -- Whatever calls were made, in whatever order, and whichever of them lost its answer: every live
  -- session's seat has a key that holds the session's own token, and two live sessions never name
  -- the same seat.
  pub reached-IsSound :
      (max : ℤ) (now : Time) (s : Keyspace A B C) → Reached max now s → IsSound r now s
  reached-IsSound max now s (start _ _ empty) = start-IsSound now s empty
  reached-IsSound max now s (wait t _ _ le before) =
      later-IsSound r le (reached-IsSound max t s before)
  reached-IsSound max now s (held _ b _ trip validated until h e before) =
      rw e (hold-IsSound max trip validated until h (reached-IsSound max now b before))
  reached-IsSound max now s (released _ b _ trip sid uid e before) =
      rw e (release-IsSound trip sid uid (reached-IsSound max now b before))

  -- While a seat's key is there, no call of `Hold` for the seat succeeds, and none changes anything.
  pub hold-claimed :
      (max : ℤ) (trip : Trip) (s : Keyspace A B C) (validated until at : Time) (h : Hold) (w : Text)
      → r.get s.strings at (seat_key h.screening_id h.seat) ≡ some w
      → ((hold r max trip s validated until at h).0 ≢ ok tt)
        × ((hold r max trip s validated until at h).1 ≡ s)
  hold-claimed max trip s validated until at h w there =
      hold_cases r (λ x. (x.0 ≢ ok tt) × (x.1 ≡ s)) max trip s validated until at h
        (λ e. (λ p. cc, refl)) (λ e secs. (λ p. cc, (script secs).1)) (λ secs _ _ _ _. script secs)
    where
      script :
          (secs : ℕ)
          → (hold_answer (hold_script r max s at h secs).0 ≢ ok tt)
            × ((hold_script r max s at h secs).1 ≡ s)
      script secs =
          hold_script_cases r (λ x. (hold_answer x.0 ≢ ok tt) × (x.1 ≡ s)) max s at h secs
            (λ _. (λ p. ground (arith, limit_answer), refl))
            (λ _ _. (λ p. ground (arith, taken_answer), refl))
            (λ b _ granted. absurd (
              ground (
                arith,
                r.set_nx_ex-taken s.strings at (seat_key h.screening_id h.seat) h.hold_token w secs
                    there,
              )))

  -- A claim is never taken over: whatever `Hold` does, every key that was there keeps its token.
  pub get-hold :
      (max : ℤ) (trip : Trip) (s : Keyspace A B C) (validated until at t : Time) (h : Hold)
      (k w : Text)
      → at ≤ t
      → r.get s.strings at k ≡ some w
      → r.get (hold r max trip s validated until at h).1.strings t k ≡ r.get s.strings t k
  get-hold max trip s validated until at t h k w le there =
      hold_state r (λ x. r.get x.strings t k ≡ r.get s.strings t k) max trip s validated until at h
        refl
        (λ secs.
          hold_script_cases r (λ x. r.get x.1.strings t k ≡ r.get s.strings t k) max s at h secs
            (λ _. refl) (λ _ _. refl)
            (λ b _ granted. ground (
              arith,
              get-write r s b at h secs t k,
              (set_nx_ex-granted r s.strings b at (seat_key h.screening_id h.seat) h.hold_token secs
                  granted).0,
              (set_nx_ex-granted r s.strings b at (seat_key h.screening_id h.seat) h.hold_token secs
                    granted).1
                  t k le,
            )))

  -- A release, however late, deletes no key but one that still holds its own session's token.
  pub get-release :
      (trip : Trip) (s : Keyspace A B C) (at t : Time) (sid uid k w : Text)
      → at ≤ t
      → r.get s.strings at k ≡ some w
      → token_at r s at sid ≢ some w
      → r.get (release r trip s at sid uid).1.strings t k ≡ r.get s.strings t k
  get-release trip s at t sid uid k w le there other =
      release_state r (λ x. r.get x.strings t k ≡ r.get s.strings t k) trip s at sid uid refl
        (release_script_cases r (λ x. r.get x.1.strings t k ≡ r.get s.strings t k) s at sid uid
          (λ _. refl) (λ _ _ _. refl) (λ _ _ _ _. refl)
          (λ q _ mine. ground (
            arith,
            get-tear_down r s at t sid uid (token_at r s at sid) q k le,
            Option-cases (token_at r s at sid),
          )))
