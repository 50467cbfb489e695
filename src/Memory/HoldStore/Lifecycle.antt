-- ===== src/Memory/HoldStore/Lifecycle.antt =====
-- `Hold` and `Release` one after the other, on one seat.
use booking_concurrent.Common.{
  ◌≡◌, refl, inl, inr, true, false, some, arith, Text, text_eq, ok, err, sentinel, booking_error,
  seat_already_held, hold_not_found, subst, Option-cases, if◌then◌else◌,
}
use booking_concurrent.Common.Dict.{lookup, lookup-insert, lookup-delete}
use booking_concurrent.Domain.Booking.{Time, before, Hold}
use booking_concurrent.Memory.HoldStore.{
  HoldStore, hold_key, is_full, claim, hold, free_seat, give_up, release, get, hold_cases,
}
use booking_concurrent.Memory.HoldStore.Claims.{IsSound, entry}

-- While a granted hold lives, every other claim of its seat by a user below the limit is refused as
-- held; from its expiry on, the next such claim is granted.
pub hold_excludes :
    (s : HoldStore) (now : Time) (h g : Hold) (t : Time)
    → (hold s now h).0 ≡ ok tt
    → hold_key g ≡ hold_key h
    → is_full (hold s now h).1 g.user_id ≡ false
    → (hold (hold s now h).1 t g).0
      ≡ (if before t h.expires_at then err (sentinel (booking_error seat_already_held)) else ok tt)
hold_excludes s now h g t =
    hold_cases
      (λ r.
        r.0 ≡ ok tt
        → hold_key g ≡ hold_key h
        → is_full r.1 g.user_id ≡ false
        → (hold r.1 t g).0 ≡ (
            if before t h.expires_at
            then err (sentinel (booking_error seat_already_held))
            else ok tt))
      s now h (λ _ e. absurd cc) (λ _ _ e. absurd cc)
      (λ _ _ e same below.
        unfold hold claim in
        ground (arith, lookup-insert (hold_key h) (hold_key g) (entry h) s.seats))

get-ok :
    (s : HoldStore) (now : Time) (sid : Text) (h : Hold)
    → get s now sid ≡ ok h
    → (lookup sid s.sessions ≡ some h) × (before now h.expires_at ≡ true)
unfolding get
get-ok s now sid h e = elim (Option-cases (lookup sid s.sessions)) [
  | inl n ↦ absurd (ground arith)
  | inr (g, n) ↦ ground arith
]

release-ok :
    (s : HoldStore) (now : Time) (sid uid : Text) (h : Hold)
    → lookup sid s.sessions ≡ some h
    → before now h.expires_at ≡ true
    → text_eq h.user_id uid ≡ true
    → release s now sid uid ≡ (ok tt, give_up s sid uid h)
unfolding release
release-ok s now sid uid h found live own = ground arith

-- A live hold that its own user releases is granted back: the release succeeds, the session can be
-- read no more, and the next claim of the seat by a user below the limit is granted.
pub release_reopens :
    (s : HoldStore) (now : Time) (sid uid : Text) (h g : Hold)
    → IsSound now s
    → get s now sid ≡ ok h
    → text_eq h.user_id uid ≡ true
    → hold_key g ≡ hold_key h
    → is_full (release s now sid uid).1 g.user_id ≡ false
    → ((release s now sid uid).0 ≡ ok tt)
      × (get (release s now sid uid).1 now sid ≡ err (sentinel (booking_error hold_not_found)))
      × ((hold (release s now sid uid).1 now g).0 ≡ ok tt)
release_reopens s now sid uid h g v held own same below =
    let (found, live) = get-ok s now sid h held in
    let gone : release s now sid uid ≡ (ok tt, give_up s sid uid h) =
      release-ok s now sid uid h found live own in
    let below' : is_full (give_up s sid uid h) g.user_id ≡ false =
      subst (λ r. is_full r.1 g.user_id ≡ false) gone below in
    rw gone (
      refl,
      unfold get give_up in ground (arith, lookup-delete sid sid s.sessions),
      unfold hold give_up free_seat in
          ground (arith, v.owned sid h found live, lookup-delete (hold_key h) (hold_key g) s.seats),
    )
