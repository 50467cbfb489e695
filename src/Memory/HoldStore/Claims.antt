-- ===== src/Memory/HoldStore/Claims.antt =====
-- The invariant of the hold store: sessions and the seat entries that they own.
use booking_concurrent.Common.{ℤ, ◌≤◌, ◌≡◌, true, false, some, arith, Text, text_eq}
use booking_concurrent.Common.Dict.{Dict, lookup, lookup-insert, lookup-delete}
use booking_concurrent.Domain.Booking.{Time, before, Hold}
use booking_concurrent.Memory.HoldStore.{
  HoldStore, SeatEntry, hold_key, is_claimed, claim, hold, free_seat, give_up, release,
  new_hold_store, hold_cases, release_cases,
}

abbrev pub entry : Hold → SeatEntry
entry h = record { token = h.hold_token; expires_at = h.expires_at }

-- What is true of the store at time `now`, and stays true while the clock does not go back.
pub record IsSound (now : Time) (s : HoldStore) : Type 0 where
  pub keyed : (sid : Text) (h : Hold) → lookup sid s.sessions ≡ some h → h.session_id ≡ sid
  pub owned :
      (sid : Text) (h : Hold)
      → lookup sid s.sessions ≡ some h
      → before now h.expires_at ≡ true
      → lookup (hold_key h) s.seats ≡ some (entry h)
  pub exclusive :
      (a b : Text) (g h : Hold)
      → lookup a s.sessions ≡ some g
      → lookup b s.sessions ≡ some h
      → before now g.expires_at ≡ true
      → before now h.expires_at ≡ true
      → hold_key g ≡ hold_key h
      → a ≡ b

before_earlier : (t u e : Time) → t ≤ u → before u e ≡ true → before t e ≡ true
before_earlier t u e le h = ground arith

pub later-IsSound : {t u : Time} {s : HoldStore} → t ≤ u → IsSound t s → IsSound u s
later-IsSound {t} {u} le v = record {
  keyed = v.keyed;
  owned = λ sid h e live. v.owned sid h e (before_earlier t u h.expires_at le live);
  exclusive = λ a b g h p q lg lh.
      v.exclusive a b g h p q (before_earlier t u g.expires_at le lg)
        (before_earlier t u h.expires_at le lh);
}

pub new-IsSound : (now : Time) (m : ℤ) → IsSound now (new_hold_store m)
unfolding new_hold_store lookup
new-IsSound now m = record {
  keyed = λ sid h e. cc;
  owned = λ sid h e live. cc;
  exclusive = λ a b g h p q lg lh e. cc;
}

-- The seat is free, so no live session claims it.
unclaimed :
    {now : Time} {s : HoldStore} (h : Hold) (sid : Text) (g : Hold)
    → IsSound now s
    → is_claimed (lookup (hold_key h) s.seats) now ≡ false
    → lookup sid s.sessions ≡ some g
    → before now g.expires_at ≡ true
    → hold_key g ≡ hold_key h
    → ⊥
unclaimed {now} {s} h sid g v free found live same = ground (arith, v.owned sid g found live)

claim-IsSound :
    {now : Time} {s : HoldStore} (h : Hold)
    → is_claimed (lookup (hold_key h) s.seats) now ≡ false
    → IsSound now s
    → IsSound now (claim s h)
unfolding claim
claim-IsSound {now} {s} h free v = record {
  keyed = λ sid g e. ground (arith, lookup-insert h.session_id sid h s.sessions, v.keyed sid g);
  owned = λ sid g e live. ground (
    arith,
    lookup-insert h.session_id sid h s.sessions,
    lookup-insert (hold_key h) (hold_key g) (entry h) s.seats,
    v.owned sid g,
    unclaimed h sid g v free,
  );
  exclusive = λ a b f g p q lf lg same. ground (
    arith,
    lookup-insert h.session_id a h s.sessions,
    lookup-insert h.session_id b h s.sessions,
    v.exclusive a b f g,
    unclaimed h a f v free,
    unclaimed h b g v free,
  );
}

free_seat-ne :
    (h : Hold) (k : Text) (seats : Dict SeatEntry)
    → text_eq (hold_key h) k ≡ false
    → lookup k (free_seat h seats) ≡ lookup k seats
unfolding free_seat
free_seat-ne h k seats ne = ground (arith, lookup-delete (hold_key h) k seats)

give_up-IsSound :
    {now : Time} {s : HoldStore} (sid uid : Text) (h : Hold)
    → lookup sid s.sessions ≡ some h
    → before now h.expires_at ≡ true
    → IsSound now s
    → IsSound now (give_up s sid uid h)
unfolding give_up
give_up-IsSound {now} {s} sid uid h found live v = record {
  keyed = λ a g e. ground (arith, lookup-delete sid a s.sessions, v.keyed a g);
  owned = λ a g e lg. ground (
    arith,
    lookup-delete sid a s.sessions,
    v.owned a g,
    v.exclusive sid a h g,
    free_seat-ne h (hold_key g) s.seats,
  );
  exclusive = λ a b f g p q lf lg same.
      ground (
        arith,
        lookup-delete sid a s.sessions,
        lookup-delete sid b s.sessions,
        v.exclusive a b f g,
      );
}

-- Claiming a seat, granted or refused, keeps the store sound.
pub hold-IsSound :
    {now : Time} {s : HoldStore} (h : Hold) → IsSound now s → IsSound now (hold s now h).1
hold-IsSound {now} {s} h v =
    hold_cases (λ r. IsSound now r.1) s now h (λ _. v) (λ _ _. v) (λ _ free. claim-IsSound h free v)

-- So does giving one up, with every refusal.
pub release-IsSound :
    {now : Time} {s : HoldStore} (sid uid : Text)
    → IsSound now s
    → IsSound now (release s now sid uid).1
release-IsSound {now} {s} sid uid v =
    release_cases (λ r. IsSound now r.1) s now sid uid (λ _. v) (λ _ _ _. v) (λ _ _ _ _. v)
      (λ h found live _. give_up-IsSound sid uid h found live v)
