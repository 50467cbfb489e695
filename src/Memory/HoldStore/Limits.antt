-- ===== src/Memory/HoldStore/Limits.antt =====
-- The limit on the holds of one user.
use booking_concurrent.Common.{
  ℕ, suc, ◌≤◌, ◌≡◌, refl, inl, inr, false, some, arith, Text, text_eq, length, pos, Option-cases,
  if◌then◌else◌, [], ◌∷◌,
}
use booking_concurrent.Common.Dict.{Dict, lookup, insert, lookup-insert, delete, lookup-delete}
use booking_concurrent.Domain.Booking.{Time, Hold}
use booking_concurrent.Memory.HoldStore.{
  HoldStore, or_empty, is_full, claim, hold, drop_session, give_up, release, hold_cases,
  release_cases, new_hold_store,
}

pub length-insert-le :
    {V : Type 0} (k : Text) (v : V) (m : Dict V) → length (insert k v m) ≤ suc (length m)
unfolding insert
length-insert-le k v [] = omega arith
length-insert-le k v ((j, w) ∷ m) = ground (arith, length-insert-le k v m)

pub length-delete-le : {V : Type 0} (k : Text) (m : Dict V) → length (delete k m) ≤ length m
unfolding delete
length-delete-le k [] = omega arith
length-delete-le k ((j, w) ∷ m) = ground (arith, length-delete-le k m)

-- No user's set of sessions is larger than the limit, and each session is in the set of its user.
pub record IsLimited (max : ℕ) (s : HoldStore) : Type 0 where
  pub limit : s.max_holds ≡ pos max
  pub few : (uid : Text) → length (or_empty (lookup uid s.user_holds)) ≤ max
  pub counted :
      (sid : Text) (h : Hold)
      → lookup sid s.sessions ≡ some h
      → lookup sid (or_empty (lookup h.user_id s.user_holds)) ≡ some tt

claim-IsLimited :
    (max : ℕ) (s : HoldStore) (h : Hold)
    → is_full s h.user_id ≡ false
    → IsLimited max s
    → IsLimited max (claim s h)
unfolding claim is_full
claim-IsLimited max s h below v = record {
  limit = v.limit;
  few = λ uid. ground (
    arith,
    v.limit,
    v.few uid,
    length-insert-le h.session_id tt (or_empty (lookup h.user_id s.user_holds)),
    lookup-insert h.user_id uid (insert h.session_id tt (or_empty (lookup h.user_id s.user_holds)))
        s.user_holds,
  );
  counted = λ sid g e. ground (
    arith,
    v.counted sid g,
    lookup-insert h.session_id sid h s.sessions,
    lookup-insert h.session_id sid tt (or_empty (lookup h.user_id s.user_holds)),
    lookup-insert h.user_id g.user_id
        (insert h.session_id tt (or_empty (lookup h.user_id s.user_holds))) s.user_holds,
  );
}

lookup-drop_session :
    (uid sid k : Text) (holds : Dict (Dict (Unit {0})))
    → or_empty (lookup k (drop_session uid sid holds)) ≡ (
        if text_eq uid k then delete sid (or_empty (lookup k holds)) else or_empty (lookup k holds))
unfolding drop_session delete
lookup-drop_session uid sid k holds = elim (Option-cases (lookup uid holds)) [
  | inl n ↦ ground arith
  | inr (mine, n) ↦ ground (arith, lookup-insert uid k (delete sid mine) holds)
]

give_up-IsLimited :
    (max : ℕ) (s : HoldStore) (sid uid : Text) (h : Hold)
    → IsLimited max s
    → IsLimited max (give_up s sid uid h)
unfolding give_up
give_up-IsLimited max s sid uid h v = record {
  limit = v.limit;
  few = λ k. ground (
    arith,
    v.few k,
    lookup-drop_session uid sid k s.user_holds,
    length-delete-le sid (or_empty (lookup k s.user_holds)),
  );
  counted = λ a g e. ground (
    arith,
    v.counted a g,
    lookup-delete sid a s.sessions,
    lookup-drop_session uid sid g.user_id s.user_holds,
    lookup-delete sid a (or_empty (lookup g.user_id s.user_holds)),
  );
}

pub new-IsLimited : (max : ℕ) → IsLimited max (new_hold_store (pos max))
unfolding new_hold_store lookup
new-IsLimited max = record { limit = refl; few = λ uid. omega arith; counted = λ sid h e. cc }

-- No claim and no release, granted or refused, takes a user over the limit or lets a session go
-- uncounted.
pub hold-release-IsLimited :
    (max : ℕ) (s : HoldStore) (now : Time) (h : Hold) (sid uid : Text)
    → IsLimited max s
    → IsLimited max (hold s now h).1 × IsLimited max (release s now sid uid).1
hold-release-IsLimited max s now h sid uid v = (
  hold_cases (λ r. IsLimited max r.1) s now h (λ _. v) (λ _ _. v)
      (λ below _. claim-IsLimited max s h below v),
  release_cases (λ r. IsLimited max r.1) s now sid uid (λ _. v) (λ _ _ _. v) (λ _ _ _ _. v)
      (λ g _ _ _. give_up-IsLimited max s sid uid g v),
)
