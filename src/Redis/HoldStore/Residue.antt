-- ===== src/Redis/HoldStore/Residue.antt =====
-- What expired holds leave in the sets of internal/adapters/redis/holdstore.go: no script removes the
-- entry of a session that is gone.
use booking_concurrent.Common.{
  ℕ, ◌≤◌, ◌≡◌, ◌≢◌, refl, ap, ◌∙◌, true, false, some, [], ◌∷◌, ◌++◌, Text, text_eq, text_eq_refl,
  bytes, arith, length, length-append, Bool-cases, inl, inr, ℤ, pos, ok,
}
use booking_concurrent.Common.Dict.{lookup}
use booking_concurrent.Domain.Booking.{Time, Hold}
use booking_concurrent.Redis.Server.{Redis}
use booking_concurrent.Common.Trip.{Trip}
use booking_concurrent.Redis.HoldStore.{
  Keyspace, user_holds_key, global_holds_key, is_full, write_session, hold, hold_answer, release,
  tear_down, unix,
}
use booking_concurrent.Redis.HoldStore.Keys.{fields-IsWritten}
use booking_concurrent.Redis.HoldStore.Claims.{session_at, session_at-write, token_at, no_owner}
use booking_concurrent.Redis.HoldStore.Calls.{
  hold_script_cases, hold_cases, hold_state, release_state, release_script_cases, limit_answer,
  session_at-tear_down,
}
use booking_concurrent.Redis.HoldStore.Listing.{
  global-ne-user, IsLimited, hold-IsLimited, release-IsLimited,
}

append_cancel : (a b s : Text) → a ++ s ≡ b ++ s → a ≡ b
append_cancel [] [] s e = refl
append_cancel [] (c ∷ b) s e = absurd (omega (arith, ap length e, length-append b s))
append_cancel (c ∷ a) [] s e = absurd (omega (arith, ap length e, length-append a s))
append_cancel (c ∷ a) (d ∷ b) s e = ground (arith, append_cancel a b s)

user_holds_key-eq :
    (a b : Text) → text_eq a b ≡ false → text_eq (user_holds_key a) (user_holds_key b) ≡ false
unfolding user_holds_key
user_holds_key-eq a b e = ground (arith, append_cancel a b (bytes ":holds"))

module _ {A B C : Type 0} (r : Redis A B C) where
  -- The states that calls lead to from a state, as time goes on. Every call may fail on its way.
  pub data Onward (max : ℤ) (origin : Time) (first : Keyspace A B C)
      : Time → Keyspace A B C → Type 0 where
    here : Onward max origin first origin first
    wait :
        (t u : Time) (s : Keyspace A B C)
        → t ≤ u
        → Onward max origin first t s
        → Onward max origin first u s
    held :
        (at : Time) (s t : Keyspace A B C) (trip : Trip) (validated until : Time) (h : Hold)
        → t ≡ (hold r max trip s validated until at h).1
        → Onward max origin first at s
        → Onward max origin first at t
    released :
        (at : Time) (s t : Keyspace A B C) (trip : Trip) (sid uid : Text)
        → t ≡ (release r trip s at sid uid).1
        → Onward max origin first at s
        → Onward max origin first at t

  -- The user's set is full, and no session of the user is there any more.
  record IsLocked (max : ℤ) (uid : Text) (t : Time) (s : Keyspace A B C) : Type 0 where
    full : is_full r max s uid ≡ true
    gone :
        (x : Time) (sid : Text) → t ≤ x → lookup (bytes "user_id") (session_at r s x sid) ≢ some uid

  -- Whether a set is full is read off the set alone.
  is_full_alike :
      (max : ℤ) (uid : Text) (s t : Keyspace A B C)
      → r.zset t.zsets (user_holds_key uid) ≡ r.zset s.zsets (user_holds_key uid)
      → is_full r max t uid ≡ is_full r max s uid
  unfolding is_full
  is_full_alike max uid s t e = rw e refl

  zset-write_session :
      (s : Keyspace A B C) (b : A) (at : Time) (h : Hold) (secs : ℕ) (uid : Text)
      → text_eq h.user_id uid ≡ false
      → r.zset (write_session r s b at h secs).zsets (user_holds_key uid)
        ≡ r.zset s.zsets (user_holds_key uid)
  unfolding write_session
  zset-write_session s b at h secs uid other = ground (
    arith,
    global-ne-user r uid,
    user_holds_key-eq h.user_id uid other,
    r.zset-zadd s.zsets (user_holds_key h.user_id) (user_holds_key uid) (unix h.expires_at)
        h.session_id,
    r.zset-zadd (r.zadd s.zsets (user_holds_key h.user_id) (unix h.expires_at) h.session_id)
        global_holds_key (user_holds_key uid) (unix h.expires_at) h.session_id,
  )

  zset-tear_down :
      (s : Keyspace A B C) (at : Time) (sid owner k uid : Text)
      → text_eq owner uid ≡ false
      → r.zset (tear_down r s at sid owner (token_at r s at sid) k).zsets (user_holds_key uid)
        ≡ r.zset s.zsets (user_holds_key uid)
  unfolding tear_down
  zset-tear_down s at sid owner k uid other = ground (
    arith,
    global-ne-user r uid,
    user_holds_key-eq owner uid other,
    r.zset-zrem s.zsets (user_holds_key owner) (user_holds_key uid) sid,
    r.zset-zrem (r.zrem s.zsets (user_holds_key owner) sid) global_holds_key (user_holds_key uid)
        sid,
  )

  write-IsLocked :
      {max : ℤ} {uid : Text} {at : Time} {s : Keyspace A B C} (b : A) (h : Hold) (secs : ℕ)
      → text_eq h.user_id uid ≡ false
      → IsLocked max uid at s
      → IsLocked max uid at (write_session r s b at h secs)
  write-IsLocked {max} {uid} {at} {s} b h secs other v = record {
    full = is_full_alike max uid s _ (zset-write_session s b at h secs uid other) ∙ v.full;
    gone = λ x sid le e. elim (Bool-cases (text_eq h.session_id sid)) [
      | inr another ↦ v.gone x sid le (ground (arith, session_at-write r s b at h secs x sid le))
      | inl same ↦ ground (
        arith,
        session_at-write r s b at h secs x sid le,
        (fields-IsWritten h (session_at r s at h.session_id)).user,
        no_owner r uid,
        text_eq_refl uid,
      )
    ];
  }

  tear_down-IsLocked :
      {max : ℤ} {uid : Text} {at : Time} {s : Keyspace A B C} (sid owner k : Text)
      → text_eq owner uid ≡ false
      → IsLocked max uid at s
      → IsLocked max uid at (tear_down r s at sid owner (token_at r s at sid) k)
  tear_down-IsLocked {max} {uid} {at} {s} sid owner k other v = record {
    full = is_full_alike max uid s _ (zset-tear_down s at sid owner k uid other) ∙ v.full;
    gone = λ x j le e. elim (Bool-cases (text_eq sid j)) [
      | inr another ↦
          v.gone x j le
            (ground (arith, session_at-tear_down r s at x sid owner (token_at r s at sid) k j le))
      | inl same ↦ ground (
        arith,
        session_at-tear_down r s at x sid owner (token_at r s at sid) k j le,
        no_owner r uid,
      )
    ];
  }

  hold-IsLocked :
      {max : ℤ} {uid : Text} {at : Time} {s : Keyspace A B C} (trip : Trip) (validated until : Time)
      (h : Hold)
      → IsLocked max uid at s
      → IsLocked max uid at (hold r max trip s validated until at h).1
  hold-IsLocked {max} {uid} {at} {s} trip validated until h v =
      hold_state r (IsLocked max uid at) max trip s validated until at h v (λ secs.
        hold_script_cases r (λ x. IsLocked max uid at x.1) max s at h secs (λ _. v) (λ _ _. v)
          (λ b below _. write-IsLocked b h secs (ground (arith, v.full)) v))

  release-IsLocked :
      {max : ℤ} {uid : Text} {at : Time} {s : Keyspace A B C} (trip : Trip) (sid owner : Text)
      → IsLocked max uid at s
      → IsLocked max uid at (release r trip s at sid owner).1
  release-IsLocked {max} {uid} {at} {s} trip sid owner v =
      release_state r (IsLocked max uid at) trip s at sid owner v (
        release_script_cases r (λ x. IsLocked max uid at x.1) s at sid owner (λ _. v) (λ _ _ _. v)
          (λ _ _ _ _. v)
          (λ k mine _. elim (Bool-cases (text_eq owner uid)) [
            | inl same ↦ absurd (v.gone at sid (omega arith) (ground arith))
            | inr other ↦ tear_down-IsLocked sid owner k other v
          ]))

  onward-IsLocked :
      {max : ℤ} {uid : Text} {origin : Time} {first : Keyspace A B C} {now : Time}
      {s : Keyspace A B C}
      → Onward max origin first now s
      → IsLocked max uid origin first
      → IsLocked max uid now s
  onward-IsLocked here v = v
  onward-IsLocked (wait t u s le before) v =
      let w = onward-IsLocked before v in
      record { full = w.full; gone = λ x sid le'. w.gone x sid (omega arith) }
  onward-IsLocked (held at s t trip validated until h e before) v =
      rw e (hold-IsLocked trip validated until h (onward-IsLocked before v))
  onward-IsLocked (released at s t trip sid owner e before) v =
      rw e (release-IsLocked trip sid owner (onward-IsLocked before v))

  full_refuses :
      (max : ℤ) (trip : Trip) (s : Keyspace A B C) (validated until at : Time) (h : Hold)
      → is_full r max s h.user_id ≡ true
      → (hold r max trip s validated until at h).0 ≢ ok tt
  full_refuses max trip s validated until at h full =
      hold_cases r (λ x. x.0 ≢ ok tt) max trip s validated until at h (λ e p. cc) (λ e secs p. cc)
        (λ secs _ _ _ _.
          hold_script_cases r (λ x. hold_answer x.0 ≢ ok tt) max s at h secs
            (λ _ p. ground (arith, limit_answer)) (λ below _. absurd (ground arith))
            (λ b below _. absurd (ground arith)))

  -- Once a user's set is full and every hold in it has expired, no call frees a place in it: whatever
  -- calls anyone makes, and however long the user waits, `Hold` never succeeds for the user again.
  pub hold-locked :
      (max : ℤ) (uid : Text) (origin now : Time) (first s : Keyspace A B C) (trip : Trip)
      (validated until : Time) (h : Hold)
      → is_full r max first uid ≡ true
      → ((t : Time) (sid : Text)
          → origin ≤ t
          → lookup (bytes "user_id") (session_at r first t sid) ≢ some uid)
      → Onward max origin first now s
      → h.user_id ≡ uid
      → (hold r max trip s validated until now h).0 ≢ ok tt
  hold-locked max uid origin now first s trip validated until h full gone path own =
      full_refuses max trip s validated until now h
        (rw own (onward-IsLocked path (record { full = full; gone = gone })).full)

  -- Whatever calls are made, in whatever order, and whichever of them lost its answer: no user's set
  -- of holds grows past the limit, if none was past it.
  pub onward-IsLimited :
      (max : ℕ) (origin : Time) (first : Keyspace A B C) (now : Time) (s : Keyspace A B C)
      → IsLimited r max first
      → Onward (pos max) origin first now s
      → IsLimited r max s
  onward-IsLimited max origin first now s v here = v
  onward-IsLimited max origin first now s v (wait t u _ le before) =
      onward-IsLimited max origin first t s v before
  onward-IsLimited max origin first now s v (held _ b _ trip validated until h e before) = rw e (
      hold-IsLimited r max trip b validated until now h
        (onward-IsLimited max origin first now b v before))
  onward-IsLimited max origin first now s v (released _ b _ trip sid uid e before) = rw e (
      release-IsLimited r max trip b now sid uid (onward-IsLimited max origin first now b v before))
