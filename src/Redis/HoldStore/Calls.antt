-- ===== src/Redis/HoldStore/Calls.antt =====
-- What a call of `Hold` or `Release` of internal/adapters/redis/holdstore.go leaves behind, on each
-- of its branches and whatever becomes of its answer.
use booking_concurrent.Common.{
  ℕ, ◌≤◌, ◌≡◌, true, false, Option, some, none, [], Text, text_eq, text_discrete, bytes, arith, ltb,
  if◌then◌else◌, Bool-cases, Option-cases, Result-cases, inl, inr, refl, ℤ, Result, Error, ok, err,
  sentinel, booking_error, hold_limit_exceeded, seat_already_held,
}
use booking_concurrent.Common.Dict.{lookup}
use booking_concurrent.Domain.Booking.{Time, Hold, validate}
use booking_concurrent.Memory.SeatKey.{seat_key}
use booking_concurrent.Redis.Server.{Redis}
use booking_concurrent.Common.Trip.{Trip, answered, unsent, unanswered}
use booking_concurrent.Redis.HoldStore.{
  Keyspace, session_key, seat_key_of_fields, write_session, is_full, hold_script, hold_answer,
  run_hold, hold, tear_down, release_script, release, same_token, ttl_seconds,
}
use booking_concurrent.Redis.HoldStore.Keys.{session_key-eq}
use booking_concurrent.Redis.HoldStore.Claims.{IsSound, session_at, seat_at, token_at, no_owner}

pub ok_answer : hold_answer (bytes "OK") ≡ ok tt
unfolding hold_answer text_discrete
ok_answer = refl

pub limit_answer : hold_answer (bytes "LIMIT") ≡ err (sentinel (booking_error hold_limit_exceeded))
unfolding hold_answer text_discrete
limit_answer = refl

pub taken_answer : hold_answer (bytes "TAKEN") ≡ err (sentinel (booking_error seat_already_held))
unfolding hold_answer text_discrete
taken_answer = refl

module _ {A B C : Type 0} (r : Redis A B C) where
  -- The branches of the hold script.
  pub hold_script_cases {ℓ} :
      (P : Text × Keyspace A B C → Type ℓ) (max : ℤ) (s : Keyspace A B C) (at : Time) (h : Hold)
      (secs : ℕ)
      → (is_full r max s h.user_id ≡ true → P (bytes "LIMIT", s))
      → (is_full r max s h.user_id ≡ false
          → r.set_nx_ex s.strings at (seat_key h.screening_id h.seat) h.hold_token secs ≡ none
          → P (bytes "TAKEN", s))
      → ((b : A)
          → is_full r max s h.user_id ≡ false
          → r.set_nx_ex s.strings at (seat_key h.screening_id h.seat) h.hold_token secs ≡ some b
          → P (bytes "OK", write_session r s b at h secs))
      → P (hold_script r max s at h secs)
  unfolding hold_script
  hold_script_cases P max s at h secs full taken free =
      elim (Bool-cases (is_full r max s h.user_id)) [
        | inl e ↦ rw e (full e)
        | inr e ↦
            rw e
              (elim (Option-cases
                (r.set_nx_ex s.strings at (seat_key h.screening_id h.seat) h.hold_token secs)) [
                  | inl c ↦ rw c (taken e c)
                  | inr (b, c) ↦ rw c (free b e c)
                ])
      ]

  run_hold_cases {ℓ} :
      (P : Result (Unit {0}) × Keyspace A B C → Type ℓ) (max : ℤ) (trip : Trip) (s : Keyspace A B C)
      (at : Time) (h : Hold) (secs : ℕ)
      → ((e : Error) → P (err e, s))
      → ((e : Error) → P (err e, (hold_script r max s at h secs).1))
      → (trip ≡ answered
          → P (hold_answer (hold_script r max s at h secs).0, (hold_script r max s at h secs).1))
      → P (run_hold r max trip s at h secs)
  unfolding run_hold
  run_hold_cases P max answered s at h secs refused lost ran = ran refl
  run_hold_cases P max unsent s at h secs refused lost ran = refused _
  run_hold_cases P max unanswered s at h secs refused lost ran = lost _

  -- The branches of `Hold`: refused before the script is sent, its answer lost, or answered.
  pub hold_cases {ℓ} :
      (P : Result (Unit {0}) × Keyspace A B C → Type ℓ) (max : ℤ) (trip : Trip) (s : Keyspace A B C)
      (validated until at : Time) (h : Hold)
      → ((e : Error) → P (err e, s))
      → ((e : Error) (secs : ℕ) → P (err e, (hold_script r max s at h secs).1))
      → ((secs : ℕ)
          → trip ≡ answered
          → validate h validated ≡ ok tt
          → ttl_seconds h.expires_at until ≡ secs
          → ltb secs 1 ≡ false
          → P (hold_answer (hold_script r max s at h secs).0, (hold_script r max s at h secs).1))
      → P (hold r max trip s validated until at h)
  unfolding hold
  hold_cases P max trip s validated until at h refused lost ran =
      elim (Result-cases (validate h validated)) [
        | inl (e, bad) ↦ rw (bad, hold) (refused e)
        | inr (_, good) ↦
            rw (good, hold)
              (elim (Bool-cases (ltb (ttl_seconds h.expires_at until) 1)) [
                | inl late ↦ rw late (refused _)
                | inr early ↦ rw early (
                    run_hold_cases P max trip s at h _ refused (λ e. lost e _)
                      (λ t. ran _ t good refl early))
              ])
      ]

  -- The state after a call: the one before, or the script's.
  pub hold_state {ℓ} :
      (P : Keyspace A B C → Type ℓ) (max : ℤ) (trip : Trip) (s : Keyspace A B C)
      (validated until at : Time) (h : Hold)
      → P s
      → ((secs : ℕ) → P (hold_script r max s at h secs).1)
      → P (hold r max trip s validated until at h).1
  hold_state P max trip s validated until at h same ran =
      hold_cases (λ x. P x.1) max trip s validated until at h (λ _. same) (λ _ secs. ran secs)
        (λ secs _ _ _ _. ran secs)

  pub release_state {ℓ} :
      (P : Keyspace A B C → Type ℓ) (trip : Trip) (s : Keyspace A B C) (at : Time) (sid uid : Text)
      → P s
      → P (release_script r s at sid uid).1
      → P (release r trip s at sid uid).1
  unfolding release
  release_state P answered s at sid uid same ran = ran
  release_state P unsent s at sid uid same ran = same
  release_state P unanswered s at sid uid same ran = ran

  -- The branches of the release script.
  pub release_script_cases {ℓ} :
      (P : Option Text × Keyspace A B C → Type ℓ) (s : Keyspace A B C) (at : Time) (sid uid : Text)
      → (lookup (bytes "user_id") (session_at r s at sid) ≡ none → P (some (bytes "NOT_FOUND"), s))
      → ((owner : Text)
          → lookup (bytes "user_id") (session_at r s at sid) ≡ some owner
          → text_eq owner uid ≡ false
          → P (some (bytes "NOT_OWNER"), s))
      → ((owner : Text)
          → lookup (bytes "user_id") (session_at r s at sid) ≡ some owner
          → text_eq owner uid ≡ true
          → seat_at r s at sid ≡ none
          → P (none, s))
      → ((k : Text)
          → lookup (bytes "user_id") (session_at r s at sid) ≡ some uid
          → seat_at r s at sid ≡ some k
          → P (some (bytes "OK"), tear_down r s at sid uid (token_at r s at sid) k))
      → P (release_script r s at sid uid)
  unfolding release_script
  release_script_cases P s at sid uid missing foreign broken mine =
      elim (Option-cases (lookup (bytes "user_id") (session_at r s at sid))) [
        | inl e ↦ rw (e, release_script) (missing e)
        | inr (owner, e) ↦ elim (Bool-cases (text_eq owner uid)) [
          | inr other ↦ rw (e, release_script) (rw other (foreign owner e other))
          | inl same ↦ elim (Option-cases (seat_at r s at sid)) [
            | inl gone ↦ rw (e, release_script) (rw (same, gone) (broken owner e same gone))
            | inr (k, found) ↦
                rw (e, release_script) (rw (same, found) (mine k (ground arith) found))
          ]
        ]
      ]

  pub get-tear_down :
      (s : Keyspace A B C) (at t : Time) (sid uid : Text) (w : Option Text) (k j : Text)
      → at ≤ t
      → r.get (tear_down r s at sid uid w k).strings t j ≡ (
          if same_token (r.get s.strings at k) w
          then (if text_eq k j then none else r.get s.strings t j)
          else r.get s.strings t j)
  unfolding tear_down
  get-tear_down s at t sid uid w k j le = ground (arith, r.get-del s.strings at t k j le)

  pub session_at-tear_down :
      (s : Keyspace A B C) (at t : Time) (sid uid : Text) (w : Option Text) (k j : Text)
      → at ≤ t
      → session_at r (tear_down r s at sid uid w k) t j
        ≡ (if text_eq sid j then [] else session_at r s t j)
  unfolding tear_down
  session_at-tear_down s at t sid uid w k j le =
      rw (← session_key-eq sid j)
        (r.hgetall-hdel s.hashes at t (session_key sid) (session_key j) le)

  pub no_seat : seat_key_of_fields [] ≡ none
  unfolding seat_key_of_fields lookup
  no_seat = refl

  -- A session that is there later is there now, with the same seat.
  seat_at_earlier :
      (s : Keyspace A B C) (t u : Time) (sid k : Text)
      → t ≤ u
      → seat_at r s u sid ≡ some k
      → seat_at r s t sid ≡ some k
  seat_at_earlier s t u sid k le e =
      ground (arith, no_seat, r.hgetall_earlier s.hashes t u (session_key sid) le)

  pub tear_down-IsSound :
      {at : Time} {s : Keyspace A B C} (sid uid k : Text)
      → seat_at r s at sid ≡ some k
      → IsSound r at s
      → IsSound r at (tear_down r s at sid uid (token_at r s at sid) k)
  tear_down-IsSound {at} {s} sid uid k mine v = record {
    complete = λ t j w le. ground (
      arith,
      session_at-tear_down s at t sid uid (token_at r s at sid) k j le,
      v.complete t j w le,
      no_owner r w,
    );
    owned = λ t j q le. ground (
      arith,
      session_at-tear_down s at t sid uid (token_at r s at sid) k j le,
      get-tear_down s at t sid uid (token_at r s at sid) k q le,
      v.owned t j q le,
      v.exclusive at sid j k (omega arith) mine,
      seat_at_earlier s at t j k le,
      no_seat,
    );
    exclusive = λ t a b q le. ground (
      arith,
      session_at-tear_down s at t sid uid (token_at r s at sid) k a le,
      session_at-tear_down s at t sid uid (token_at r s at sid) k b le,
      v.exclusive t a b q le,
      no_seat,
    );
  }
