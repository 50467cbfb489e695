-- ===== src/Redis/HoldStore/Claims.antt =====
-- Who owns a seat's key, in internal/adapters/redis/holdstore.go: the sessions and their tokens.
use booking_concurrent.Common.{
  ℕ, ◌≤◌, ◌+◌, ◌*◌, ◌≡◌, ◌⊎◌, true, false, Option, some, none, [], Text, text_eq, bytes, arith, ltb,
  if◌then◌else◌, Bool-cases, Option-cases, inl, inr, ◌∙◌, refl,
}
use booking_concurrent.Common.Dict.{Dict, lookup}
use booking_concurrent.Domain.Booking.{Time, Hold}
use booking_concurrent.Memory.SeatKey.{seat_key}
use booking_concurrent.Redis.Server.{Redis, put_all, second}
use booking_concurrent.Redis.HoldStore.{
  Keyspace, session_key, session_fields, seat_key_of_fields, write_session,
}
use booking_concurrent.Redis.HoldStore.Keys.{
  session_key-eq, fields-IsWritten, seat_key_of_fields-written,
}

module _ {A B C : Type 0} (r : Redis A B C) where
  -- The hash of a session at an instant, the seat that it names and its token.
  abbrev pub session_at : Keyspace A B C → Time → Text → Dict Text
  session_at s t sid = r.hgetall s.hashes t (session_key sid)

  abbrev pub seat_at : Keyspace A B C → Time → Text → Option Text
  seat_at s t sid = seat_key_of_fields (session_at s t sid)

  abbrev pub token_at : Keyspace A B C → Time → Text → Option Text
  token_at s t sid = lookup (bytes "hold_token") (session_at s t sid)

  -- What is true at time `now`, and at every later instant until the next call.
  pub record IsSound (now : Time) (s : Keyspace A B C) : Type 0 where
    pub complete :
        (t : Time) (sid uid : Text)
        → now ≤ t
        → lookup (bytes "user_id") (session_at s t sid) ≡ some uid
        → (k : Text) × (seat_at s t sid ≡ some k)
    pub owned :
        (t : Time) (sid k : Text)
        → now ≤ t
        → seat_at s t sid ≡ some k
        → (w : Text) × (token_at s t sid ≡ some w) × (r.get s.strings t k ≡ some w)
    pub exclusive :
        (t : Time) (a b k : Text)
        → now ≤ t
        → seat_at s t a ≡ some k
        → seat_at s t b ≡ some k
        → a ≡ b

  pub later-IsSound : {t u : Time} {s : Keyspace A B C} → t ≤ u → IsSound t s → IsSound u s
  later-IsSound {t} {u} le v = record {
    complete = λ x sid uid lx. v.complete x sid uid (omega arith);
    owned = λ x sid k lx. v.owned x sid k (omega arith);
    exclusive = λ x a b k lx. v.exclusive x a b k (omega arith);
  }

  -- The seat's key is absent, so no session claims it, then or later.
  unclaimed :
      {now : Time} {s : Keyspace A B C} (t : Time) (sid k : Text)
      → IsSound now s
      → now ≤ t
      → r.get s.strings now k ≡ none
      → seat_at s t sid ≡ some k
      → ⊥
  unclaimed {now} {s} t sid k v le free found =
      let (w, _, held) = v.owned t sid k le found in
      ground (arith, r.get_earlier s.strings now t k w le held)

  -- What a granted `SET NX EX` tells of the key before, and of every key after.
  pub set_nx_ex-granted :
      (a b : A) (now : Time) (k v : Text) (ttl : ℕ)
      → r.set_nx_ex a now k v ttl ≡ some b
      → (r.get a now k ≡ none)
        × ((t : Time) (j : Text)
            → now ≤ t
            → r.get b t j ≡ (
                if text_eq k j
                then (if ltb t (now + ttl * second) then some v else none)
                else r.get a t j))
  set_nx_ex-granted a b now k v ttl e = elim (Option-cases (r.get a now k)) [
    | inr (w, held) ↦ absurd (ground (arith, r.set_nx_ex-taken a now k v w ttl held))
    | inl free ↦
        let (c, set, after) = r.set_nx_ex-free a now k v ttl free in
        let same : c ≡ b = ground arith in (free, rw same at after)
  ]

  pub session_at-write :
      (s : Keyspace A B C) (b : A) (at : Time) (h : Hold) (ttl : ℕ) (t : Time) (sid : Text)
      → at ≤ t
      → session_at (write_session r s b at h ttl) t sid ≡ (
          if text_eq h.session_id sid
          then (if ltb t (at + ttl * second)
              then put_all (session_fields h) (session_at s at h.session_id)
              else [])
          else session_at s t sid)
  unfolding write_session
  session_at-write s b at h ttl t sid le = rw (← session_key-eq h.session_id sid) (
      r.hgetall-hset_expire s.hashes at t (session_key h.session_id) (session_key sid)
        (session_fields h) ttl le)

  -- Whose seat a session names after the write: its own, if it is the session written, or else the
  -- one that it named before.
  seat_at-write :
      (s : Keyspace A B C) (b : A) (at : Time) (h : Hold) (ttl : ℕ) (t : Time) (sid k : Text)
      → at ≤ t
      → seat_at (write_session r s b at h ttl) t sid ≡ some k
      → ((h.session_id ≡ sid)
          × (k ≡ seat_key h.screening_id h.seat)
          × (ltb t (at + ttl * second) ≡ true)
          × (token_at (write_session r s b at h ttl) t sid ≡ some h.hold_token))
        ⊎ ((text_eq h.session_id sid ≡ false)
            × (seat_at s t sid ≡ some k)
            × (token_at (write_session r s b at h ttl) t sid ≡ token_at s t sid))
  seat_at-write s b at h ttl t sid k le found =
      let fields = put_all (session_fields h) (session_at s at h.session_id) in
      let written = fields-IsWritten h (session_at s at h.session_id) in
      ground (
        arith,
        session_at-write s b at h ttl t sid le,
        seat_key_of_fields-written h fields written,
        written.token,
        no_seat,
      )
    where
      no_seat : seat_key_of_fields [] ≡ none
      no_seat = unfold seat_key_of_fields lookup in refl

  pub no_owner : (uid : Text) → lookup (bytes "user_id") [] ≡ some uid → ⊥
  unfolding lookup
  no_owner uid e = cc

  pub get-write :
      (s : Keyspace A B C) (b : A) (at : Time) (h : Hold) (ttl : ℕ) (t : Time) (k : Text)
      → r.get (write_session r s b at h ttl).strings t k ≡ r.get b t k
  unfolding write_session
  get-write s b at h ttl t k = refl

  -- A hash that has an owner names a seat.
  complete-write :
      {now : Time} {s : Keyspace A B C} (b : A) (h : Hold) (ttl : ℕ) (t : Time) (sid uid : Text)
      → IsSound now s
      → now ≤ t
      → lookup (bytes "user_id") (session_at (write_session r s b now h ttl) t sid) ≡ some uid
      → (k : Text) × (seat_at (write_session r s b now h ttl) t sid ≡ some k)
  complete-write {now} {s} b h ttl t sid uid v le =
      rw (session_at-write s b now h ttl t sid le) (elim (Bool-cases (text_eq h.session_id sid)) [
        | inr other ↦ rw other (v.complete t sid uid le)
        | inl mine ↦ rw mine (elim (Bool-cases (ltb t (now + ttl * second))) [
          | inr gone ↦ rw gone (λ e. absurd (no_owner uid e))
          | inl live ↦ rw live (λ _. (
            seat_key h.screening_id h.seat,
            seat_key_of_fields-written h _ (fields-IsWritten h (session_at s now h.session_id)),
          ))
        ])
      ])

  pub write-IsSound :
      {now : Time} {s : Keyspace A B C} (b : A) (h : Hold) (ttl : ℕ)
      → r.set_nx_ex s.strings now (seat_key h.screening_id h.seat) h.hold_token ttl ≡ some b
      → IsSound now s
      → IsSound now (write_session r s b now h ttl)
  write-IsSound {now} {s} b h ttl granted v =
      let key = seat_key h.screening_id h.seat in
      let (free, after) = set_nx_ex-granted s.strings b now key h.hold_token ttl granted in
      record {
        complete = λ t sid uid le. complete-write b h ttl t sid uid v le;
        owned = λ t sid k le found. elim (seat_at-write s b now h ttl t sid k le found) [
          | inl (mine, own, live, token) ↦
              (h.hold_token, token, ground (arith, get-write s b now h ttl t k, after t k le))
          | inr (other, before, token) ↦
              let (w, at_w, held) = v.owned t sid k le before in
              (
                w,
                token ∙ at_w,
                ground (arith, get-write s b now h ttl t k, after t k le, unclaimed t sid k v le),
              )
        ];
        exclusive = λ t x y k le fx fy. ground (
          arith,
          seat_at-write s b now h ttl t x k le fx,
          seat_at-write s b now h ttl t y k le fy,
          v.exclusive t x y k le,
          unclaimed t x k v le,
          unclaimed t y k v le,
        );
      }
