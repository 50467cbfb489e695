-- ===== src/Redis/Server.antt =====
-- The commands of a Redis server that the scripts of internal/adapters/redis/holdstore.go call.
-- The server is not code of the repository: its commands are the fields of a record, and the laws
-- are what its documentation says of them. Strings, hashes and sorted sets are three states, since
-- the store's keys of the three kinds have different names (HoldStore.Keys).
use booking_concurrent.Common.{
  ℕ, ◌+◌, ◌*◌, ◌≤◌, ◌≡◌, ◌⊎◌, Bool, true, false, List, [], ◌∷◌, Option, none, some, if◌then◌else◌,
  Text, text_eq, ltb, ℤ, ◌++◌, ◌==◌, ◌||◌, ◌&&◌, not,
}
use booking_concurrent.Common.Dict.{Dict, insert, delete}
use booking_concurrent.Common.Strings.{after_prefix}
use booking_concurrent.Domain.Booking.{Time}

-- The nanoseconds of a second.
abbrev pub second : ℕ
second = 1_000_000_000

-- The fields of a hash once `HSET` has written some.
unfoldable pub put_all : Dict Text → Dict Text → Dict Text
put_all [] m = m
put_all ((k, v) ∷ fs) m = put_all fs (insert k v m)

-- The bytes that mean something in the pattern of `SCAN MATCH`: star, question mark, bracket, escape.
abbrev pub is_special : ℕ → Bool
is_special c = c == b'*' || c == b'?' || c == b'[' || c == 92

-- A pattern's part in which every byte stands for itself.
unfoldable pub is_literal : Text → Bool
is_literal [] = true
is_literal (c ∷ s) = not (is_special c) && is_literal s

unfoldable pub elem : Text → List Text → Bool
elem k [] = false
elem k (j ∷ js) = if text_eq j k then true else elem k js

-- What is there at an instant `t`, by a state as the last command left it at `now`.
pub record Redis (A B C : Type 0) : Type 0 where
  pub get : A → Time → Text → Option Text
  pub set_nx_ex : A → Time → Text → Text → ℕ → Option A
  pub del : A → Time → Text → A
  -- The keys that `SCAN` with `MATCH` yields for a pattern, over its whole cursor.
  pub scan : A → Time → Text → List Text
  pub hgetall : B → Time → Text → Dict Text
  -- `HSET`, then `EXPIRE`
  pub hset_expire : B → Time → Text → Dict Text → ℕ → B
  pub hdel : B → Time → Text → B
  pub zset : C → Text → Dict ℤ
  pub zadd : C → Text → ℤ → Text → C
  pub zrem : C → Text → Text → C
  pub get_earlier :
      (a : A) (t u : Time) (k v : Text) → t ≤ u → get a u k ≡ some v → get a t k ≡ some v
  pub set_nx_ex-taken :
      (a : A) (now : Time) (k v w : Text) (ttl : ℕ)
      → get a now k ≡ some w
      → set_nx_ex a now k v ttl ≡ none
  pub set_nx_ex-free :
      (a : A) (now : Time) (k v : Text) (ttl : ℕ)
      → get a now k ≡ none
      → (b : A) × (set_nx_ex a now k v ttl ≡ some b)
        × ((t : Time) (j : Text)
            → now ≤ t
            → get b t j ≡ (
                if text_eq k j
                then (if ltb t (now + ttl * second) then some v else none)
                else get a t j))
  pub get-del :
      (a : A) (now t : Time) (k j : Text)
      → now ≤ t
      → get (del a now k) t j ≡ (if text_eq k j then none else get a t j)
  -- A star at the end of a literal matches whatever comes after the literal.
  pub scan_all :
      (a : A) (now : Time) (p s v : Text)
      → is_literal p ≡ true
      → get a now s ≡ some v
      → (rest : Text) → after_prefix p s ≡ some rest
      → elem s (scan a now (p ++ b'*' ∷ [])) ≡ true
  pub scan_live :
      (a : A) (now : Time) (p s : Text)
      → elem s (scan a now p) ≡ true
      → (v : Text) × (get a now s ≡ some v)
  pub hgetall_earlier :
      (b : B) (t u : Time) (k : Text)
      → t ≤ u
      → (hgetall b u k ≡ []) ⊎ (hgetall b t k ≡ hgetall b u k)
  pub hgetall-hset_expire :
      (b : B) (now t : Time) (k j : Text) (fs : Dict Text) (ttl : ℕ)
      → now ≤ t
      → hgetall (hset_expire b now k fs ttl) t j ≡ (
          if text_eq k j
          then (if ltb t (now + ttl * second) then put_all fs (hgetall b now k) else [])
          else hgetall b t j)
  pub hgetall-hdel :
      (b : B) (now t : Time) (k j : Text)
      → now ≤ t
      → hgetall (hdel b now k) t j ≡ (if text_eq k j then [] else hgetall b t j)
  pub zset-zadd :
      (c : C) (k j : Text) (score : ℤ) (m : Text)
      → zset (zadd c k score m) j ≡ (if text_eq k j then insert m score (zset c k) else zset c j)
  pub zset-zrem :
      (c : C) (k j m : Text)
      → zset (zrem c k m) j ≡ (if text_eq k j then delete m (zset c k) else zset c j)
