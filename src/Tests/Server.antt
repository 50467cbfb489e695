-- ===== src/Tests/Server.antt =====
-- A server that keeps its keys in lists: the laws that the hold store relies on hold of it.
use booking_concurrent.Common.{
  refl, ap, ◌++◌, ℕ, ◌+◌, ◌*◌, ◌≡◌, Bool, true, false, Option, some, none, List, [], ◌∷◌, Text,
  arith, ltb, if◌then◌else◌, Option-cases, inl, inr, ℤ,
}
use booking_concurrent.Common.Dict.{Dict, lookup, insert, delete, lookup-insert, lookup-delete}
use booking_concurrent.Common.Strings.{after_prefix}
use booking_concurrent.Domain.Booking.{Time}
use booking_concurrent.Redis.Server.{Redis, second, put_all, elem}

abbrev pub Strings : Type 0
Strings = Dict (Text × Time)

abbrev pub Hashes : Type 0
Hashes = Dict (Dict Text × Time)

abbrev pub live {ℓ} : {V : Type ℓ} → Time → Option (V × Time) → Option V
live t none = none
live t (some (v, deadline)) = if ltb t deadline then some v else none

abbrev pub read_string : Strings → Time → Text → Option Text
read_string a t k = live t (lookup k a)

abbrev pub claim_string : Strings → Time → Text → Text → ℕ → Option Strings
claim_string a now k v ttl = elim (read_string a now k) [
  | none ↦ some (insert k (v, now + ttl * second) a)
  | some _ ↦ none
]

abbrev pub all_fields : Option (Dict Text) → Dict Text
all_fields none = []
all_fields (some fs) = fs

abbrev pub read_hash : Hashes → Time → Text → Dict Text
read_hash b t k = all_fields (live t (lookup k b))

abbrev pub members : Option (Dict ℤ) → Dict ℤ
members none = []
members (some ms) = ms

abbrev pub is_some {ℓ} : {V : Type ℓ} → Option V → Bool
is_some none = false
is_some (some _) = true

-- The keys of a list that are there and have the prefix.
unfoldable pub scan_from : Strings → Strings → Time → Text → List Text
scan_from a [] t p = []
scan_from a ((k, _) ∷ rest) t p =
    let others = scan_from a rest t p in
    if is_some (after_prefix p k)
    then (if is_some (read_string a t k) then k ∷ others else others)
    else others

pub scan_from-live :
    (a rest : Strings) (t : Time) (p s : Text)
    → elem s (scan_from a rest t p) ≡ true
    → (v : Text) × (read_string a t s ≡ some v)
unfolding scan_from elem
scan_from-live a [] t p s e = absurd (cc)
scan_from-live a ((k, _) ∷ rest) t p s e = elim (Option-cases (read_string a t s)) [
  | inr (v, there) ↦ (v, there)
  | inl gone ↦ scan_from-live a rest t p s (ground arith)
]

pub scan_from-all :
    (a rest : Strings) (t : Time) (p s suffix : Text) (v : Text) (x : Text × Time)
    → lookup s rest ≡ some x
    → read_string a t s ≡ some v
    → after_prefix p s ≡ some suffix
    → elem s (scan_from a rest t p) ≡ true
unfolding scan_from elem lookup
scan_from-all a [] t p s suffix v x e there fits = cc
scan_from-all a ((k, _) ∷ rest) t p s suffix v x e there fits =
    ground (arith, scan_from-all a rest t p s suffix v x)

pub read_string-some :
    (a : Strings) (t : Time) (k v : Text)
    → read_string a t k ≡ some v
    → (x : Text × Time) × (lookup k a ≡ some x)
read_string-some a t k v e = elim (Option-cases (lookup k a)) [
  | inr (x, there) ↦ (x, there)
  | inl gone ↦ absurd (ground arith)
]

-- A pattern without its last byte: this server knows no other pattern than a literal and a star.
unfoldable pub without_star : Text → Text
without_star [] = []
without_star (c ∷ []) = []
without_star (c ∷ d ∷ s) = c ∷ without_star (d ∷ s)

without_star-append : (s : Text) → without_star (s ++ b'*' ∷ []) ≡ s
unfolding without_star
without_star-append [] = refl
without_star-append (c ∷ []) = refl
without_star-append (c ∷ d ∷ s) = ap (λ r. c ∷ r) (without_star-append (d ∷ s))

pub elem-scan_from :
    (a : Strings) (now : Time) (p s v : Text)
    → read_string a now s ≡ some v
    → (rest : Text) → after_prefix p s ≡ some rest
    → elem s (scan_from a a now (without_star (p ++ b'*' ∷ []))) ≡ true
elem-scan_from a now p s v e rest fits =
    let (x, there) = read_string-some a now s v e in
    rw without_star-append (scan_from-all a a now p s rest v x there e fits)

-- The server.
abbrev pub server : Redis (Dict (Text × Time)) (Dict (Dict Text × Time)) (Dict (Dict ℤ))
server = record {
  get = read_string;
  set_nx_ex = claim_string;
  del = λ a _ k. delete k a;
  scan = λ a t p. scan_from a a t (without_star p);
  hgetall = read_hash;
  hset_expire = λ b now k fs ttl. insert k (put_all fs (read_hash b now k), now + ttl * second) b;
  hdel = λ b _ k. delete k b;
  zset = λ c k. members (lookup k c);
  zadd = λ c k score m. insert k (insert m score (members (lookup k c))) c;
  zrem = λ c k m. insert k (delete m (members (lookup k c))) c;
  get_earlier = λ a t u k v le e. ground arith;
  set_nx_ex-taken = λ a now k v w ttl e. ground arith;
  set_nx_ex-free = λ a now k v ttl e. (
    insert k (v, now + ttl * second) a,
    ground arith,
    λ t j le. ground (arith, lookup-insert k j (v, now + ttl * second) a),
  );
  get-del = λ a now t k j le. ground (arith, lookup-delete k j a);
  scan_all = λ a now p s v plain e rest fits. elem-scan_from a now p s v e rest fits;
  scan_live = λ a now p s e. scan_from-live a a now (without_star p) s e;
  hgetall_earlier = λ b t u k le. ground arith;
  hgetall-hset_expire = λ b now t k j fs ttl le.
      ground (arith, lookup-insert k j (put_all fs (read_hash b now k), now + ttl * second) b);
  hgetall-hdel = λ b now t k j le. ground (arith, lookup-delete k j b);
  zset-zadd =
      λ c k j score m. ground (arith, lookup-insert k j (insert m score (members (lookup k c))) c);
  zset-zrem = λ c k j m. ground (arith, lookup-insert k j (delete m (members (lookup k c))) c);
}
