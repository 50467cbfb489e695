-- ===== src/Memory/RefreshTokenStore/Rotations.antt =====
-- Many calls in a row, in the order in which the mutex admits them.
use booking_concurrent.Common.{
  ℕ, ◌+◌, ◌≤◌, ◌≡◌, ◌≢◌, refl, inl, inr, Bool, true, false, ◌&&◌, Option, none, some, List, [], ◌∷◌,
  arith, Text, text_eq, Result, ok, err, if◌then◌else◌, Option-cases, All,
}
use booking_concurrent.Common.Dict.{lookup, lookup-insert}
use booking_concurrent.Domain.Booking.{Time}
use booking_concurrent.Domain.User.{RefreshToken, reuse_is_theft}
use booking_concurrent.Memory.RefreshTokenStore.{
  RefreshTokenStore, create, revoke_row, revoke_family, rotate, rotate_cases,
}
use booking_concurrent.Memory.RefreshTokenStore.Families.{
  IsClosed, lookup-revoke_family, lookup-replace, rotate-IsClosed, revoke_family_keeps-IsClosed,
}

pub data Call : Type 0 where
  creates : RefreshToken → Call
  rotates : Time → (token_hash : Text) → (next : RefreshToken) → Call
  revokes : Time → (family_id : Text) → Call

unfoldable pub apply : RefreshTokenStore → Call → RefreshTokenStore
apply s (creates t) = (create s t).1
apply s (rotates now h next) = (rotate s now h next).1
apply s (revokes now f) = revoke_family s now f

unfoldable pub run : RefreshTokenStore → List Call → RefreshTokenStore
run s [] = s
run s (c ∷ cs) = run (apply s c) cs

abbrev is_ok {ℓ} : {A : Type ℓ} → Result A → Bool
is_ok (ok a) = true
is_ok (err e) = false

-- Whether this call is a rotation of the token with hash `h` that succeeds.
unfoldable pub mints : Text → RefreshTokenStore → Call → Bool
mints h s (creates t) = false
mints h s (rotates now k next) = text_eq k h && is_ok (rotate s now k next).0
mints h s (revokes now f) = false

unfoldable pub mint_count : Text → RefreshTokenStore → List Call → ℕ
mint_count h s [] = 0
mint_count h s (c ∷ cs) = (if mints h s c then 1 else 0) + mint_count h (apply s c) cs

-- Fresh identities: no call stores a new token under the hash `h`, and a successor has an id.
abbrev pub IsFresh : Text → Call → Type 0
IsFresh h (creates t) = text_eq t.token_hash h ≡ false
IsFresh h (rotates now k next) = (text_eq next.token_hash h ≡ false) × (text_eq next.id [] ≡ false)
IsFresh h (revokes now f) = Unit {0}

abbrev is_spent : Option RefreshToken → Bool
is_spent none = false
is_spent (some t) = reuse_is_theft t

revoke_spends :
    (h : Text) (s : RefreshTokenStore) (now : Time) (f : Text)
    → is_spent (lookup h s) ≡ true
    → is_spent (lookup h (revoke_family s now f)) ≡ true
unfolding revoke_row
revoke_spends h s now f v = elim (Option-cases (lookup h s)) [
  | inl n ↦ absurd (ground arith)
  | inr (p, n) ↦ ground (arith, lookup-revoke_family s now f h)
]

-- A spent token stays spent and is never rotated; a token that is rotated is spent.
apply_effect :
    (h : Text) (s : RefreshTokenStore) (c : Call)
    → IsFresh h c
    → (is_spent (lookup h s) ≡ true
        → (is_spent (lookup h (apply s c)) ≡ true) × (mints h s c ≡ false))
      × (mints h s c ≡ true → is_spent (lookup h (apply s c)) ≡ true)
unfolding apply mints create
apply_effect h s (creates t) fresh = ground (arith, lookup-insert t.token_hash h t s)
apply_effect h s (revokes now f) fresh = ((λ v. (revoke_spends h s now f v, refl)), λ e. cc)
apply_effect h s (rotates now k next) fresh =
    rotate_cases
      (λ r.
        (is_spent (lookup h s) ≡ true
          → (is_spent (lookup h r.1) ≡ true) × ((text_eq k h && is_ok r.0) ≡ false))
        × ((text_eq k h && is_ok r.0) ≡ true → is_spent (lookup h r.1) ≡ true))
      s now k next (λ e. ground arith)
      (λ old e t. ((λ v. (revoke_spends h s now old.family_id v, ground arith)), λ x. ground arith))
      (λ old e t x. ground arith)
      (λ old e t x. ground (arith, lookup-replace s k old next h, fresh.0, fresh.1))

spent_never_mints :
    (h : Text) (s : RefreshTokenStore) (cs : List Call)
    → All (IsFresh h) cs
    → is_spent (lookup h s) ≡ true
    → mint_count h s cs ≡ 0
unfolding mint_count
spent_never_mints h s [] fresh v = refl
spent_never_mints h s (c ∷ cs) fresh v =
    ground (arith, apply_effect h s c fresh.0, spent_never_mints h (apply s c) cs fresh.1)

-- A refresh token is exchanged at most once: in every sequence of creations, rotations and
-- revocations with fresh hashes and ids, at most one rotation of it succeeds.
pub mint_count-le-one :
    (h : Text) (s : RefreshTokenStore) (cs : List Call) → All (IsFresh h) cs → mint_count h s cs ≤ 1
unfolding mint_count
mint_count-le-one h s [] fresh = omega arith
mint_count-le-one h s (c ∷ cs) fresh = ground (
  arith,
  apply_effect h s c fresh.0,
  spent_never_mints h (apply s c) cs fresh.1,
  mint_count-le-one h (apply s c) cs fresh.1,
)

-- Nothing opens a session under the family's name from outside.
abbrev pub IsForeign : Text → Call → Type 0
IsForeign f (creates t) = text_eq t.family_id f ≡ false
IsForeign f _ = Unit {0}

apply-IsClosed :
    (f : Text) (s : RefreshTokenStore) (c : Call)
    → IsForeign f c
    → IsClosed f s
    → IsClosed f (apply s c)
unfolding apply create
apply-IsClosed f s (creates t) foreign v a p e same =
    ground (arith, lookup-insert t.token_hash a t s, v a p, foreign)
apply-IsClosed f s (rotates now k next) foreign v a p e same =
    rotate-IsClosed s now k next f v a p e same
apply-IsClosed f s (revokes now g) foreign v a p e same =
    revoke_family_keeps-IsClosed s now g f v a p e same

run-IsClosed :
    (f : Text) (s : RefreshTokenStore) (cs : List Call)
    → All (IsForeign f) cs
    → IsClosed f s
    → IsClosed f (run s cs)
unfolding run
run-IsClosed f s [] foreign v = v
run-IsClosed f s (c ∷ cs) foreign v =
    run-IsClosed f (apply s c) cs foreign.1 (apply-IsClosed f s c foreign.0 v)

-- A family that theft or logout has closed never opens again: whatever is called later, short of
-- creating a token in it, no rotation gives out a token of that family.
pub closed_for_good :
    (f : Text) (s : RefreshTokenStore) (cs : List Call) (now : Time) (h : Text)
    (next row : RefreshToken)
    → All (IsForeign f) cs
    → IsClosed f s
    → (rotate (run s cs) now h next).0 ≡ ok row
    → row.family_id ≢ f
closed_for_good f s cs now h next row foreign v =
    rotate_cases (λ r. r.0 ≡ ok row → row.family_id ≢ f) (run s cs) now h next (λ _ e. absurd cc)
      (λ _ _ _ e. absurd cc) (λ _ _ _ _ e. absurd cc)
      (λ old found live _ e. λ same. ground (arith, run-IsClosed f s cs foreign v h old))
