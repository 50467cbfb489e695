-- ===== src/Middleware/Bearer.antt =====
-- What internal/platform/middleware/auth.go takes for a credential, and whom it lets in.
use booking_concurrent.Common.{
  ℕ, ◌≡◌, ◌≢◌, ◌⊎◌, refl, ap, true, false, [], ◌∷◌, ◌++◌, map, some, Text, text_eq, text_eq_refl,
  arith, ltb, length, length-append, Result, ok, Option-cases, Result-cases, inl, inr,
}
use booking_concurrent.Domain.Booking.{Unicode, trim_space, lower_byte}
use booking_concurrent.Middleware.{take, drop, bearer_prefix, bearer_token, auth}

take-append : (s t : Text) → take (length s) (s ++ t) ≡ s
unfolding take
take-append [] t = refl
take-append (c ∷ s) t = ap (λ r. c ∷ r) (take-append s t)

drop-append : (s t : Text) → drop (length s) (s ++ t) ≡ t
unfolding drop
drop-append [] t = refl
drop-append (c ∷ s) t = drop-append s t

length-map : (f : ℕ → ℕ) (s : Text) → length (map f s) ≡ length s
length-map f [] = refl
length-map f (c ∷ s) = omega (arith, length-map f s)

-- The credential is what follows the scheme, in whatever case the scheme is written.
pub bearer_token-append :
    (un : Unicode) (scheme token : Text)
    → map lower_byte scheme ≡ bearer_prefix
    → trim_space un token ≡ token
    → token ≢ []
    → bearer_token un (scheme ++ token) ≡ some token
unfolding bearer_token
bearer_token-append un scheme token same trimmed some_text =
    let seven : length scheme ≡ 7 = ground (arith, length-map lower_byte scheme, ap length same) in
    let took : take 7 (scheme ++ token) ≡ scheme = rw seven at (take-append scheme token) in
    let left : drop 7 (scheme ++ token) ≡ token = rw seven at (drop-append scheme token) in
    let enough : ltb (length (scheme ++ token)) 7 ≡ false =
      ground (arith, seven, length-append scheme token) in
    let fits : text_eq (map lower_byte scheme) bearer_prefix ≡ true =
      rw same (text_eq_refl bearer_prefix) in
    rw (enough, took, left, fits, trimmed) (ground arith)

-- Behind the middleware a handler runs only for the user whom the issuer has found in the request's
-- own credential; every other request has the one refusal.
pub auth-lets_in :
    {R : Type 0} (un : Unicode) (validate : Text → Result Text) (unauthorized : R)
    (handler : Text → R) (header : Text)
    → (auth un validate unauthorized handler header ≡ unauthorized)
      ⊎ ((token user_id : Text) × (bearer_token un header ≡ some token)
          × (validate token ≡ ok user_id)
          × (auth un validate unauthorized handler header ≡ handler user_id))
unfolding auth
auth-lets_in un validate unauthorized handler header =
    elim (Option-cases (bearer_token un header)) [
      | inl missing ↦ inl (rw (missing, auth) refl)
      | inr (token, found) ↦ elim (Result-cases (validate token)) [
        | inl (e, bad) ↦ inl (rw (found, auth) (rw bad refl))
        | inr (uid, good) ↦ inr (token, uid, found, good, rw (found, auth) (rw good refl))
      ]
    ]
