-- ===== src/Application/Auth/Outcomes.antt =====
-- How a login and a refresh end, whatever the adapters reply.
use booking_concurrent.Common.{
  ℕ, ◌+◌, ◌≡◌, ◌⊎◌, refl, sym, ap, inl, inr, Bool, true, false, [], ◌∷◌, arith, Text, Result, ok,
  err, Error, errors_is, sentinel, user_error, invalid_credentials, user_not_found,
}
use booking_concurrent.Common.Proc.{
  In, Ends, returns, calls, Ends-when, Ends-wrapped, Event, or_return, map_error,
}
use booking_concurrent.Domain.User.{User, RefreshToken, validate_email}
use booking_concurrent.Application.Auth.{
  Op, Reply, Events, Settings, Session, user_by_email, verify_password, issue_access_token,
  random_token, token_rotate, user_by_id, token_create, first_row, session_of, open_family,
  with_access, new_session, burn_and_refuse, verified, identified, log_in, login, successor,
  renewed, rotated, exchange, refresh,
}

-- How many password verifications the request has run.
abbrev pub verify_count : Events → ℕ
verify_count [] = 0
verify_count ((verify_password hash password, r) ∷ past) = verify_count past + 1
verify_count (_ ∷ past) = verify_count past

-- The one verification that was run accepted this password for this user.
abbrev pub HasVerified : Text → Events → User → Type 0
HasVerified password past u =
    In (verify_password u.password_hash password, ok true) past × (verify_count past ≡ 1)

-- A session is for a user whose password was verified. Any other end is the one answer for bad
-- credentials, at the price of one verification, or an error of the user store other than an
-- unknown user, or a failure to open the session of a verified user.
abbrev pub LoginEnd : Text → Events → Result Session → Type 0
LoginEnd password past (ok s) = HasVerified password past s.user
LoginEnd password past (err e) =
    ((e ≡ sentinel (user_error invalid_credentials)) × (verify_count past ≡ 1))
    ⊎ ((email : Text) × In (user_by_email email, err e) past
        × (errors_is e (user_error user_not_found) ≡ false))
    ⊎ ((u : User) × HasVerified password past u)

open_family-Ends :
    (g : Settings) (password : Text) (past : Events) (u : User) (access token : Text)
    → HasVerified password past u
    → Ends (LoginEnd password) past (open_family g u access token)
unfolding open_family
open_family-Ends g password past u access token (seen, once) = calls λ t. calls λ id.
    calls λ family. calls {o = token_create (first_row g u token t id family)} λ r.
      Ends-wrapped (LoginEnd password) _ _ (λ row. ok (session_of g u access token)) r
        (λ row e. (inr (inr (inr (inr seen))), once))
        (λ e. inr (inr (u, (inr (inr (inr (inr seen))), once))))

drawn-Ends :
    (g : Settings) (password : Text) (past : Events) (u : User) (access : Text) (w : Error → Error)
    (r : Result Text)
    → HasVerified password past u
    → Ends
        (LoginEnd password)
        ((random_token, r) ∷ past)
        (or_return (open_family g u access) (map_error w r))
drawn-Ends g password past u access w (err e) (seen, once) =
    returns {a = err _} (inr (inr (u, (inr seen, once))))
drawn-Ends g password past u access w (ok token) (seen, once) =
    open_family-Ends g password _ u access token (inr seen, once)

with_access-Ends :
    (g : Settings) (password : Text) (past : Events) (u : User) (r : Result Text)
    → HasVerified password past u
    → Ends (LoginEnd password) past (with_access g u r)
unfolding with_access
with_access-Ends g password past u (err e) v = returns (inr (inr (u, v)))
with_access-Ends g password past u (ok access) v =
    calls λ r. drawn-Ends g password past u access _ r v

new_session-Ends :
    (g : Settings) (password : Text) (past : Events) (u : User)
    → HasVerified password past u
    → Ends (LoginEnd password) past (new_session g u)
unfolding new_session
new_session-Ends g password past u (seen, once) =
    calls λ r. with_access-Ends g password _ u r (inr seen, once)

burn-Ends :
    (g : Settings) (password : Text) (past : Events)
    → verify_count past ≡ 0
    → Ends (LoginEnd password) past (burn_and_refuse g password)
unfolding burn_and_refuse
burn-Ends g password past none_yet = calls λ r. returns (inl (refl, omega arith))

verified-Ends :
    (g : Settings) (password : Text) (past : Events) (u : User) (r : Result Bool)
    → verify_count past ≡ 0
    → Ends
        (LoginEnd password)
        ((verify_password u.password_hash password, r) ∷ past)
        (verified g u r)
unfolding verified
verified-Ends g password past u (err e) none_yet = returns (inl (refl, omega arith))
verified-Ends g password past u (ok false) none_yet =
    Ends-when (λ _. returns (inl (refl, omega arith))) (λ h. absurd (ground arith))
verified-Ends g password past u (ok true) none_yet =
    Ends-when (λ h. absurd (ground arith))
      (λ _. new_session-Ends g password _ u (inl refl, omega arith))

identified-Ends :
    (g : Settings) (email password : Text) (r : Result User)
    → Ends (LoginEnd password) ((user_by_email email, r) ∷ []) (identified g password r)
unfolding identified
identified-Ends g email password (err e) =
    Ends-when (λ _. burn-Ends g password _ refl)
      (λ other. returns {a = err e} (inr (inl (email, inl refl, other))))
identified-Ends g email password (ok u) = calls λ r. verified-Ends g password _ u r refl

-- Every login ends so, whatever the adapters reply: a malformed address, an unknown one and a wrong
-- password all get the one answer after one verification, and a session is only for a user whose
-- password was verified.
pub login-Ends :
    (g : Settings) (email password : Text) → Ends (LoginEnd password) [] (login g email password)
unfolding login log_in
login-Ends g email password = go (validate_email g.unicode email)
  where
    go : (r : Result Text) → Ends (LoginEnd password) [] (log_in g password r)
    go (err e) = burn-Ends g password [] refl
    go (ok address) = calls λ r. identified-Ends g address password r

-- A session from a refresh is for the user of the row that `Rotate` gave out, with the token that
-- was just drawn, whose hash is the one that was stored.
abbrev pub RefreshEnd : Settings → Text → Events → Result Session → Type 0
RefreshEnd g presented past (err e) = Unit {0}
RefreshEnd g presented past (ok s) =
    (next row : RefreshToken) × In (token_rotate (g.hash_token presented) next, ok row) past
    × In (user_by_id row.user_id, ok s.user) past
    × In (random_token, ok s.refresh_token) past
    × In (issue_access_token s.user, ok s.access_token) past
    × (next.token_hash ≡ g.hash_token s.refresh_token)

issued :
    (u : User) (a : Result Text) (access : Text)
    → a ≡ ok access
    → (◌≡◌ {A = Event Op Reply} (issue_access_token u, ok access) (issue_access_token u, a))
issued u a access e = sym (ap (λ r. (issue_access_token u, r)) e)

renewed-Ends :
    (g : Settings) (presented token : Text) (past : Events) (next row : RefreshToken)
    (r : Result User)
    → In (token_rotate (g.hash_token presented) next, ok row) past
    → In (random_token, ok token) past
    → next.token_hash ≡ g.hash_token token
    → Ends (RefreshEnd g presented) ((user_by_id row.user_id, r) ∷ past) (renewed g token r)
unfolding renewed
renewed-Ends g presented token past next row (err e) i j same = returns tt
renewed-Ends g presented token past next row (ok u) i j same = calls {o = issue_access_token u} λ a.
    Ends-wrapped (RefreshEnd g presented) _ _ (λ access. ok (session_of g u access token)) a
      (λ access e.
        (next, row, inr (inr i), inr (inl refl), inr (inr j), inl (issued u a access e), same))
      (λ e. tt)

rotated-Ends :
    (g : Settings) (presented token : Text) (past : Events) (next : RefreshToken)
    (r : Result RefreshToken)
    → In (random_token, ok token) past
    → next.token_hash ≡ g.hash_token token
    → Ends
        (RefreshEnd g presented)
        ((token_rotate (g.hash_token presented) next, r) ∷ past)
        (rotated g token r)
unfolding rotated
rotated-Ends g presented token past next (err e) j same = returns tt
rotated-Ends g presented token past next (ok row) j same =
    calls λ r. renewed-Ends g presented token _ next row r (inl refl) (inr j) same

-- Every refresh ends so, whatever the adapters reply: a session it opens is for the user of the row
-- that `Rotate` gave out, and carries the token whose hash `Rotate` was asked to store.
pub refresh-Ends :
    (g : Settings) (presented : Text) → Ends (RefreshEnd g presented) [] (refresh g presented)
unfolding refresh exchange
refresh-Ends g presented =
    Ends-when (λ _. returns tt)
      λ _. calls {o = random_token} (elim [
        | err e ↦ returns tt
        | ok token ↦ calls λ id. calls λ t. calls λ r.
            rotated-Ends g presented token _ (successor g token id t) r (inr (inr (inl refl))) refl
      ])
