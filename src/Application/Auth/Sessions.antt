-- ===== src/Application/Auth/Sessions.antt =====
-- What a session of internal/application/auth/service.go is made of, whatever the adapters reply.
use booking_concurrent.Common.{◌≡◌, refl, sym, ap, inl, inr, Bool, [], Text, Result, ok, err}
use booking_concurrent.Common.Proc.{In, Ends, returns, calls, Ends-when, Ends-wrapped, Event}
use booking_concurrent.Domain.User.{
  User, RefreshToken, validate_email, validate_password, validate_display_name,
}
use booking_concurrent.Application.Auth.{
  Op, Reply, Events, Settings, Session, issue_access_token, random_token, token_create, first_row,
  session_of, open_family, with_access, new_session, burn_and_refuse, verified, identified, log_in,
  login, registered, enrol, named, guarded, addressed, register,
}

-- The session's tokens are the ones that the issuer made for its user and that was drawn at random,
-- and the store has taken a row for the user with the hash of the second.
abbrev pub IsMinted : Settings → Events → Session → Type 0
IsMinted g past s =
    (row stored : RefreshToken) × In (token_create row, ok stored) past
    × In (random_token, ok s.refresh_token) past
    × In (issue_access_token s.user, ok s.access_token) past
    × (row.user_id ≡ s.user.id)
    × (row.token_hash ≡ g.hash_token s.refresh_token)

abbrev pub MintEnd : Settings → Events → Result Session → Type 0
MintEnd g past (err e) = Unit {0}
MintEnd g past (ok s) = IsMinted g past s

stored_row :
    (t : RefreshToken) (r : Result RefreshToken) (row : RefreshToken)
    → r ≡ ok row
    → (◌≡◌ {A = Event Op Reply} (token_create t, ok row) (token_create t, r))
stored_row t r row e = sym (ap (λ x. (token_create t, x)) e)

open_family-Ends_minted :
    (g : Settings) (past : Events) (u : User) (access token : Text)
    → In (random_token, ok token) past
    → In (issue_access_token u, ok access) past
    → Ends (MintEnd g) past (open_family g u access token)
unfolding open_family
open_family-Ends_minted g past u access token drawn issued = calls λ t. calls λ id. calls λ family.
    calls {o = token_create (first_row g u token t id family)} λ r.
      Ends-wrapped (MintEnd g) _ _ (λ row. ok (session_of g u access token)) r
        (λ row e. (
          first_row g u token t id family,
          row,
          inl (stored_row _ r row e),
          inr (inr (inr (inr drawn))),
          inr (inr (inr (inr issued))),
          refl,
          refl,
        ))
        (λ e. tt)

new_session-Ends_minted :
    (g : Settings) (past : Events) (u : User) → Ends (MintEnd g) past (new_session g u)
unfolding new_session with_access
new_session-Ends_minted g past u = calls {o = issue_access_token u} (elim [
  | err e ↦ returns tt
  | ok access ↦ calls {o = random_token} (elim [
    | err e ↦ returns tt
    | ok token ↦ open_family-Ends_minted g _ u access token (inl refl) (inr (inl refl))
  ])
])

-- A session that a login opens is minted so.
pub login-Ends_minted :
    (g : Settings) (email password : Text) → Ends (MintEnd g) [] (login g email password)
unfolding login log_in identified burn_and_refuse
login-Ends_minted g email password =
    elim (validate_email g.unicode email) as (λ r. Ends (MintEnd g) [] (log_in g password r)) [
      | err e ↦ calls λ _. returns tt
      | ok address ↦ calls (elim [
        | err e ↦ Ends-when (λ _. calls λ _. returns tt) (λ _. returns tt)
        | ok u ↦ calls λ r. verified_end u r
      ])
    ]
  where
    verified_end :
        {past : Events} (u : User) (r : Result Bool) → Ends (MintEnd g) past (verified g u r)
    verified_end u (err e) = unfold verified in returns tt
    verified_end u (ok b) =
        unfold verified in Ends-when (λ _. returns tt) (λ _. new_session-Ends_minted g _ u)

registered-Ends_minted :
    (g : Settings) (past : Events) (r : Result User) → Ends (MintEnd g) past (registered g r)
unfolding registered
registered-Ends_minted g past (err e) = returns tt
registered-Ends_minted g past (ok u) = new_session-Ends_minted g past u

enrol-Ends_minted :
    (g : Settings) (past : Events) (email password name : Text) (r : Result Text)
    → Ends (MintEnd g) past (enrol g email password name r)
unfolding enrol
enrol-Ends_minted g past email password name (err e) = returns tt
enrol-Ends_minted g past email password name (ok hash) = calls λ r. registered-Ends_minted g _ r

named-Ends_minted :
    (g : Settings) (email password : Text) (r : Result Text)
    → Ends (MintEnd g) [] (named g email password r)
unfolding named
named-Ends_minted g email password (err e) = returns tt
named-Ends_minted g email password (ok name) =
    calls λ r. enrol-Ends_minted g _ email password name r

guarded-Ends_minted :
    (g : Settings) (email password display_name : Text) (r : Result (Unit {0}))
    → Ends (MintEnd g) [] (guarded g email password display_name r)
unfolding guarded
guarded-Ends_minted g email password display_name (err e) = returns tt
guarded-Ends_minted g email password display_name (ok _) =
    Ends-when (λ _. returns tt)
      (λ _. named-Ends_minted g email password (validate_display_name g.unicode display_name))

-- A session that a registration opens is minted so.
pub register-Ends_minted :
    (g : Settings) (email password display_name : Text)
    → Ends (MintEnd g) [] (register g email password display_name)
unfolding register addressed
register-Ends_minted g email password display_name = go (validate_email g.unicode email)
  where
    go : (r : Result Text) → Ends (MintEnd g) [] (addressed g password display_name r)
    go (err e) = returns tt
    go (ok address) =
        guarded-Ends_minted g address password display_name (validate_password password)
