-- ===== src/Http/Accounts/Cookies.antt =====
-- Which cookie goes with which response of internal/adapters/http/auth.go.
use booking_concurrent.Common.{
  [], ℕ, ◌≡◌, ◌≢◌, Option-cases, refl, inl, inr, Bool, Option, none, some, Text, arith, Result, ok,
  err, Error,
}
use booking_concurrent.Common.Proc.{Proc, ret, bind, Ends, returns, calls}
use booking_concurrent.Domain.Booking.{Time}
use booking_concurrent.Application.Auth.{Op, Reply, Events, Session, Settings}
use booking_concurrent.Application.Auth.Outcomes.{RefreshEnd, refresh-Ends}
use booking_concurrent.Application.Auth.Sessions.{
  IsMinted, MintEnd, login-Ends_minted, register-Ends_minted,
}
use booking_concurrent.Http.{answer, write_auth_error}
use booking_concurrent.Http.Accounts.{
  Reaction, Cookie, TokenResponse, LoginRequest, RegisterRequest, refresh_cookie, cleared_cookie,
  session_response, refresh_cookie_value, opened, renewed, login_handler, register_handler,
  refresh_handler,
}

Ends-map :
    {A B : Type 0} {Post : Events → A → Type 0} (After : Events → B → Type 0) (f : A → B)
    {past : Events} {m : Proc Op Reply A}
    → ((past' : Events) (a : A) → Post past' a → After past' (f a))
    → Ends Post past m
    → Ends After past (bind m (λ a. ret (f a)))
Ends-map After f h (returns p) = returns (h _ _ p)
Ends-map After f h (calls k) = calls λ r. Ends-map After f h (k r)

auth_error_status : (e : Error) → (write_auth_error {A = TokenResponse} e).status ≢ 200
unfolding write_auth_error
auth_error_status e h = ground arith

auth_error_created : (e : Error) → (write_auth_error {A = TokenResponse} e).status ≢ 201
unfolding write_auth_error
auth_error_created e h = ground arith

-- A response of the given status has a session's access token in its body and the refresh token of
-- the same session in the cookie, a session that came about as `Opened` says; every other response
-- has the cookie `otherwise`.
pub data Settled (Opened : Events → Session → Type 0) (status : ℕ) (ttl : Time) (secure : Bool)
    (otherwise : Option Cookie) (past : Events) (r : Reaction TokenResponse) : Type 0 where
  session :
      (s : Session)
      → Opened past s
      → r.response ≡ answer status (session_response s)
      → r.cookie ≡ some (refresh_cookie s.refresh_token ttl secure)
      → Settled Opened status ttl secure otherwise past r
  refusal :
      r.response.status ≢ status
      → r.cookie ≡ otherwise
      → Settled Opened status ttl secure otherwise past r

-- The session of a refresh with the request's cookie: its refresh token was drawn at random in this
-- request, and the store was asked to put its hash in the place of the presented token's.
abbrev pub Renewal : Settings → Option Text → Events → Session → Type 0
Renewal g cookie past s =
    (presented : Text) × (refresh_cookie_value cookie ≡ some presented)
    × RefreshEnd g presented past (ok s)

-- Whatever the store and the issuer reply, a refresh that succeeds answers with the session of a
-- rotation of the token in the request's cookie, and sets the cookie to the refresh token of that
-- session, which was drawn in this request and whose hash the rotation was asked to store. Every
-- other refresh clears the cookie.
pub refresh_handler-Ends :
    (g : Settings) (ttl : Time) (secure : Bool) (cookie : Option Text)
    → Ends
        (Settled (Renewal g cookie) 200 ttl secure (some (cleared_cookie secure)))
        []
        (refresh_handler g ttl secure cookie)
unfolding refresh_handler
refresh_handler-Ends g ttl secure cookie = elim (Option-cases (refresh_cookie_value cookie)) [
  | inl missing ↦ rw (missing, refresh_handler) (returns (refusal (λ e. ground arith) refl))
  | inr (token, found) ↦
      rw (found, refresh_handler)
        (Ends-map (Settled (Renewal g cookie) 200 ttl secure (some (cleared_cookie secure)))
          (renewed ttl secure) (renewed-Settled token found) (refresh-Ends g token))
]
  where
    renewed-Settled :
        (token : Text)
        → refresh_cookie_value cookie ≡ some token
        → (past : Events) (r : Result Session) → RefreshEnd g token past r
        → Settled
            (Renewal g cookie)
            200
            ttl
            secure
            (some (cleared_cookie secure))
            past
            (renewed ttl secure r)
    renewed-Settled token found past (err e) end =
        unfold renewed in refusal (auth_error_status e) refl
    renewed-Settled token found past (ok s) end =
        unfold renewed in session s (token, found, end) refl refl

opened-Settled :
    (g : Settings) (status : ℕ) (ttl : Time) (secure : Bool) (past : Events) (r : Result Session)
    → ((e : Error) → (write_auth_error {A = TokenResponse} e).status ≢ status)
    → MintEnd g past r
    → Settled (IsMinted g) status ttl secure none past (opened status ttl secure r)
unfolding opened
opened-Settled g status ttl secure past (err e) other end = refusal (other e) refl
opened-Settled g status ttl secure past (ok s) other end = session s end refl refl

-- A login and a registration set the cookie to the refresh token of the session that they answer
-- with, and leave it alone when they refuse.
pub login_handler-Ends :
    (g : Settings) (ttl : Time) (secure : Bool) (body : Option LoginRequest)
    → Ends (Settled (IsMinted g) 200 ttl secure none) [] (login_handler g ttl secure body)
unfolding login_handler
login_handler-Ends g ttl secure none = returns (refusal (λ e. ground arith) refl)
login_handler-Ends g ttl secure (some req) =
    Ends-map (Settled (IsMinted g) 200 ttl secure none) (opened 200 ttl secure)
      (λ past r. opened-Settled g 200 ttl secure past r auth_error_status)
      (login-Ends_minted g req.email req.password)

pub register_handler-Ends :
    (g : Settings) (ttl : Time) (secure : Bool) (body : Option RegisterRequest)
    → Ends (Settled (IsMinted g) 201 ttl secure none) [] (register_handler g ttl secure body)
unfolding register_handler
register_handler-Ends g ttl secure none = returns (refusal (λ e. ground arith) refl)
register_handler-Ends g ttl secure (some req) =
    Ends-map (Settled (IsMinted g) 201 ttl secure none) (opened 201 ttl secure)
      (λ past r. opened-Settled g 201 ttl secure past r auth_error_created)
      (register-Ends_minted g req.email req.password req.display_name)
