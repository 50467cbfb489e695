-- ===== src/Http/Accounts.antt =====
-- internal/adapters/http/auth.go and internal/adapters/http/cookie.go: the handlers of the accounts,
-- from the decoded body and the cookie to the response and the cookie that it sets. Where the body
-- does not decode there is none.
pub mod Cookies
use booking_concurrent.Common.{
  ℕ, ◌/◌, Bool, true, false, [], ◌∷◌, Option, none, some, Text, text_eq, bytes, ℤ, pos, negsuc,
  Result, ok, err, Error, if◌then◌else◌,
}
use booking_concurrent.Common.Proc.{Proc, ret, bind}
use booking_concurrent.Domain.Booking.{Time}
use booking_concurrent.Domain.User.{User, Role}
use booking_concurrent.Application.Auth
use booking_concurrent.Application.Auth.{Op, Reply, Session, Settings}
use booking_concurrent.Http.{
  Response, refusal, answer, unauthenticated, write_auth_error, empty, fixed, unauthorized,
  validation_error,
}

pub record RegisterRequest : Type 0 where
  pub email : Text
  pub password : Text
  pub display_name : Text

pub record LoginRequest : Type 0 where
  pub email : Text
  pub password : Text

pub record UserResponse : Type 0 where
  pub id : Text
  pub email : Text
  pub display_name : Text
  pub role : Role

pub record TokenResponse : Type 0 where
  pub access_token : Text
  pub token_type : Text
  pub expires_in : ℕ
  pub user : UserResponse

abbrev pub user_dto : User → UserResponse
user_dto u = record { id = u.id; email = u.email; display_name = u.display_name; role = u.role }

-- Durations are in nanoseconds.
unfoldable pub session_response : Session → TokenResponse
session_response s = record {
  access_token = s.access_token;
  token_type = bytes "Bearer";
  expires_in = s.expires_in / 1_000_000_000;
  user = user_dto s.user;
}

-- `http.Cookie`, of which every one here has `SameSite=Lax` and no domain.
pub record Cookie : Type 0 where
  pub name : Text
  pub value : Text
  pub path : Text
  pub max_age : ℤ
  pub http_only : Bool
  pub secure : Bool

abbrev pub refresh_cookie_name : Text
refresh_cookie_name = bytes "refresh_token"

abbrev pub refresh_cookie_path : Text
refresh_cookie_path = bytes "/auth"

unfoldable pub refresh_cookie : Text → (ttl : Time) → (secure : Bool) → Cookie
refresh_cookie token ttl secure = record {
  name = refresh_cookie_name;
  value = token;
  path = refresh_cookie_path;
  max_age = pos (ttl / 1_000_000_000);
  http_only = true;
  secure = secure;
}

unfoldable pub cleared_cookie : (secure : Bool) → Cookie
cleared_cookie secure = record {
  name = refresh_cookie_name;
  value = [];
  path = refresh_cookie_path;
  max_age = negsuc 0;
  http_only = true;
  secure = secure;
}

-- The value of the request's cookie, if it has one that is not empty.
unfoldable pub refresh_cookie_value : Option Text → Option Text
refresh_cookie_value none = none
refresh_cookie_value (some v) = if text_eq v [] then none else some v

abbrev pub value_or_empty : Option Text → Text
value_or_empty none = []
value_or_empty (some v) = v

-- A response, and the cookie that goes with it.
pub record Reaction (A : Type 0) : Type 0 where
  pub response : Response A
  pub cookie : Option Cookie

abbrev pub without_cookie : {A : Type 0} → Response A → Reaction A
without_cookie r = record { response = r; cookie = none }

abbrev pub bad_body : {A : Type 0} → Reaction A
bad_body =
    without_cookie (refusal 400 validation_error (fixed (bytes "request body must be valid JSON")))

abbrev pub Handling : Type 0 → Type 0
Handling A = Proc Op Reply (Reaction A)

-- The end of the handlers that open a session.
unfoldable pub opened : (status : ℕ) → (ttl : Time) → Bool → Result Session → Reaction TokenResponse
opened status ttl secure (err e) = without_cookie (write_auth_error e)
opened status ttl secure (ok s) = record {
  response = answer status (session_response s);
  cookie = some (refresh_cookie s.refresh_token ttl secure);
}

unfoldable pub register_handler :
    Settings → (ttl : Time) → Bool → Option RegisterRequest → Handling TokenResponse
register_handler g ttl secure none = ret bad_body
register_handler g ttl secure (some req) =
    bind (Auth.register g req.email req.password req.display_name)
      (λ r. ret (opened 201 ttl secure r))

unfoldable pub login_handler :
    Settings → (ttl : Time) → Bool → Option LoginRequest → Handling TokenResponse
login_handler g ttl secure none = ret bad_body
login_handler g ttl secure (some req) =
    bind (Auth.login g req.email req.password) (λ r. ret (opened 200 ttl secure r))

-- The end of `RefreshHandler`: a failure clears the cookie.
unfoldable pub renewed : (ttl : Time) → Bool → Result Session → Reaction TokenResponse
renewed ttl secure (err e) = record {
  response = write_auth_error e;
  cookie = some (cleared_cookie secure);
}
renewed ttl secure (ok s) = record {
  response = answer 200 (session_response s);
  cookie = some (refresh_cookie s.refresh_token ttl secure);
}

unfoldable pub refresh_handler :
    Settings → (ttl : Time) → Bool → (cookie : Option Text) → Handling TokenResponse
refresh_handler g ttl secure cookie = elim (refresh_cookie_value cookie) [
  | none ↦ ret (record {
    response = refusal 401 unauthorized (fixed (bytes "invalid or expired session"));
    cookie = some (cleared_cookie secure);
  })
  | some token ↦ bind (Auth.refresh g token) (λ r. ret (renewed ttl secure r))
]

unfoldable pub logged_out : Bool → Result (Unit {0}) → Reaction (Unit {0})
logged_out secure (err e) = without_cookie (write_auth_error e)
logged_out secure (ok _) = record {
  response = record { status = 204; body = empty };
  cookie = some (cleared_cookie secure);
}

unfoldable pub logout_handler : Settings → Bool → (cookie : Option Text) → Handling (Unit {0})
logout_handler g secure cookie =
    bind (Auth.logout g (value_or_empty (refresh_cookie_value cookie)))
      (λ r. ret (logged_out secure r))

unfoldable pub described : Result User → Reaction UserResponse
described (err e) = without_cookie (write_auth_error e)
described (ok u) = without_cookie (answer 200 (user_dto u))

unfoldable pub me_handler : (user : Option Text) → Handling UserResponse
me_handler none = ret (without_cookie unauthenticated)
me_handler (some user_id) = bind (Auth.me user_id) (λ r. ret (described r))
