-- ===== src/Application/Auth.antt =====
-- internal/application/auth/service.go.
pub mod Outcomes
pub mod Sessions
pub mod Accounts
use booking_concurrent.Common.{
  ◌+◌, Bool, true, false, not, List, [], Option, none, some, Text, text_eq, bytes, Result, ok, err,
  Error, sentinel, user_error, wrap, errors_is, invalid_credentials, user_not_found,
  refresh_token_unknown,
}
use booking_concurrent.Common.Proc.{
  Proc, ret, call, bind, request, when◌take◌otherwise◌, ◌>>=◌, ◌>>◌, or_return, reject_if, wrapping,
  lift, Event,
}
use booking_concurrent.Domain.Booking.{Time, Unicode}
use booking_concurrent.Domain.User.{
  User, Role, RefreshToken, invalid, validate_email, validate_password, validate_display_name,
}

-- The two ports, and what the service has of the hasher, the issuer, the random source, the clock
-- and the UUIDs.
pub data Op : Type 0 where
  user_create : User → Op
  user_by_email : (email : Text) → Op
  user_by_id : (id : Text) → Op
  token_create : RefreshToken → Op
  token_by_hash : (token_hash : Text) → Op
  token_rotate : (token_hash : Text) → (next : RefreshToken) → Op
  token_revoke_family : (family_id : Text) → Op
  hash_password : (password : Text) → Op
  verify_password : (hash password : Text) → Op
  issue_access_token : User → Op
  random_token : Op
  now : Op
  new_uuid : Op

abbrev pub Reply : Op → Type 0
Reply (user_create u) = Result User
Reply (user_by_email email) = Result User
Reply (user_by_id id) = Result User
Reply (token_create t) = Result RefreshToken
Reply (token_by_hash token_hash) = Result RefreshToken
Reply (token_rotate token_hash next) = Result RefreshToken
Reply (token_revoke_family family_id) = Result (Unit {0})
Reply (hash_password password) = Result Text
Reply (verify_password hash password) = Result Bool
Reply (issue_access_token u) = Result Text
Reply random_token = Result Text
Reply now = Time
Reply new_uuid = Text

abbrev pub Events : Type 0
Events = List (Event Op Reply)

abbrev pub Action : Type 0 → Type 0
Action A = Proc Op Reply (Result A)

abbrev pub ask_time : Action Time
ask_time = call now (λ t. ret (Result.ok t))

abbrev pub ask_uuid : Action Text
ask_uuid = call new_uuid (λ u. ret (Result.ok u))

-- The fields of `Service` that are values, the Unicode tables, and SHA-256 in hexadecimal.
pub record Settings : Type 0 where
  pub unicode : Unicode
  pub hash_token : Text → Text
  pub access_ttl : Time
  pub refresh_ttl : Time
  pub dummy_hash : Text

pub record Session : Type 0 where
  pub access_token : Text
  pub expires_in : Time
  pub refresh_token : Text
  pub user : User

abbrev pub session_of : Settings → User → Text → Text → Session
session_of g u access token = record {
  access_token = access;
  expires_in = g.access_ttl;
  refresh_token = token;
  user = u;
}

-- The first row of a family.
abbrev pub first_row : Settings → User → Text → Time → Text → Text → RefreshToken
first_row g u token t id family = record {
  id = id;
  user_id = u.id;
  family_id = family;
  token_hash = g.hash_token token;
  expires_at = t + g.refresh_ttl;
  created_at = 0;
  revoked_at = none;
  replaced_by = [];
}

-- `newSession` from the random token on.
unfoldable pub open_family : Settings → User → Text → Text → Action Session
open_family g u access token = do
  t ← ask_time
  id ← ask_uuid
  family ← ask_uuid
  _ ←
      wrapping (wrap (bytes "auth: store refresh token: %w"))
        (request (token_create (first_row g u token t id family)))
  ret (ok (session_of g u access token))

-- `newSession` from the access token on; the message of `newOpaqueToken` is inside.
unfoldable pub with_access : Settings → User → Result Text → Action Session
unfolding open_family
with_access g u (err e) = ret (err (wrap (bytes "auth: issue access token: %w") e))
with_access g u (ok access) = do
  token ←
      wrapping
        (λ e.
          wrap (bytes "auth: mint refresh token: %w") (wrap (bytes "generate refresh token: %w") e))
        (request random_token)
  open_family g u access token

unfoldable pub new_session : Settings → User → Action Session
unfolding with_access
new_session g u = bind (request (issue_access_token u)) (with_access g u)

-- The account that `Register` asks the store for.
abbrev pub new_account : Text → Text → Text → User
new_account email hash name = record {
  id = [];
  email = email;
  password_hash = hash;
  display_name = name;
  role = Role.customer;
  created_at = 0;
}

-- The rest of `Register`, from the reply of the user store on.
unfoldable pub registered : Settings → Result User → Action Session
unfolding new_session
registered g (err e) = ret (err e)
registered g (ok u) = new_session g u

-- `Register` once every check has passed.
unfoldable pub enrol : Settings → Text → Text → Text → Result Text → Action Session
unfolding registered
enrol g email password name (err e) = ret (err (wrap (bytes "auth: register: %w") e))
enrol g email password name (ok hash) =
    bind (request (user_create (new_account email hash name))) (registered g)

-- The check of the display name, the last one.
unfoldable pub named : Settings → Text → Text → Result Text → Action Session
unfolding enrol
named g email password (err e) = ret (err e)
named g email password (ok name) =
    bind (request (hash_password password)) (enrol g email password name)

-- The checks of the password.
unfoldable pub guarded : Settings → Text → Text → Text → Result (Unit {0}) → Action Session
unfolding named
guarded g email password display_name (err e) = ret (err e)
guarded g email password display_name (ok _) =
    when text_eq password email
    take ret (err (invalid (bytes "user: password must not equal the email: %w")))
    otherwise named g email password (validate_display_name g.unicode display_name)

-- `Register` from the normalised address on.
unfoldable pub addressed : Settings → Text → Text → Result Text → Action Session
unfolding guarded
addressed g password display_name (err e) = ret (err e)
addressed g password display_name (ok email) =
    guarded g email password display_name (validate_password password)

unfoldable pub register : Settings → Text → Text → Text → Action Session
unfolding addressed
register g email password display_name =
    addressed g password display_name (validate_email g.unicode email)

-- `burnDummyVerify`, then the one answer to every bad login.
unfoldable pub burn_and_refuse : Settings → Text → Action Session
burn_and_refuse g password =
    call (verify_password g.dummy_hash password)
      (λ _. ret (err (sentinel (user_error invalid_credentials))))

-- The rest of `Login`, from the reply of the hasher on.
unfoldable pub verified : Settings → User → Result Bool → Action Session
unfolding new_session
verified g u (err e) = ret (err (sentinel (user_error invalid_credentials)))
verified g u (ok matches) =
    when not matches
    take ret (err (sentinel (user_error invalid_credentials)))
    otherwise new_session g u

-- The rest of `Login`, from the reply of the user store on.
unfoldable pub identified : Settings → Text → Result User → Action Session
unfolding burn_and_refuse verified
identified g password (err e) =
    when errors_is e (user_error user_not_found)
    take burn_and_refuse g password
    otherwise ret (err e)
identified g password (ok u) =
    bind (request (verify_password u.password_hash password)) (verified g u)

-- `Login` from the normalised address on.
unfoldable pub log_in : Settings → Text → Result Text → Action Session
unfolding burn_and_refuse identified
log_in g password (err e) = burn_and_refuse g password
log_in g password (ok email) = bind (request (user_by_email email)) (identified g password)

unfoldable pub login : Settings → Text → Text → Action Session
unfolding log_in
login g email password = log_in g password (validate_email g.unicode email)

-- The successor that `Refresh` offers: `Rotate` fills in the user and the family.
abbrev pub successor : Settings → Text → Text → Time → RefreshToken
successor g token id t = record {
  id = id;
  user_id = [];
  family_id = [];
  token_hash = g.hash_token token;
  expires_at = t + g.refresh_ttl;
  created_at = 0;
  revoked_at = none;
  replaced_by = [];
}

-- The rest of `Refresh`, from the user's row on.
unfoldable pub renewed : Settings → Text → Result User → Action Session
renewed g token (err e) = ret (err e)
renewed g token (ok u) = do
  access ← wrapping (wrap (bytes "auth: refresh: %w")) (request (issue_access_token u))
  ret (ok (session_of g u access token))

-- The rest of `Refresh`, from the reply of `Rotate` on.
unfoldable pub rotated : Settings → Text → Result RefreshToken → Action Session
unfolding renewed
rotated g token (err e) = ret (err e)
rotated g token (ok row) = bind (request (user_by_id row.user_id)) (renewed g token)

-- `Refresh` from the random token on.
unfoldable pub exchange : Settings → Text → Result Text → Action Session
unfolding rotated
exchange g presented (err e) =
    ret (err (wrap (bytes "auth: refresh: %w") (wrap (bytes "generate refresh token: %w") e)))
exchange g presented (ok token) = do
  id ← ask_uuid
  t ← ask_time
  bind (request (token_rotate (g.hash_token presented) (successor g token id t))) (rotated g token)

unfoldable pub refresh : Settings → Text → Action Session
unfolding exchange
refresh g presented =
    when text_eq presented []
    take ret (err (sentinel (user_error refresh_token_unknown)))
    otherwise bind (request random_token) (exchange g presented)

-- The rest of `Logout`, from the reply of the lookup on.
unfoldable pub close_family : Result RefreshToken → Action (Unit {0})
close_family (err e) =
    when errors_is e (user_error refresh_token_unknown) take ret (ok tt) otherwise ret (err e)
close_family (ok row) = request (token_revoke_family row.family_id)

unfoldable pub logout : Settings → Text → Action (Unit {0})
unfolding close_family
logout g presented =
    when text_eq presented []
    take ret (ok tt)
    otherwise bind (request (token_by_hash (g.hash_token presented))) close_family

unfoldable pub me : Text → Action User
me user_id = request (user_by_id user_id)
