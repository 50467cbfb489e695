-- ===== src/Tests/Outer.antt =====
-- The configuration, the middleware and the cookies, at one process and one request.
use booking_concurrent.Common.{
  ◌≡◌, ◌↔◌, refl, true, none, some, [], ◌∷◌, Text, bytes, arith, if◌then◌else◌, text_eq,
}
use booking_concurrent.Common.Proc.{Ends}
use booking_concurrent.Application.Auth.{Settings}
use booking_concurrent.Config.Problems.{Environ, Parsers}
use booking_concurrent.Config.Settings.{Config}
use booking_concurrent.Config.Load.{load, loaded}
use booking_concurrent.Config.Acceptance.{environment_ok, load_iff}
use booking_concurrent.Middleware.{request_id}
use booking_concurrent.Middleware.Identity.{IsIdentity, request_id-IsIdentity}
use booking_concurrent.Http.Accounts.{refresh_handler, cleared_cookie}
use booking_concurrent.Http.Accounts.Cookies.{Settled, Renewal, refresh_handler-Ends}
use booking_concurrent.Tests.Fixtures.{plain}

-- No duration is set, and every URL is one.
abbrev parsers : Parsers
parsers = record { duration = λ s. none; is_url = λ s. true }

-- What a deployment has to set.
abbrev environ : Environ
environ key =
    if text_eq key (bytes "HTTP_ADDR")
    then bytes ":8080"
    else if text_eq key (bytes "REDIS_ADDR")
    then bytes "redis"
    else if text_eq key (bytes "POSTGRES_HOST")
    then bytes "db"
    else if text_eq key (bytes "POSTGRES_USER")
    then bytes "app"
    else if text_eq key (bytes "POSTGRES_PASSWORD")
    then bytes "pw"
    else if text_eq key (bytes "POSTGRES_DB")
    then bytes "tickets"
    else if text_eq key (bytes "AUTH_JWT_SECRET")
    then bytes "secret"
    else if text_eq key (bytes "RABBITMQ_URL")
    then bytes "amqp://mq"
    else if text_eq key (bytes "PAYMENT_FAKE_WEBHOOK_SECRET")
    then bytes "hook"
    else []

load_iff_example :
    ((c : Config) × (load parsers plain environ ≡ loaded c))
    ↔ (environment_ok parsers plain environ ≡ true)
load_iff_example = load_iff parsers plain environ

abbrev random : Text
random = bytes "0123456789abcdef"

request_id-IsIdentity_example : IsIdentity (request_id plain (bytes "bad id") [] random)
request_id-IsIdentity_example =
    request_id-IsIdentity plain (bytes "bad id") [] random refl (ground arith)

abbrev process : Settings
process = record {
  unicode = plain;
  hash_token = λ token. b'#' ∷ token;
  access_ttl = 900;
  refresh_ttl = 9000;
  dummy_hash = bytes "dummy";
}

refresh_handler-Ends_example :
    Ends
      (Settled (Renewal process (some (bytes "token"))) 200 9000 true (some (cleared_cookie true)))
      []
      (refresh_handler process 9000 true (some (bytes "token")))
refresh_handler-Ends_example = refresh_handler-Ends process 9000 true (some (bytes "token"))
