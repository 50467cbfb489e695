-- ===== src/Tests/Accounts.antt =====
-- The auth service, at one request.
use booking_concurrent.Common.{◌≡◌, ◌↔◌, [], bytes, ok, ◌∷◌}
use booking_concurrent.Common.Proc.{Obeys, Ends}
use booking_concurrent.Domain.Booking.{to_lower, trim_space}
use booking_concurrent.Domain.User.{validate_email}
use booking_concurrent.Domain.User.Emails.{IsEmail, validate_email_iff}
use booking_concurrent.Application.Auth.{Settings, login, refresh, register}
use booking_concurrent.Application.Auth.Outcomes.{LoginEnd, RefreshEnd, login-Ends, refresh-Ends}
use booking_concurrent.Application.Auth.Sessions.{MintEnd}
use booking_concurrent.Application.Auth.Accounts.{Form, MayRegister, register-Obeys}
use booking_concurrent.Tests.Fixtures.{plain}

abbrev settings : Settings
settings = record {
  unicode = plain;
  hash_token = λ token. b'#' ∷ token;
  access_ttl = 900;
  refresh_ttl = 9000;
  dummy_hash = bytes "dummy";
}

login-Ends_example :
    Ends
      (LoginEnd (bytes "correct horse"))
      []
      (login settings (bytes "a@b.c") (bytes "correct horse"))
login-Ends_example = login-Ends settings (bytes "a@b.c") (bytes "correct horse")

refresh-Ends_example :
    Ends (RefreshEnd settings (bytes "token")) [] (refresh settings (bytes "token"))
refresh-Ends_example = refresh-Ends settings (bytes "token")

abbrev form : Form
form = record {
  email = bytes "a@b.c";
  password = bytes "correct horse";
  display_name = bytes "Ann";
}

register-Obeys_example :
    Obeys
      (MayRegister settings form)
      []
      (register settings form.email form.password form.display_name)
    × Ends (MintEnd settings) [] (register settings form.email form.password form.display_name)
register-Obeys_example = register-Obeys settings form

validate_email_iff_example : (validate_email plain (bytes " Ann@b.c ") ≡ ok (bytes "ann@b.c")) ↔ (
    (bytes "ann@b.c" ≡ to_lower plain (trim_space plain (bytes " Ann@b.c ")))
    × IsEmail (bytes "ann@b.c"))
validate_email_iff_example = validate_email_iff plain (bytes " Ann@b.c ") (bytes "ann@b.c")
