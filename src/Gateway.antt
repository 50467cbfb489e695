-- ===== src/Gateway.antt =====
-- internal/adapters/payment/fakegateway.go: the sandbox gateway and its signed webhooks.
-- HMAC-SHA256 and the JSON codec are parameters.
pub mod Webhook
use booking_concurrent.Common.{
  ℕ, ◌+◌, ◌*◌, Bool, true, false, ◌&&◌, ◌||◌, not, Option, none, some, List, [], ◌∷◌, ◌++◌,
  if◌then◌else◌, leb, Text, text_eq, bytes, ℤ, pos, negsuc, int_lt, Result, ok, err, Error, message,
  sentinel, payment_error, webhook_invalid,
}
use booking_concurrent.Common.Decimal.{itoa, parse_int}
use booking_concurrent.Common.Strings.{cut, split, hex_encode, hex_decode}
use booking_concurrent.Domain.Booking.{Time}
use booking_concurrent.Application.Ports.{WebhookEvent, IntentRequest}

-- `decode` is the JSON decoder with unknown fields disallowed: the event, and whether more input
-- follows it. `encode` is the encoder.
pub record Codec : Type 0 where
  pub hmac : (secret text : Text) → Text
  pub encode : WebhookEvent → Text
  pub decode : Text → Option (WebhookEvent × Bool)

pub record FakeGateway : Type 0 where
  pub secret : Text
  pub fail_create : Option Error
  pub fail_capture : Option Error

unfoldable pub new_fake_gateway : Text → Result FakeGateway
new_fake_gateway secret =
    if text_eq secret []
    then err (
        message
          (bytes "payment: fake gateway requires a webhook secret (PAYMENT_FAKE_WEBHOOK_SECRET)"))
    else ok (record { secret = secret; fail_create = none; fail_capture = none })

abbrev pub provider : Text
provider = bytes "fake"

-- `CreateIntent`, with the fresh UUID; the injected failure is used up.
unfoldable pub create_intent : FakeGateway → Text → IntentRequest → Result Text × FakeGateway
create_intent g uuid r = elim g.fail_create [
  | some e ↦ (err e, record g { fail_create = none })
  | none ↦
      if int_lt r.amount_cents (pos 1)
      then (err (message (bytes "payment: fake gateway: amount must be positive, got %d")), g)
      else (ok (bytes "pi_fake_" ++ uuid), g)
]

unfoldable pub capture_intent : FakeGateway → Result (Unit {0}) × FakeGateway
capture_intent g = elim g.fail_capture [
  | some e ↦ (err e, record g { fail_capture = none })
  | none ↦ (ok tt, g)
]

unfoldable pub fail_next_create : FakeGateway → Option Error → FakeGateway
fail_next_create g e = record g { fail_create = e }

unfoldable pub fail_next_capture : FakeGateway → Option Error → FakeGateway
fail_next_capture g e = record g { fail_capture = e }

-- The named results and the flags of `parseSignatureHeader`.
pub record Fields : Type 0 where
  pub t : Text
  pub v1 : Text
  pub saw_t : Bool
  pub saw_v1 : Bool

-- The switch on a part's key.
abbrev pub store_field : Fields → Option (Text × Text) → Option Fields
store_field f none = none
store_field f (some (key, value)) =
    if text_eq key (bytes "t")
    then some (record f { t = value; saw_t = true })
    else if text_eq key (bytes "v1")
    then some (record f { v1 = value; saw_v1 = true })
    else none

-- The loop over the parts.
unfoldable pub parse_parts : Fields → List Text → Option Fields
parse_parts f [] = some f
parse_parts f (part ∷ parts) = elim (store_field f (cut b'=' part)) [
  | none ↦ none
  | some f' ↦ parse_parts f' parts
]

abbrev pub complete : Option Fields → Option (Text × Text)
complete none = none
complete (some f) =
    if not f.saw_t || not f.saw_v1 || text_eq f.t [] || text_eq f.v1 []
    then none
    else some (f.t, f.v1)

abbrev pub no_fields : Fields
no_fields = record { t = []; v1 = []; saw_t = false; saw_v1 = false }

unfoldable pub parse_signature_header : Text → Option (Text × Text)
unfolding parse_parts
parse_signature_header header = complete (parse_parts no_fields (split b',' header))

-- Nanoseconds: a second, the replay window, and the start of Unix time.
abbrev pub second : ℕ
second = 1_000_000_000

abbrev pub webhook_tolerance : ℕ
webhook_tolerance = 300 * second

abbrev pub unix_epoch : ℕ
unix_epoch = 62_135_596_800 * second

-- Whether `time.Since(time.Unix(t, 0))` is within the tolerance, either way.
unfoldable pub in_window : Time → ℤ → Bool
in_window now (pos t) =
    leb now (unix_epoch + t * second + webhook_tolerance)
    && leb (unix_epoch + t * second) (now + webhook_tolerance)
in_window now (negsuc t) =
    leb (now + (t + 1) * second) (unix_epoch + webhook_tolerance)
    && leb unix_epoch (now + (t + 1) * second + webhook_tolerance)

-- What the signature covers.
abbrev pub signed_text : Text → Text → Text
signed_text t body = t ++ (b'.' ∷ body)

abbrev pub invalid {ℓ} : {A : Type ℓ} → Result A
invalid = err (sentinel (payment_error webhook_invalid))

-- The checks of the decoded body.
abbrev pub check_body : Option (WebhookEvent × Bool) → Result WebhookEvent
check_body none = invalid
check_body (some (ev, more)) =
    if more then invalid else if text_eq ev.intent_id [] then invalid else ok ev

abbrev pub check_time : Time → Option ℤ → Bool
check_time now none = false
check_time now (some t) = in_window now t

abbrev pub check_mac : Option Text → Text → Bool
check_mac none mac = false
check_mac (some signature) mac = text_eq signature mac

-- `ParseInt` and `DecodeString` come before the window and the MAC; all failures are one error.
unfoldable pub verify_fields :
    Codec → FakeGateway → Time → Text → Option (Text × Text) → Result WebhookEvent
unfolding in_window
verify_fields c g now body none = invalid
verify_fields c g now body (some (t, v1)) =
    if not (check_time now (parse_int t))
    then invalid
    else if not (check_mac (hex_decode v1) (c.hmac g.secret (signed_text t body)))
    then invalid
    else check_body (c.decode body)

unfoldable pub verify_webhook : Codec → FakeGateway → Time → Text → Text → Result WebhookEvent
unfolding verify_fields
verify_webhook c g now body header = verify_fields c g now body (parse_signature_header header)

-- `SignWebhook` at a Unix time in seconds: the body and the header.
unfoldable pub sign_webhook : Codec → FakeGateway → WebhookEvent → ℤ → Text × Text
sign_webhook c g ev unix =
    let body = c.encode ev in
    (
      body,
      bytes "t="
          ++ (itoa unix
              ++ (bytes ",v1=" ++ hex_encode (c.hmac g.secret (signed_text (itoa unix) body)))),
    )
