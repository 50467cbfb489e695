-- ===== src/Gateway/Webhook.antt =====
-- Which deliveries `VerifyWebhook` accepts.
use booking_concurrent.Common.{
  ℕ, suc, ◌≤◌, ◌+◌, ◌*◌, ◌<◌, ◌≡◌, ◌≢◌, refl, ap, ◌∙◌, inl, inr, Bool, true, false, Option, none,
  some, [], ◌∷◌, ◌++◌, arith, Text, bytes, All, ℤ, pos, ok, err, Error, sentinel, payment_error,
  webhook_invalid, Option-cases, text_discrete,
}
use native.Mathlib.Decide.{ℕ_discrete}
use booking_concurrent.Common.Decimal.{
  itoa, parse_int, parse_int-itoa, IsInt64, digits, All-digits, is_digit,
}
use booking_concurrent.Common.Strings.{
  hex_decode, hex_encode, hex_digit, hex_decode-hex_encode, cut, split, split-append, split_one,
}
use booking_concurrent.Domain.Booking.{Time}
use booking_concurrent.Application.Ports.{WebhookEvent}
use booking_concurrent.Gateway.{
  sign_webhook, unix_epoch, second, webhook_tolerance, parse_parts, no_fields, Codec, FakeGateway,
  parse_signature_header, verify_fields, verify_webhook, in_window, signed_text, check_body,
  check_mac,
}

-- What acceptance says of the fields.
abbrev pub Authentic : Codec → FakeGateway → Time → Text → Text → Text → WebhookEvent → Type 0
Authentic c g now body t v1 ev =
    (unix : ℤ) × (parse_int t ≡ some unix)
    × (in_window now unix ≡ true)
    × (hex_decode v1 ≡ some (c.hmac g.secret (signed_text t body)))
    × (c.decode body ≡ some (ev, false))
    × (ev.intent_id ≢ [])

mac_of_check : (s : Option Text) (mac : Text) → check_mac s mac ≡ true → s ≡ some mac
mac_of_check none mac h = cc
mac_of_check (some x) mac h = ground arith

body_of_check :
    (r : Option (WebhookEvent × Bool)) (ev : WebhookEvent)
    → check_body r ≡ ok ev
    → (r ≡ some (ev, false)) × (ev.intent_id ≢ [])
body_of_check none ev h = cc
body_of_check (some (e, true)) ev h = cc
body_of_check (some (e, false)) ev h = ground arith

fields-Authentic :
    (c : Codec) (g : FakeGateway) (now : Time) (body t v1 : Text) (ev : WebhookEvent)
    → verify_fields c g now body (some (t, v1)) ≡ ok ev
    → Authentic c g now body t v1 ev
unfolding verify_fields
fields-Authentic c g now body t v1 ev h = elim (Option-cases (parse_int t)) [
  | inl e ↦ absurd (ground arith)
  | inr (unix, e) ↦
      let mac : check_mac (hex_decode v1) (c.hmac g.secret (signed_text t body)) ≡ true =
        ground arith in
      let decoded = body_of_check (c.decode body) ev (ground arith) in
      (unix, e, ground arith, mac_of_check _ _ mac, decoded.0, decoded.1)
]

-- An accepted delivery carries a header with a timestamp inside the window and the MAC, under the
-- gateway's secret, of exactly that timestamp and these body bytes; the event is the body's own.
pub verify_webhook-Authentic :
    (c : Codec) (g : FakeGateway) (now : Time) (body header : Text) (ev : WebhookEvent)
    → verify_webhook c g now body header ≡ ok ev
    → (t : Text) × (v1 : Text) × (parse_signature_header header ≡ some (t, v1))
      × Authentic c g now body t v1 ev
unfolding verify_webhook
verify_webhook-Authentic c g now body header ev h =
    elim (Option-cases (parse_signature_header header)) [
      | inl e ↦ absurd (ground arith)
      | inr ((t, v1), e) ↦ (t, v1, e, fields-Authentic c g now body t v1 ev (ground arith))
    ]

-- Every refusal is the same error.
pub verify_webhook_opaque :
    (c : Codec) (g : FakeGateway) (now : Time) (body header : Text) (e : Error)
    → verify_webhook c g now body header ≡ err e
    → e ≡ sentinel (payment_error webhook_invalid)
unfolding verify_webhook
verify_webhook_opaque c g now body header e = ground arith

no_comma_hex : (s : Text) → All (λ c. c ≢ b',') (hex_encode s)
unfolding hex_encode hex_digit
no_comma_hex [] = tt
no_comma_hex (c ∷ s) = (ground arith, (ground arith, no_comma_hex s))

no_comma_digits : (s : Text) → All (λ c. is_digit c ≡ true) s → All (λ c. c ≢ b',') s
no_comma_digits [] h = tt
no_comma_digits (c ∷ s) h = (ground (arith, h.0), no_comma_digits s h.1)

no_comma_itoa : (n : ℕ) → All (λ c. c ≢ b',') (itoa (pos n))
unfolding itoa
no_comma_itoa n = no_comma_digits (digits (suc n) n) (All-digits (suc n) n)

itoa-ne-nil : (n : ℕ) → IsInt64 (pos n) → itoa (pos n) ≢ []
unfolding parse_int
itoa-ne-nil n r e = absurd (ground (arith, parse_int-itoa (pos n) r))

hex_encode-ne-nil : (s : Text) → s ≢ [] → hex_encode s ≢ []
unfolding hex_encode
hex_encode-ne-nil [] h e = h refl
hex_encode-ne-nil (c ∷ s) h e = cc

header_parts :
    (t v : Text)
    → All (λ c. c ≢ b',') t
    → All (λ c. c ≢ b',') v
    → split b',' (bytes "t=" ++ (t ++ (bytes ",v1=" ++ v)))
      ≡ (bytes "t=" ++ t) ∷ (bytes "v1=" ++ v) ∷ []
header_parts t v ht hv =
    split-append b',' (bytes "t=" ++ t) (bytes "v1=" ++ v) (omega arith, (omega arith, ht))
    ∙ ap (◌∷◌ (bytes "t=" ++ t))
        (split_one b',' (bytes "v1=" ++ v) (omega arith, (omega arith, (omega arith, hv))))

parse_parts_lem :
    (t v : Text)
    → parse_parts no_fields ((bytes "t=" ++ t) ∷ (bytes "v1=" ++ v) ∷ [])
      ≡ some (record { t = t; v1 = v; saw_t = true; saw_v1 = true })
unfolding parse_parts cut text_discrete ℕ_discrete
parse_parts_lem t v = refl

-- The two fields come back from a header that holds them.
pub parse_signature_header_lem :
    (t v : Text)
    → All (λ c. c ≢ b',') t
    → All (λ c. c ≢ b',') v
    → t ≢ []
    → v ≢ []
    → parse_signature_header (bytes "t=" ++ (t ++ (bytes ",v1=" ++ v))) ≡ some (t, v)
unfolding parse_signature_header
parse_signature_header_lem t v ht hv nt nv =
    rw (header_parts t v ht hv) (rw (parse_parts_lem t v) (ground arith))

-- The delivery that `SignWebhook` makes at Unix time `unix`, for an event with an intent id that is
-- not empty, is accepted, as the event that was signed, at every moment within five minutes of
-- `unix`. The time is a 64-bit number from 1970 on; the JSON codec is assumed to read back what it
-- writes for the event, and the MAC to be bytes and never empty.
pub verify_webhook-sign_webhook :
    (c : Codec) (g : FakeGateway) (ev : WebhookEvent) (now : Time) (unix : ℕ)
    → IsInt64 (pos unix)
    → (unix_epoch + unix * second ≤ now + webhook_tolerance)
    → (now ≤ unix_epoch + unix * second + webhook_tolerance)
    → ev.intent_id ≢ []
    → c.decode (c.encode ev) ≡ some (ev, false)
    → ((k s : Text) → (c.hmac k s ≢ []) × All (λ b. b < 256) (c.hmac k s))
    → let (body, header) = sign_webhook c g ev (pos unix) in
      verify_webhook c g now body header ≡ ok ev
unfolding verify_webhook sign_webhook
verify_webhook-sign_webhook c g ev now unix range early late named json mac =
    rw
      (parse_signature_header_lem (itoa (pos unix)) (hex_encode tag) (no_comma_itoa unix)
        (no_comma_hex tag) (itoa-ne-nil unix range) (hex_encode-ne-nil tag (mac _ _).0))
      (rw (parse_int-itoa (pos unix) range, hex_decode-hex_encode tag (mac _ _).1, json)
        (ground arith))
  where
    tag : Text
    tag = c.hmac g.secret (signed_text (itoa (pos unix)) (c.encode ev))
