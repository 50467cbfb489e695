-- ===== src/Middleware.antt =====
-- internal/platform/middleware: the request's identity and the bearer token, on the text of the
-- headers. A protected handler is a function of the user that the middleware has found.
pub mod Identity
pub mod Bearer
use booking_concurrent.Common.{
  ℕ, zero, suc, ◌+◌, ◌-◌, ◌*◌, ◌/◌, ◌%◌, Bool, true, false, ◌&&◌, ◌||◌, not, List, [], ◌∷◌, ◌++◌,
  map, Option, none, some, if◌then◌else◌, Text, text_eq, bytes, ltb, leb, ◌==◌, length, Result, ok,
  err,
}
use booking_concurrent.Common.Strings.{split, hex_encode}
use booking_concurrent.Domain.Booking.{Unicode, trim_space, lower_byte}

unfoldable pub take : ℕ → Text → Text
take zero s = []
take (suc n) [] = []
take (suc n) (c ∷ s) = c ∷ take n s

unfoldable pub drop : ℕ → Text → Text
drop zero s = s
drop (suc n) [] = []
drop (suc n) (c ∷ s) = drop n s

-- `sanitizeRequestID`: letters, digits, dot, underscore and dash.
abbrev pub is_safe : ℕ → Bool
is_safe c =
    (leb b'a' c && leb c b'z')
    || ((leb b'A' c && leb c b'Z')
        || ((leb b'0' c && leb c b'9') || (c == b'.' || (c == b'_' || c == b'-'))))

unfoldable pub all_safe : Text → Bool
all_safe [] = true
all_safe (c ∷ s) = if is_safe c then all_safe s else false

unfoldable pub sanitize_request_id : Text → Text
sanitize_request_id id =
    if text_eq id [] || ltb 128 (length id) then [] else if all_safe id then id else []

abbrev pub is_hex_digit : ℕ → Bool
is_hex_digit c =
    not ((ltb c b'0' || ltb b'9' c) && ((ltb c b'a' || ltb b'f' c) && (ltb c b'A' || ltb b'F' c)))

unfoldable pub is_hex : Text → Bool
is_hex [] = true
is_hex (c ∷ s) = if is_hex_digit c then is_hex s else false

abbrev pub no_trace : Text
no_trace = bytes "00000000000000000000000000000000"

-- The four parts of a `traceparent`.
unfoldable pub trace_id : List Text → Text
trace_id (version ∷ id ∷ parent ∷ flags ∷ []) =
    if not (length version == 2) || text_eq version (bytes "ff")
    then []
    else if not (length id == 32) || (not (is_hex id) || text_eq id no_trace)
    then []
    else id
trace_id _ = []

unfoldable pub trace_id_from_traceparent : Unicode → Text → Text
trace_id_from_traceparent un h = trace_id (split b'-' (trim_space un h))

-- The byte at a position, changed.
unfoldable pub change_at : ℕ → (ℕ → ℕ) → Text → Text
change_at n f [] = []
change_at zero f (c ∷ s) = f c ∷ s
change_at (suc n) f (c ∷ s) = c ∷ change_at n f s

-- `newUUID`, of the 16 random bytes: version 4, variant 10.
unfoldable pub new_uuid : Text → Text
new_uuid random =
    let b = change_at 8 (λ c. c % 64 + 128) (change_at 6 (λ c. c % 16 + 64) random) in
    hex_encode (take 4 b)
    ++ (b'-'
        ∷ (hex_encode (take 2 (drop 4 b))
            ++ (b'-'
                ∷ (hex_encode (take 2 (drop 6 b))
                    ++ (b'-'
                        ∷ (hex_encode (take 2 (drop 8 b))
                            ++ (b'-' ∷ hex_encode (take 6 (drop 10 b)))))))))

abbrev pub or_else : Text → Text → Text
or_else s other = if text_eq s [] then other else s

-- The identity that `RequestID` gives a request: the client's, the trace's, or a new one.
unfoldable pub request_id : Unicode → (header traceparent random : Text) → Text
request_id un header traceparent random =
    or_else (or_else (sanitize_request_id header) (trace_id_from_traceparent un traceparent))
      (new_uuid random)

-- `strings.EqualFold` with the prefix, whose letters have no other case than their ASCII one.
abbrev pub bearer_prefix : Text
bearer_prefix = bytes "bearer "

unfoldable pub bearer_token : Unicode → Text → Option Text
bearer_token un header =
    let token = trim_space un (drop 7 header) in
    if ltb (length header) 7
    then none
    else if not (text_eq (map lower_byte (take 7 header)) bearer_prefix)
    then none
    else if text_eq token []
    then none
    else some token

-- `Auth`: the handler behind it runs for a user, or the request is refused.
unfoldable pub auth :
    {R : Type 0}
    → Unicode
    → (validate : Text → Result Text) → (unauthorized : R) → (handler : Text → R) → Text
    → R
auth un validate unauthorized handler header = elim (bearer_token un header) [
  | none ↦ unauthorized
  | some token ↦ elim (validate token) [ err e ↦ unauthorized | ok user_id ↦ handler user_id ]
]
