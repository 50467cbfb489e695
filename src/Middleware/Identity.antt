-- ===== src/Middleware/Identity.antt =====
-- The identities that internal/platform/middleware/requestid.go lets into logs and headers.
use booking_concurrent.Common.{
  ℕ, zero, suc, ◌+◌, ◌*◌, ◌%◌, ◌≤◌, ◌<◌, ◌≡◌, ◌≢◌, refl, true, ◌&&◌, List, [], ◌∷◌, ◌++◌, Text,
  text_eq, arith, length, length-append, All, Bool-cases, inl, inr, ◌∙◌, ap,
}
use booking_concurrent.Common.Strings.{hex_encode, hex_digit}
use booking_concurrent.Domain.Booking.{Unicode}
use booking_concurrent.Middleware.{
  take, drop, all_safe, sanitize_request_id, is_hex, trace_id, trace_id_from_traceparent, change_at,
  new_uuid, request_id,
}

-- What may be written into a log line or a header as it is.
pub record IsIdentity (id : Text) : Type 0 where
  pub some_text : id ≢ []
  pub short : length id ≤ 128
  pub safe : all_safe id ≡ true

sanitized : (id : Text) → sanitize_request_id id ≢ [] → IsIdentity (sanitize_request_id id)
unfolding sanitize_request_id
sanitized id h = record { some_text = h; short = ground arith; safe = ground arith }

all_safe_of_hex : (s : Text) → is_hex s ≡ true → all_safe s ≡ true
unfolding is_hex all_safe
all_safe_of_hex [] h = refl
all_safe_of_hex (c ∷ s) h = ground (arith, all_safe_of_hex s)

-- A trace's identity has 32 digits.
traced_parts : (parts : List Text) → trace_id parts ≢ [] → IsIdentity (trace_id parts)
unfolding trace_id
traced_parts (version ∷ id ∷ parent ∷ flags ∷ []) h = record {
  some_text = h;
  short = ground arith;
  safe = ground (arith, all_safe_of_hex id);
}
traced_parts [] h = absurd (h refl)
traced_parts (a ∷ []) h = absurd (h refl)
traced_parts (a ∷ b ∷ []) h = absurd (h refl)
traced_parts (a ∷ b ∷ c ∷ []) h = absurd (h refl)
traced_parts (a ∷ b ∷ c ∷ d ∷ e ∷ rest) h = absurd (h refl)

all_safe-append : (s t : Text) → all_safe (s ++ t) ≡ (all_safe s && all_safe t)
unfolding all_safe
all_safe-append [] t = refl
all_safe-append (c ∷ s) t = ground (arith, all_safe-append s t)

abbrev pub AreBytes : Text → Type 0
AreBytes = All (λ c. c < 256)

all_safe-hex_encode : (s : Text) → AreBytes s → all_safe (hex_encode s) ≡ true
unfolding all_safe hex_encode hex_digit
all_safe-hex_encode [] h = refl
all_safe-hex_encode (c ∷ s) (h, hs) = ground (arith, all_safe-hex_encode s hs)

length-hex_encode : (s : Text) → length (hex_encode s) ≡ 2 * length s
unfolding hex_encode
length-hex_encode [] = omega arith
length-hex_encode (c ∷ s) = omega (arith, length-hex_encode s)

length-take : (n : ℕ) (s : Text) → n ≤ length s → length (take n s) ≡ n
unfolding take
length-take zero s h = refl
length-take (suc n) [] h = absurd (omega arith)
length-take (suc n) (c ∷ s) h = omega (arith, length-take n s (omega arith))

length-drop : (n : ℕ) (s : Text) → n ≤ length s → length (drop n s) + n ≡ length s
unfolding drop
length-drop zero s h = omega arith
length-drop (suc n) [] h = absurd (omega arith)
length-drop (suc n) (c ∷ s) h = omega (arith, length-drop n s (omega arith))

length-change_at : (n : ℕ) (f : ℕ → ℕ) (s : Text) → length (change_at n f s) ≡ length s
unfolding change_at
length-change_at n f [] = refl
length-change_at zero f (c ∷ s) = refl
length-change_at (suc n) f (c ∷ s) = omega (arith, length-change_at n f s)

take-AreBytes : (n : ℕ) (s : Text) → AreBytes s → AreBytes (take n s)
unfolding take
take-AreBytes zero s h = tt
take-AreBytes (suc n) [] h = tt
take-AreBytes (suc n) (c ∷ s) (h, hs) = (h, take-AreBytes n s hs)

drop-AreBytes : (n : ℕ) (s : Text) → AreBytes s → AreBytes (drop n s)
unfolding drop
drop-AreBytes zero s h = h
drop-AreBytes (suc n) [] h = tt
drop-AreBytes (suc n) (c ∷ s) (h, hs) = drop-AreBytes n s hs

change_at-AreBytes :
    (n : ℕ) (f : ℕ → ℕ) (s : Text) → ((c : ℕ) → f c < 256) → AreBytes s → AreBytes (change_at n f s)
unfolding change_at
change_at-AreBytes n f [] small h = tt
change_at-AreBytes zero f (c ∷ s) small (h, hs) = (small c, hs)
change_at-AreBytes (suc n) f (c ∷ s) small (h, hs) = (h, change_at-AreBytes n f s small hs)

-- One more group of a UUID.
group_safe :
    (s t : Text) → AreBytes s → all_safe t ≡ true → all_safe (hex_encode s ++ (b'-' ∷ t)) ≡ true
unfolding all_safe
group_safe s t hs ht =
    ground (arith, all_safe-append (hex_encode s) (b'-' ∷ t), all_safe-hex_encode s hs)

group_length : (s t : Text) → length (hex_encode s ++ (b'-' ∷ t)) ≡ 2 * length s + 1 + length t
group_length s t = omega (arith, length-append (hex_encode s) (b'-' ∷ t), length-hex_encode s)

-- The bytes of a UUID, once its version and variant are set.
stamped : Text → Text
stamped random = change_at 8 (λ c. c % 64 + 128) (change_at 6 (λ c. c % 16 + 64) random)

stamped-AreBytes : (random : Text) → AreBytes random → AreBytes (stamped random)
unfolding stamped
stamped-AreBytes random h =
    change_at-AreBytes 8 (λ c. c % 64 + 128) _ (λ c. omega arith)
      (change_at-AreBytes 6 (λ c. c % 16 + 64) random (λ c. omega arith) h)

length-stamped : (random : Text) → length (stamped random) ≡ length random
unfolding stamped
length-stamped random =
    length-change_at 8 (λ c. c % 64 + 128) _ ∙ length-change_at 6 (λ c. c % 16 + 64) random

-- A group of the bytes from a position on.
part-AreBytes : (n k : ℕ) (b : Text) → AreBytes b → AreBytes (take n (drop k b))
part-AreBytes n k b h = take-AreBytes n (drop k b) (drop-AreBytes k b h)

length-part : (n k : ℕ) (b : Text) → n + k ≤ length b → length (take n (drop k b)) ≡ n
length-part n k b h = length-take n (drop k b) (omega (arith, length-drop k b (omega arith)))

-- A new UUID has 36 characters, all of them safe.
pub new_uuid_lem :
    (random : Text)
    → length random ≡ 16
    → AreBytes random
    → (length (new_uuid random) ≡ 36) × (all_safe (new_uuid random) ≡ true)
unfolding new_uuid
new_uuid_lem random long h =
    let b = stamped random in
    let bytes' = stamped-AreBytes random h in
    let long' : length b ≡ 16 = length-stamped random ∙ long in
    unfold stamped in
    (
      omega (
        arith,
        group_length (take 4 b) _,
        length-take 4 b (omega (arith, long')),
        group_length (take 2 (drop 4 b)) _,
        length-part 2 4 b (omega (arith, long')),
        group_length (take 2 (drop 6 b)) _,
        length-part 2 6 b (omega (arith, long')),
        group_length (take 2 (drop 8 b)) (hex_encode (take 6 (drop 10 b))),
        length-part 2 8 b (omega (arith, long')),
        length-hex_encode (take 6 (drop 10 b)),
        length-part 6 10 b (omega (arith, long')),
      ),
      group_safe (take 4 b) _ (take-AreBytes 4 b bytes') (
          group_safe (take 2 (drop 4 b)) _ (part-AreBytes 2 4 b bytes') (
            group_safe (take 2 (drop 6 b)) _ (part-AreBytes 2 6 b bytes') (
              group_safe (take 2 (drop 8 b)) _ (part-AreBytes 2 8 b bytes')
                (all_safe-hex_encode (take 6 (drop 10 b)) (part-AreBytes 6 10 b bytes'))))),
    )

-- Whatever the headers say, the identity that a request gets is neither empty nor longer than 128
-- characters, and has only letters, digits, dots, underscores and dashes.
pub request_id-IsIdentity :
    (un : Unicode) (header traceparent random : Text)
    → length random ≡ 16
    → AreBytes random
    → IsIdentity (request_id un header traceparent random)
unfolding request_id trace_id_from_traceparent
request_id-IsIdentity un header traceparent random long h =
    elim (Bool-cases (text_eq (sanitize_request_id header) [])) [
      | inr own ↦ rw (own, own) (sanitized header (λ e. ground arith))
      | inl none' ↦
          rw none' (elim (Bool-cases (text_eq (trace_id_from_traceparent un traceparent) [])) [
            | inr traced ↦ rw traced (traced_parts _ (λ e. ground arith))
            | inl missing ↦ rw missing (record {
              some_text = λ e. ground (arith, new_uuid_lem random long h, ap length e);
              short = ground (arith, new_uuid_lem random long h);
              safe = (new_uuid_lem random long h).1;
            })
          ])
    ]
