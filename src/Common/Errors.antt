-- ===== src/Common/Errors.antt =====
-- Go's errors: the sentinels of the domain packages, messages, and `fmt.Errorf` with `%w`.
-- A message is its format string: no code branches on what is printed into it.
use mathlib.Core.Path.{◌≡◌, refl}
use mathlib.Core.Logic.{◌⊎◌, inl, inr}
use mathlib.Core.Bool.{Bool, true, false, ◌||◌}
use booking_concurrent.Common.Tests.{Text}

-- internal/domain/booking/booking.go
pub data BookingError : Type 0 where
  seat_already_held hold_limit_exceeded hold_not_found not_hold_owner : BookingError
  seat_already_booked hold_expired session_already_confirmed : BookingError
  booking_not_found seat_out_of_range : BookingError

-- internal/domain/payment/payment.go
pub data PaymentError : Type 0 where
  payment_not_found payment_not_captured payment_declined : PaymentError
  payment_invalid_transition payment_intent_exists payment_amount_mismatch : PaymentError
  webhook_invalid : PaymentError

-- internal/domain/movie/movie.go
pub data MovieError : Type 0 where
  movie_not_found screening_not_found : MovieError

-- internal/domain/user/user.go
pub data UserError : Type 0 where
  validation user_not_found email_taken invalid_credentials : UserError
  refresh_token_unknown refresh_token_expired refresh_token_reused : UserError

pub data Sentinel : Type 0 where
  booking_error : BookingError → Sentinel
  payment_error : PaymentError → Sentinel
  movie_error : MovieError → Sentinel
  user_error : UserError → Sentinel

pub data Error : Type 0 where
  sentinel : Sentinel → Error
  message : Text → Error
  wrap : Text → Error → Error
  wrap_two : Text → Error → Error → Error

booking_discrete : Discrete BookingError
booking_discrete = hlevel

payment_discrete : Discrete PaymentError
payment_discrete = hlevel

movie_discrete : Discrete MovieError
movie_discrete = hlevel

user_discrete : Discrete UserError
user_discrete = hlevel

unfoldable pub sentinel_discrete : Discrete Sentinel
unfolding booking_discrete payment_discrete movie_discrete user_discrete
sentinel_discrete = hlevel (booking_discrete, payment_discrete, movie_discrete, user_discrete)

abbrev pub sentinel_eq : Sentinel → Sentinel → Bool
sentinel_eq s t = elim (sentinel_discrete s t) [ yes _ ↦ true | no _ ↦ false ]

-- `errors.Is(err, target)`
unfoldable pub errors_is : Error → Sentinel → Bool
errors_is (sentinel s) target = sentinel_eq s target
errors_is (message m) target = false
errors_is (wrap m e) target = errors_is e target
errors_is (wrap_two m e f) target = errors_is e target || errors_is f target

-- A Go function's `(A, error)`, where one of the two counts.
pub data Result {ℓ} (A : Type ℓ) : Type ℓ where
  err : Error → Result A
  ok : (value : A) → Result A

-- `if bad { return err }`
abbrev pub refuse_if : Bool → Error → Result (Unit {0})
refuse_if bad e = elim bad [ true ↦ err e | false ↦ ok tt ]

module _ {ℓ κ} {A : Type ℓ} {B : Type κ} where
  -- `if err != nil { return err }` after a call.
  infixl 5 ◌>>=◌
  abbrev pub ◌>>=◌ : Result A → (A → Result B) → Result B
  err e >>= rest = err e
  ok value >>= rest = rest value

module _ {κ} {B : Type κ} where
  infixl 5 ◌>>◌
  abbrev pub ◌>>◌ : Result (Unit {0}) → Result B → Result B
  check >> rest = check >>= λ passed. rest

-- To split on a result and keep the equation.
pub Result-cases {ℓ} :
    {A : Type ℓ} (r : Result A) → ((e : Error) × (r ≡ err e)) ⊎ ((a : A) × (r ≡ ok a))
Result-cases (err e) = inl (e, refl)
Result-cases (ok a) = inr (a, refl)
