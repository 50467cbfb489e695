-- ===== src/Config/Acceptance.antt =====
-- Which environments internal/platform/config/config.go accepts.
use booking_concurrent.Common.{
  Bool, true, false, ◌&&◌, ◌||◌, not, ◌≡◌, ◌↔◌, refl, List, [], ◌∷◌, ◌++◌, Option, none, some,
  if◌then◌else◌, Text, text_eq, text_discrete, bytes, ltb, length, arith, ℤ, pos, int_lt,
}
use booking_concurrent.Common.Decimal.{parse_int}
use booking_concurrent.Domain.Booking.{Unicode, to_lower}
use booking_concurrent.Domain.User.{has_byte}
use booking_concurrent.Config.Problems.{
  Environ, Checked, Parsers, is_empty, is_one_of, duration, int_in_range, bool_var, log_level,
  with_default,
}
use booking_concurrent.Config.Settings.{Config, is_production}
use booking_concurrent.Config.Load.{
  load_env, load_http, load_redis, load_postgres, load_auth, load_broker, load_payment,
  load_telemetry, read_config, load, loaded, join,
}
use booking_concurrent.Config.Validity.{has_amqp_scheme, is_deployment, join-loaded}

-- The rules of one variable, on its text.
abbrev is_positive : Option ℤ → Bool
is_positive none = false
is_positive (some d) = not (int_lt d (pos 1))

abbrev is_within : ℤ → ℤ → Option ℤ → Bool
is_within min max none = false
is_within min max (some n) = not (int_lt n min || int_lt max n)

abbrev pub duration_ok : Parsers → Text → Bool
duration_ok ps s = is_empty s || is_positive (ps.duration s)

abbrev pub int_ok : ℤ → ℤ → Text → Bool
int_ok min max s = is_empty s || is_within min max (parse_int s)

abbrev pub choice_ok : List Text → Text → Bool
choice_ok choices s = is_empty s || is_one_of s choices

-- The rules of `Load`, a variable a line, and those that look at two.
abbrev pub env_ok : Environ → Bool
env_ok env = is_empty (env (bytes "ENV")) || is_deployment (env (bytes "ENV"))

abbrev pub http_ok : Parsers → Environ → Bool
http_ok ps env =
    has_byte b':' (env (bytes "HTTP_ADDR"))
    && (duration_ok ps (env (bytes "HTTP_READ_TIMEOUT"))
        && (duration_ok ps (env (bytes "HTTP_WRITE_TIMEOUT"))
            && duration_ok ps (env (bytes "HTTP_SHUTDOWN_TIMEOUT"))))

abbrev pub redis_ok : Parsers → Environ → Bool
redis_ok ps env =
    not (is_empty (env (bytes "REDIS_ADDR")))
    && (int_ok (pos 0) (pos 15) (env (bytes "REDIS_DB"))
        && duration_ok ps (env (bytes "REDIS_HOLD_TTL")))

abbrev pub postgres_ok : Environ → Bool
postgres_ok env =
    not (is_empty (env (bytes "POSTGRES_HOST")))
    && (int_ok (pos 1) (pos 65535) (env (bytes "POSTGRES_PORT"))
        && (not (is_empty (env (bytes "POSTGRES_USER")))
            && (not (is_empty (env (bytes "POSTGRES_PASSWORD")))
                && (not (is_empty (env (bytes "POSTGRES_DB")))
                    && choice_ok
                        (bytes "disable"
                          ∷ bytes "require"
                          ∷ bytes "verify-ca"
                          ∷ bytes "verify-full"
                          ∷ [])
                        (env (bytes "POSTGRES_SSLMODE"))))))

abbrev pub auth_ok : Parsers → Environ → Bool
auth_ok ps env =
    not (is_empty (env (bytes "AUTH_JWT_SECRET")))
    && (not (is_production (env (bytes "ENV")) && ltb (length (env (bytes "AUTH_JWT_SECRET"))) 32)
        && (duration_ok ps (env (bytes "AUTH_ACCESS_TOKEN_TTL"))
            && duration_ok ps (env (bytes "AUTH_REFRESH_TOKEN_TTL"))))

env_iff : (env : Environ) → ((load_env env).1 ≡ []) ↔ (env_ok env ≡ true)
unfolding load_env with_default text_discrete
env_iff env = ground arith

http_iff : (ps : Parsers) (env : Environ) → ((load_http ps env).1 ≡ []) ↔ (http_ok ps env ≡ true)
unfolding load_http duration has_byte
http_iff ps env = ground arith

redis_iff : (ps : Parsers) (env : Environ) → ((load_redis ps env).1 ≡ []) ↔ (redis_ok ps env ≡ true)
unfolding load_redis duration int_in_range
redis_iff ps env = ground arith

postgres_iff : (env : Environ) → ((load_postgres env).1 ≡ []) ↔ (postgres_ok env ≡ true)
unfolding load_postgres with_default int_in_range text_discrete
postgres_iff env = ground arith

-- The strict rule of a production secret looks at `ENV` as it is set.
auth_iff :
    (ps : Parsers) (env : Environ)
    → ((load_auth ps env (load_env env).0).1 ≡ []) ↔ (auth_ok ps env ≡ true)
unfolding load_auth load_env with_default duration text_discrete
auth_iff ps env = ground arith

abbrev pub broker_ok : Environ → Bool
broker_ok env =
    not (is_empty (env (bytes "RABBITMQ_URL"))) && has_amqp_scheme (env (bytes "RABBITMQ_URL"))

broker_iff : (env : Environ) → ((load_broker env).1 ≡ []) ↔ (broker_ok env ≡ true)
unfolding load_broker
broker_iff env = ground arith

-- The fake gateway is the default; each provider needs its own secrets.
abbrev pub fake_ok : Environ → Bool
fake_ok env = not (is_empty (env (bytes "PAYMENT_FAKE_WEBHOOK_SECRET")))

abbrev pub stripe_ok : Environ → Bool
stripe_ok env =
    not (is_empty (env (bytes "PAYMENT_STRIPE_SECRET_KEY")))
    && not (is_empty (env (bytes "PAYMENT_STRIPE_WEBHOOK_SECRET")))

abbrev pub payment_ok : Environ → Bool
payment_ok env =
    let provider = env (bytes "PAYMENT_PROVIDER") in
    if is_empty provider || text_eq provider (bytes "fake")
    then fake_ok env
    else text_eq provider (bytes "stripe") && stripe_ok env

payment_iff : (env : Environ) → ((load_payment env).1 ≡ []) ↔ (payment_ok env ≡ true)
unfolding load_payment with_default text_discrete
payment_iff env = ground arith

abbrev pub endpoint_of : Text → Text
endpoint_of s = if is_empty s then bytes "http://localhost:4317" else s

abbrev pub telemetry_ok : Parsers → Unicode → Environ → Bool
telemetry_ok ps un env =
    let enabled = to_lower un (env (bytes "OTEL_ENABLED")) in
    let valid = ps.is_url (endpoint_of (env (bytes "OTEL_EXPORTER_OTLP_ENDPOINT"))) in
    if is_empty (env (bytes "OTEL_ENABLED"))
      || is_one_of enabled (bytes "1" ∷ bytes "true" ∷ bytes "yes" ∷ [])
    then valid
    else is_one_of enabled (bytes "0" ∷ bytes "false" ∷ bytes "no" ∷ [])

telemetry_iff :
    (ps : Parsers) (un : Unicode) (env : Environ)
    → ((load_telemetry ps un env).1 ≡ []) ↔ (telemetry_ok ps un env ≡ true)
unfolding load_telemetry with_default bool_var
telemetry_iff ps un env = ground arith

abbrev pub level_ok : Unicode → Environ → Bool
level_ok un env =
    is_one_of
      (to_lower un
        (if is_empty (env (bytes "LOG_LEVEL")) then bytes "info" else env (bytes "LOG_LEVEL")))
      (bytes "debug" ∷ bytes "info" ∷ bytes "warn" ∷ bytes "warning" ∷ bytes "error" ∷ [])

level_iff :
    (un : Unicode) (env : Environ)
    → ((log_level un env (bytes "LOG_LEVEL")).1 ≡ []) ↔ (level_ok un env ≡ true)
unfolding log_level with_default
level_iff un env = ground arith

max_holds_iff :
    (env : Environ)
    → ((int_in_range env (bytes "MAX_ACTIVE_HOLDS") (pos 4) (pos 1) (pos 100)).1 ≡ [])
      ↔ (int_ok (pos 1) (pos 100) (env (bytes "MAX_ACTIVE_HOLDS")) ≡ true)
unfolding int_in_range
max_holds_iff env = ground arith

abbrev pub environment_ok : Parsers → Unicode → Environ → Bool
environment_ok ps un env =
    env_ok env
    && (http_ok ps env
        && (level_ok un env
            && (redis_ok ps env
                && (int_ok (pos 1) (pos 100) (env (bytes "MAX_ACTIVE_HOLDS"))
                    && (postgres_ok env
                        && (auth_ok ps env
                            && (broker_ok env && (payment_ok env && telemetry_ok ps un env))))))))

-- Two lists appended are empty when both are.
append_iff {ℓ} :
    {A : Type ℓ} (xs ys : List A) (p q : Bool)
    → ((xs ≡ []) ↔ (p ≡ true))
    → ((ys ≡ []) ↔ (q ≡ true))
    → ((xs ++ ys ≡ []) ↔ ((p && q) ≡ true))
append_iff [] ys p q a b = ground arith
append_iff (x ∷ xs) ys p q a b = ground arith

append-nil_iff {ℓ} :
    {A : Type ℓ} (xs : List A) (p : Bool)
    → ((xs ≡ []) ↔ (p ≡ true))
    → ((xs ++ [] ≡ []) ↔ (p ≡ true))
append-nil_iff [] p a = a
append-nil_iff (x ∷ xs) p a = ground arith

read_config_iff :
    (ps : Parsers) (un : Unicode) (env : Environ)
    → ((read_config ps un env).1 ≡ []) ↔ (environment_ok ps un env ≡ true)
unfolding read_config
read_config_iff ps un env = append_iff _ _ _ _ (env_iff env) (
    append_iff _ _ _ _ (http_iff ps env) (
      append_iff _ _ _ _ (level_iff un env) (
        append_iff _ _ _ _ (redis_iff ps env) (
          append_iff _ _ _ _ (max_holds_iff env) (
            append_iff _ _ _ _ (postgres_iff env) (
              append_iff _ _ _ _ (auth_iff ps env) (
                append_iff _ _ _ _ (broker_iff env) (
                  append_iff _ _ _ _ (payment_iff env)
                    (append-nil_iff _ _ (telemetry_iff ps un env))))))))))

join-clean : (m : Checked Config) → m.1 ≡ [] → join m ≡ loaded m.0
join-clean (config, []) e = refl
join-clean (config, p ∷ ps) e = absurd (cc)

-- `Load` returns a configuration exactly for the environments in which every variable keeps its
-- rule: no problem is passed over, and no rule is stricter than the variable's own.
pub load_iff :
    (ps : Parsers) (un : Unicode) (env : Environ)
    → ((c : Config) × (load ps un env ≡ loaded c)) ↔ (environment_ok ps un env ≡ true)
unfolding load
load_iff ps un env = (
  λ (c, e). (read_config_iff ps un env).0 (join-loaded (read_config ps un env) c e).0,
  λ e. (
    (read_config ps un env).0,
    join-clean (read_config ps un env) ((read_config_iff ps un env).1 e),
  ),
)
