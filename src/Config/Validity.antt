-- ===== src/Config/Validity.antt =====
-- What a configuration that internal/platform/config/config.go accepts is like.
use booking_concurrent.Common.{
  Bool, true, false, ◌&&◌, ◌||◌, not, ◌≡◌, ◌≢◌, refl, [], ◌∷◌, Text, text_eq, bytes, ltb, length,
  arith, ℤ, pos, int_lt, ap, subst,
}
use booking_concurrent.Domain.Booking.{Unicode}
use booking_concurrent.Domain.User.{has_byte}
use booking_concurrent.Config.Problems.{
  Environ, Checked, Parsers, is_empty, is_one_of, duration, int_in_range, no_problems,
  int_in_range-bounds,
}
use booking_concurrent.Config.Settings.{Http, Redis, Postgres, Auth, Payment, Config, is_production}
use booking_concurrent.Config.Load.{
  has_prefix, load_env, load_http, load_redis, load_postgres, load_auth, load_broker, load_payment,
  read_config, load, Loaded, loaded, refused, join,
}

abbrev pub IsPositive : ℤ → Type 0
IsPositive n = int_lt n (pos 1) ≡ false

abbrev pub IsBetween : ℤ → ℤ → ℤ → Type 0
IsBetween min max n = (int_lt n min || int_lt max n) ≡ false

pub record IsHttp (h : Http) : Type 0 where
  pub address : has_byte b':' h.addr ≡ true
  pub read : IsPositive h.read_timeout
  pub write : IsPositive h.write_timeout
  pub shutdown : IsPositive h.shutdown_timeout

pub record IsRedis (r : Redis) : Type 0 where
  pub address : r.addr ≢ []
  pub db : IsBetween (pos 0) (pos 15) r.db
  pub ttl : IsPositive r.hold_ttl

pub record IsPostgres (p : Postgres) : Type 0 where
  pub host : p.host ≢ []
  pub port : IsBetween (pos 1) (pos 65535) p.port
  pub user : p.user ≢ []
  pub password : p.password ≢ []
  pub database : p.database ≢ []

pub record IsAuth (env : Text) (a : Auth) : Type 0 where
  pub secret : a.jwt_secret ≢ []
  pub long : (is_production env && ltb (length a.jwt_secret) 32) ≡ false
  pub access : IsPositive a.access_token_ttl
  pub refresh : IsPositive a.refresh_token_ttl

-- The secrets of the provider that is chosen, and no others.
pub record IsPayment (p : Payment) : Type 0 where
  pub provider : (text_eq p.provider (bytes "fake") || text_eq p.provider (bytes "stripe")) ≡ true
  pub fake_secret : is_empty p.fake_webhook_secret ≡ not (text_eq p.provider (bytes "fake"))
  pub stripe_key : is_empty p.stripe_secret_key ≡ not (text_eq p.provider (bytes "stripe"))
  pub stripe_secret : is_empty p.stripe_webhook_secret ≡ not (text_eq p.provider (bytes "stripe"))

abbrev pub has_amqp_scheme : Text → Bool
has_amqp_scheme url = has_prefix (bytes "amqp://") url || has_prefix (bytes "amqps://") url

abbrev pub is_deployment : Text → Bool
is_deployment env = is_one_of env (bytes "development" ∷ bytes "production" ∷ bytes "test" ∷ [])

load_env_lem : (env : Environ) → (load_env env).1 ≡ [] → is_deployment (load_env env).0 ≡ true
unfolding load_env
load_env_lem env e = ground arith

load_broker_lem :
    (env : Environ) → (load_broker env).1 ≡ [] → has_amqp_scheme (load_broker env).0 ≡ true
unfolding load_broker
load_broker_lem env e = ground arith

load_http-IsHttp :
    (ps : Parsers) (env : Environ) → (load_http ps env).1 ≡ [] → IsHttp (load_http ps env).0
unfolding load_http has_byte duration
load_http-IsHttp ps env e = record {
  address = ground arith;
  read = ground arith;
  write = ground arith;
  shutdown = ground arith;
}

load_redis-IsRedis :
    (ps : Parsers) (env : Environ) → (load_redis ps env).1 ≡ [] → IsRedis (load_redis ps env).0
unfolding load_redis duration int_in_range
load_redis-IsRedis ps env e = record {
  address = ground arith;
  db = ground arith;
  ttl = ground arith;
}

load_postgres-IsPostgres :
    (env : Environ) → (load_postgres env).1 ≡ [] → IsPostgres (load_postgres env).0
unfolding load_postgres int_in_range
load_postgres-IsPostgres env e = record {
  host = ground arith;
  port = ground arith;
  user = ground arith;
  password = ground arith;
  database = ground arith;
}

load_auth-IsAuth :
    (ps : Parsers) (env : Environ) (deployment : Text)
    → (load_auth ps env deployment).1 ≡ []
    → IsAuth deployment (load_auth ps env deployment).0
unfolding load_auth duration
load_auth-IsAuth ps env deployment e = record {
  secret = ground arith;
  long = ground arith;
  access = ground arith;
  refresh = ground arith;
}

load_payment-IsPayment :
    (env : Environ) → (load_payment env).1 ≡ [] → IsPayment (load_payment env).0
unfolding load_payment
load_payment-IsPayment env e = record {
  provider = ground arith;
  fake_secret = ground arith;
  stripe_key = ground arith;
  stripe_secret = ground arith;
}

-- What the rest of the program may rely on.
pub record IsValid (c : Config) : Type 0 where
  pub env : is_deployment c.env ≡ true
  pub http : IsHttp c.http
  pub redis : IsRedis c.redis
  pub max_holds : IsBetween (pos 1) (pos 100) c.max_active_holds
  pub postgres : IsPostgres c.postgres
  pub auth : IsAuth c.env c.auth
  pub broker : has_amqp_scheme c.broker_url ≡ true
  pub payment : IsPayment c.payment

read_config-IsValid :
    (ps : Parsers) (un : Unicode) (env : Environ)
    → (read_config ps un env).1 ≡ []
    → IsValid (read_config ps un env).0
unfolding read_config
read_config-IsValid ps un env e =
    let (deployment, e1) = no_problems _ _ e in
    let (http, e2) = no_problems _ _ e1 in
    let (_, e3) = no_problems _ _ e2 in
    let (redis, e4) = no_problems _ _ e3 in
    let (_, e5) = no_problems _ _ e4 in
    let (postgres, e6) = no_problems _ _ e5 in
    let (auth, e7) = no_problems _ _ e6 in
    let (broker, e8) = no_problems _ _ e7 in
    let (payment, _) = no_problems _ _ e8 in
    record {
      env = load_env_lem env deployment;
      http = load_http-IsHttp ps env http;
      redis = load_redis-IsRedis ps env redis;
      max_holds = int_in_range-bounds env (bytes "MAX_ACTIVE_HOLDS") (pos 4) (pos 1) (pos 100) refl;
      postgres = load_postgres-IsPostgres env postgres;
      auth = load_auth-IsAuth ps env (load_env env).0 auth;
      broker = load_broker_lem env broker;
      payment = load_payment-IsPayment env payment;
    }

pub join-loaded : (m : Checked Config) (c : Config) → join m ≡ loaded c → (m.1 ≡ []) × (m.0 ≡ c)
join-loaded (config, []) c e = (refl, ap config_of e)
  where
    config_of : Loaded → Config
    config_of (loaded x) = x
    config_of (refused _) = c
join-loaded (config, p ∷ ps) c e = absurd (cc)

-- A configuration that `Load` returns has every address, credential and secret that the process
-- needs, positive timeouts and lifetimes, a port, a database number and a limit of holds in their
-- ranges, a signing secret of 32 bytes in production, and the secrets of the chosen provider only.
pub load-IsValid :
    (ps : Parsers) (un : Unicode) (env : Environ) (c : Config)
    → load ps un env ≡ loaded c
    → IsValid c
unfolding load
load-IsValid ps un env c e =
    let (clean, same) = join-loaded (read_config ps un env) c e in
    subst IsValid same (read_config-IsValid ps un env clean)
