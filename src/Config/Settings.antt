-- ===== src/Config/Settings.antt =====
-- The configuration record of internal/platform/config/config.go, and `DSN`.
use booking_concurrent.Common.{Bool, ℤ, Text, text_eq, bytes, ◌++◌}
use booking_concurrent.Common.Decimal.{itoa}
use booking_concurrent.Config.Problems.{Level}

pub record Http : Type 0 where
  pub addr : Text
  pub read_timeout : ℤ
  pub write_timeout : ℤ
  pub shutdown_timeout : ℤ

pub record Redis : Type 0 where
  pub addr : Text
  pub password : Text
  pub db : ℤ
  pub hold_ttl : ℤ

pub record Postgres : Type 0 where
  pub host : Text
  pub port : ℤ
  pub user : Text
  pub password : Text
  pub database : Text
  pub ssl_mode : Text

pub record Auth : Type 0 where
  pub jwt_secret : Text
  pub access_token_ttl : ℤ
  pub refresh_token_ttl : ℤ

pub record Payment : Type 0 where
  pub provider : Text
  pub fake_webhook_secret : Text
  pub stripe_secret_key : Text
  pub stripe_webhook_secret : Text

pub record Telemetry : Type 0 where
  pub enabled : Bool
  pub otlp_endpoint : Text

pub record Config : Type 0 where
  pub env : Text
  pub service_name : Text
  pub http : Http
  pub log_level : Level
  pub redis : Redis
  pub max_active_holds : ℤ
  pub postgres : Postgres
  pub auth : Auth
  pub broker_url : Text
  pub payment : Payment
  pub telemetry : Telemetry

abbrev pub is_production : Text → Bool
is_production env = text_eq env (bytes "production")

unfoldable pub dsn : Postgres → Text
dsn p =
    bytes "host="
    ++ (p.host
        ++ (bytes " port="
            ++ (itoa p.port
                ++ (bytes " user="
                    ++ (p.user
                        ++ (bytes " password="
                            ++ (p.password
                                ++ (bytes " dbname="
                                    ++ (p.database ++ (bytes " sslmode=" ++ p.ssl_mode))))))))))
