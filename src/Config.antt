-- ===== src/Config.antt =====
-- internal/config/config.go: the configuration from the environment. A panic at boot is `none`. The
-- check of the fields' tags (go-playground/validator) and the reading of durations are parameters;
-- a duration is a number of nanoseconds.
use go_commerce.Base.{
  ℕ, ◌*◌, Bool, true, false, not, ◌&&◌, ◌||◌, Option, none, some, List, [], ◌∷◌, ◌++◌, ◌==◌, ltb,
  if◌then◌else◌, length,
}
use go_commerce.Base.Int.{ℤ, pos, ltb_ℤ}
use go_commerce.Base.Text.{Text, codes, text_eq, is_empty, trim_space}
use go_commerce.Base.Digits.{atoi, parse_bool, is_one_of}
pub mod Hardened

pub record Config : Type 0 where
  pub app_env : Text
  pub app_port : Text
  pub api_key : Text
  pub log_level : Text
  pub db_host : Text
  pub db_port : Text
  pub db_user : Text
  pub db_password : Text
  pub db_name : Text
  pub db_ssl_mode : Text
  pub redis_addr : Text
  pub redis_password : Text
  pub redis_db : ℤ
  pub kafka_brokers : List Text
  pub kafka_topic_products : Text
  pub kafka_topic_dlq : Text
  pub kafka_group_worker : Text
  pub kafka_group_notifier : Text
  pub mongo_uri : Text
  pub mongo_db : Text
  pub typesense_addr : Text
  pub typesense_api_key : Text
  pub otel_enabled : Bool
  pub otel_endpoint : Text
  pub jwt_secret : Text
  pub jwt_access_ttl : ℤ
  pub jwt_refresh_ttl : ℤ
  pub bcrypt_cost : ℤ
  pub product_cache_ttl : ℤ
  pub rate_limit_max : ℤ
  pub rate_limit_window : ℤ
  pub request_timeout : ℤ
  pub shutdown_timeout : ℤ
  pub cors_origins : List Text
  pub enable_hsts : Bool
  pub order_hold_ttl : ℤ
  pub metrics_port : Text

-- `os.Getenv`: an unset variable is empty.
abbrev pub Environment : Type 0
Environment = Text → Text

abbrev pub nonempty_or : Text → Text → Text
nonempty_or [] fallback = fallback
nonempty_or (c ∷ v) fallback = c ∷ v

-- `env`
unfoldable pub env_text : Environment → Text → Text → Text
env_text e key fallback = nonempty_or (e key) fallback

abbrev pub or_else : {A : Type 0} → Option A → A → A
or_else none fallback = fallback
or_else (some a) fallback = a

-- `envInt`: the empty text is no number either.
unfoldable pub env_int : Environment → Text → ℤ → ℤ
unfolding atoi
env_int e key fallback = if is_empty (e key) then fallback else or_else (atoi (e key)) fallback

unfoldable pub env_bool : Environment → Text → Bool → Bool
unfolding parse_bool
env_bool e key fallback =
    if is_empty (e key) then fallback else or_else (parse_bool (e key)) fallback

-- `strings.Split(v, ",")`, with the part that is being read in front.
abbrev pub split_commas : Text → List Text
split_commas [] = [] ∷ []
split_commas (c ∷ v) = elim (split_commas v) [
  | [] ↦ []
  | part ∷ parts ↦ if c == b',' then [] ∷ part ∷ parts else (c ∷ part) ∷ parts
]

abbrev pub kept_parts : List Text → List Text
unfolding trim_space
kept_parts [] = []
kept_parts (part ∷ parts) =
    if is_empty (trim_space part) then kept_parts parts else trim_space part ∷ kept_parts parts

-- `envList`
unfoldable pub env_list : Environment → Text → Text → List Text
unfolding trim_space
env_list e key fallback = kept_parts (split_commas (nonempty_or (e key) fallback))

unfoldable pub is_production : Config → Bool
unfolding text_eq
is_production c = text_eq c.app_env (codes "production")

unfoldable pub postgres_dsn : Config → Text
postgres_dsn c =
    codes "host="
    ++ (c.db_host
        ++ (codes " user="
            ++ (c.db_user
                ++ (codes " password="
                    ++ (c.db_password
                        ++ (codes " dbname="
                            ++ (c.db_name
                                ++ (codes " port="
                                    ++ (c.db_port
                                        ++ (codes " sslmode="
                                            ++ (c.db_ssl_mode
                                                ++ codes " TimeZone=Asia/Jakarta")))))))))))

abbrev pub default_secret : Text
default_secret = codes "dev-secret-change-me"

abbrev pub bad_api_key : Config → Bool
unfolding text_eq
bad_api_key c =
    is_empty c.api_key || is_one_of c.api_key (codes "dev-api-key" ∷ codes "change-me" ∷ [])

abbrev pub bad_secret : Config → Bool
unfolding text_eq
bad_secret c = ltb (length c.jwt_secret) 16 || text_eq c.jwt_secret default_secret

abbrev pub has_wildcard : List Text → Bool
unfolding text_eq
has_wildcard [] = false
has_wildcard (o ∷ os) = text_eq o (codes "*") || has_wildcard os

-- The panics and the floor of the cost in production.
unfoldable pub harden : Config → Option Config
unfolding text_eq
harden c =
    if bad_api_key c || bad_secret c || has_wildcard c.cors_origins
    then none
    else some (if ltb_ℤ c.bcrypt_cost (pos 12) then record c { bcrypt_cost = pos 12 } else c)

abbrev pub seconds : ℕ → ℤ
seconds n = pos (n * 1000000000)

module _ (parse_duration : Text → Option ℤ) (is_valid : Config → Bool) where
  unfoldable pub env_duration : Environment → Text → ℤ → ℤ
  env_duration e key fallback =
      if is_empty (e key) then fallback else or_else (parse_duration (e key)) fallback

  unfoldable pub read_config : Environment → Config
  unfolding env_text env_int env_bool env_list env_duration
  read_config e = record {
    app_env = env_text e (codes "APP_ENV") (codes "development");
    app_port = env_text e (codes "APP_PORT") (codes "8080");
    api_key = env_text e (codes "API_KEY") (codes "dev-api-key");
    log_level = env_text e (codes "LOG_LEVEL") (codes "info");
    db_host = env_text e (codes "DB_HOST") (codes "localhost");
    db_port = env_text e (codes "DB_PORT") (codes "5432");
    db_user = env_text e (codes "DB_USER") (codes "postgres");
    db_password = env_text e (codes "DB_PASSWORD") (codes "postgres");
    db_name = env_text e (codes "DB_NAME") (codes "golang_be");
    db_ssl_mode = env_text e (codes "DB_SSLMODE") (codes "disable");
    redis_addr = env_text e (codes "REDIS_ADDR") (codes "localhost:6379");
    redis_password = env_text e (codes "REDIS_PASSWORD") [];
    redis_db = env_int e (codes "REDIS_DB") (pos 0);
    kafka_brokers = env_list e (codes "KAFKA_BROKERS") (codes "localhost:9092");
    kafka_topic_products = env_text e (codes "KAFKA_TOPIC_PRODUCTS") (codes "products.events");
    kafka_topic_dlq = env_text e (codes "KAFKA_TOPIC_DLQ") (codes "products.events.dlq");
    kafka_group_worker = env_text e (codes "KAFKA_GROUP_WORKER") (codes "golang-be-worker");
    kafka_group_notifier = env_text e (codes "KAFKA_GROUP_NOTIFIER") (codes "golang-be-notifier");
    mongo_uri = env_text e (codes "MONGO_URI") (codes "mongodb://localhost:27017");
    mongo_db = env_text e (codes "MONGO_DB") (codes "golang_be_audit");
    typesense_addr = env_text e (codes "TYPESENSE_ADDR") (codes "http://typesense:8108");
    typesense_api_key = env_text e (codes "TYPESENSE_API_KEY") (codes "dev-typesense-key");
    otel_enabled = env_bool e (codes "OTEL_ENABLED") false;
    otel_endpoint = env_text e (codes "OTEL_EXPORTER_OTLP_ENDPOINT") (codes "localhost:4317");
    jwt_secret = env_text e (codes "JWT_SECRET") default_secret;
    jwt_access_ttl = env_duration e (codes "JWT_ACCESS_TTL") (seconds 900);
    jwt_refresh_ttl = env_duration e (codes "JWT_REFRESH_TTL") (seconds 604800);
    bcrypt_cost = env_int e (codes "BCRYPT_COST") (pos 10);
    product_cache_ttl = env_duration e (codes "PRODUCT_CACHE_TTL") (seconds 300);
    rate_limit_max = env_int e (codes "RATE_LIMIT_MAX") (pos 100);
    rate_limit_window = env_duration e (codes "RATE_LIMIT_WINDOW") (seconds 60);
    request_timeout = env_duration e (codes "REQUEST_TIMEOUT") (seconds 10);
    shutdown_timeout = env_duration e (codes "SHUTDOWN_TIMEOUT") (seconds 15);
    cors_origins = env_list e (codes "CORS_ORIGINS") (codes "*");
    enable_hsts = env_bool e (codes "ENABLE_HSTS") false;
    order_hold_ttl = env_duration e (codes "ORDER_HOLD_TTL") (seconds 900);
    metrics_port = env_text e (codes "METRICS_PORT") (codes "2112");
  }

  -- What `Load` does with the configuration that it has read.
  unfoldable pub checked : Config → Option Config
  unfolding is_production harden
  checked c = if is_valid c then (if is_production c then harden c else some c) else none

  unfoldable pub load : Environment → Option Config
  unfolding read_config checked
  load e = checked (read_config e)
