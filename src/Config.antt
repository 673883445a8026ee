-- ===== src/Config.antt =====
-- api/internal/config/config.go: the variables of the environment that override the files, and the
-- checks of the result. The files, YAML and `strconv.Atoi` are parameters.
pub mod Checked
use enterprise_rag.Prelude.{
  ℕ, ◌+◌, String, Bool, true, false, not, ◌&&◌, ◌||◌, List, [], ◌∷◌, ◌++◌, map, Text, codes, ◌==◌,
  leb, ltb, if◌then◌else◌,
}
use enterprise_rag.Prelude.Int.{ℤ, int_ltb, int_less}
use enterprise_rag.Runes.{trim_space, text_eq, has_prefix}
use enterprise_rag.Exec.{Error, Result, ok, err, other, error_text}
use enterprise_rag.Ratelimit.{RateLimitConf}

-- The fields that the code reads or sets.
pub record Config : Type 0 where
  pub postgres_data_source : Text
  pub postgres_max_conns : ℤ
  pub postgres_min_conns : ℤ
  pub postgres_lifetime_minutes : ℤ
  pub postgres_idle_minutes : ℤ
  pub postgres_health_seconds : ℤ
  pub redis_host : Text
  pub redis_password : Text
  pub redis_db : ℤ
  pub nats_url : Text
  pub minio_endpoint : Text
  pub minio_access_key : Text
  pub minio_secret_key : Text
  pub milvus_address : Text
  pub agent_url : Text
  pub agent_token : Text
  pub agent_timeout_seconds : ℤ
  pub embedding_base_url : Text
  pub embedding_provider : Text
  pub auth_secret : Text
  pub telemetry_endpoint : Text
  pub metrics_enabled : Bool
  pub metrics_path : Text
  pub chunking_version : Text
  pub worker_task_timeout : ℤ
  pub worker_shutdown_timeout : ℤ
  pub period_seconds : ℤ
  pub chat_quota : ℤ
  pub retrieval_quota : ℤ
  pub upload_quota : ℤ

pub record Environment : Type 0 where
  pub getenv : String → Text
  pub atoi : Text → Result ℤ
  pub lower : ℕ → ℕ

abbrev pub is_empty : Text → Bool
is_empty [] = true
is_empty (c ∷ s) = false

-- A variable that is set replaces the value.
unfoldable pub overridden : Environment → String → Text → Text
overridden env name value =
    let set = trim_space (env.getenv name) in if is_empty set then value else set

unfoldable pub override_texts : Environment → Config → Config
unfolding overridden
override_texts env c = record c {
  postgres_data_source = overridden env "RAG_POSTGRES_DSN" c.postgres_data_source;
  redis_host = overridden env "RAG_REDIS_HOST" c.redis_host;
  redis_password = overridden env "RAG_REDIS_PASSWORD" c.redis_password;
  nats_url = overridden env "RAG_NATS_URL" c.nats_url;
  minio_endpoint = overridden env "RAG_MINIO_ENDPOINT" c.minio_endpoint;
  minio_access_key = overridden env "RAG_MINIO_ACCESS_KEY" c.minio_access_key;
  minio_secret_key = overridden env "RAG_MINIO_SECRET_KEY" c.minio_secret_key;
  milvus_address = overridden env "RAG_MILVUS_ADDRESS" c.milvus_address;
  agent_url = overridden env "RAG_AGENT_URL" c.agent_url;
  embedding_base_url = overridden env "RAG_EMBEDDING_BASE_URL" c.embedding_base_url;
  auth_secret = overridden env "RAG_AUTH_SECRET" c.auth_secret;
  telemetry_endpoint = overridden env "OTEL_EXPORTER_OTLP_ENDPOINT" c.telemetry_endpoint;
}

abbrev after_atoi : String → Result ℤ → (ℤ → Result Config) → Result Config
after_atoi name (ok n) next = next n
after_atoi name (err e) next = err (
    other (
      codes "environment variable "
      ++ (codes name ++ (codes " must be an integer: " ++ error_text e))))

-- A number that is set replaces the value, and must be a number.
unfoldable pub with_number : Environment → String → ℤ → (ℤ → Result Config) → Result Config
with_number env name value next =
    let set = trim_space (env.getenv name) in
    if is_empty set then next value else after_atoi name (env.atoi set) next

unfoldable pub apply_runtime_overrides : Environment → Config → Result Config
unfolding override_texts with_number
apply_runtime_overrides env config =
    let c = override_texts env config in
    with_number env "RAG_REDIS_DB" c.redis_db λ db.
      with_number env "RAG_RATE_LIMIT_PERIOD_SECONDS" c.period_seconds λ period.
        with_number env "RAG_RATE_LIMIT_CHAT_QUOTA" c.chat_quota λ chat.
          with_number env "RAG_RATE_LIMIT_RETRIEVAL_QUOTA" c.retrieval_quota λ retrieval.
            with_number env "RAG_RATE_LIMIT_UPLOAD_QUOTA" c.upload_quota λ upload. ok (record c {
              redis_db = db;
              period_seconds = period;
              chat_quota = chat;
              retrieval_quota = retrieval;
              upload_quota = upload;
            })

abbrev or_default : Text → Text → Text
or_default value default = if is_empty value then default else value

-- `strings.TrimRight(s, "/")`.
unfoldable pub without_slashes : Text → Text
without_slashes [] = []
without_slashes (c ∷ s) =
    let rest = without_slashes s in if is_empty rest && c == b'/' then [] else c ∷ rest

-- `len` counts the bytes of UTF-8.
abbrev rune_bytes : ℕ → ℕ
rune_bytes c = if ltb c 0x80 then 1 else if ltb c 0x800 then 2 else if ltb c 0x10000 then 3 else 4

unfoldable pub byte_length : Text → ℕ
byte_length [] = 0
byte_length (c ∷ s) = rune_bytes c + byte_length s

-- The values trimmed, and the defaults of those that are empty.
unfoldable pub trimmed : Environment → Config → Config
unfolding without_slashes
trimmed env c = record c {
  metrics_path =
      if c.metrics_enabled
      then or_default (trim_space c.metrics_path) (codes "/metrics")
      else c.metrics_path;
  agent_url = without_slashes (trim_space c.agent_url);
  agent_token = trim_space c.agent_token;
  auth_secret = trim_space c.auth_secret;
  redis_host = trim_space c.redis_host;
  redis_password = trim_space c.redis_password;
  chunking_version = or_default (trim_space c.chunking_version) (codes "v1");
  embedding_provider =
      or_default (map env.lower (trim_space c.embedding_provider)) (codes "openrouter");
}

-- `return Config{}, fmt.Errorf(message)` under a condition.
abbrev pub refuse_if : Bool → Text → Result Config → Result Config
refuse_if bad message rest = if bad then err (other message) else rest

unfoldable pub bad_metrics_path : Config → Bool
unfolding has_prefix text_eq
bad_metrics_path c =
    c.metrics_enabled
    && (not (has_prefix c.metrics_path (codes "/"))
        || (text_eq c.metrics_path (codes "/") || has_prefix c.metrics_path (codes "/api/")))

unfoldable pub bad_rates : Config → Bool
bad_rates c =
    int_ltb c.period_seconds 1
    || (int_ltb c.chat_quota 1 || (int_ltb c.retrieval_quota 1 || int_ltb c.upload_quota 1))

unfoldable pub bad_pool : Config → Bool
bad_pool c =
    int_ltb c.postgres_max_conns 1
    || (int_ltb c.postgres_min_conns 0
        || (int_less c.postgres_max_conns c.postgres_min_conns
            || (int_ltb c.postgres_lifetime_minutes 1
                || (int_ltb c.postgres_idle_minutes 1 || int_ltb c.postgres_health_seconds 1))))

-- The agent's time has a default.
unfoldable pub with_timeout : Config → Config
with_timeout c = record c {
  agent_timeout_seconds =
      if int_ltb c.agent_timeout_seconds 1 then ℤ.pos 90 else c.agent_timeout_seconds;
}

unfoldable pub checked : Config → Result Config
unfolding bad_metrics_path bad_rates bad_pool byte_length with_timeout
checked c = refuse_if (bad_metrics_path c) (codes "metrics path must be an absolute non-API path") (
    refuse_if (is_empty c.agent_url) (codes "agent service URL is required") (
      refuse_if (ltb (byte_length c.agent_token) 16)
        (codes "agent service token must contain at least 16 characters")
        (refuse_if (ltb (byte_length c.auth_secret) 32)
          (codes "auth access secret must contain at least 32 characters")
          (refuse_if (is_empty c.redis_host) (codes "redis host is required") (
            refuse_if (ltb (byte_length c.redis_password) 16)
              (codes "redis password must contain at least 16 characters")
              (refuse_if (int_ltb c.worker_task_timeout 1 || int_ltb c.worker_shutdown_timeout 1)
                (codes "worker task and shutdown timeouts must be positive")
                (refuse_if (bad_rates c) (codes "rate limit values must be positive") (
                  refuse_if (bad_pool c) (codes "invalid postgres pool configuration")
                    (ok (with_timeout c))))))))))

abbrev pub after_overrides : Environment → Result Config → Result Config
after_overrides env (ok c) = checked (trimmed env c)
after_overrides env (err e) = err e

-- What `Load` does with the configuration that it has read.
unfoldable pub load : Environment → Config → Result Config
unfolding trimmed
load env c = after_overrides env (apply_runtime_overrides env c)
