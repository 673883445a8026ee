-- ===== src/Tests/Configs.antt =====
-- A configuration that is accepted.
use enterprise_rag.Prelude.{false, [], codes, ◌≡◌, ◌↔◌, inl, arith, refl}
use enterprise_rag.Prelude.Int.{ℤ}
use enterprise_rag.Exec.{ok}
use enterprise_rag.Runes.{trim_space, is_space, has_prefix, text_eq}
use enterprise_rag.Config.{
  Config, Environment, load, apply_runtime_overrides, override_texts, overridden, with_number,
  trimmed, without_slashes, byte_length,
}
use enterprise_rag.Config.Checked.{IsAcceptable, load_iff}

abbrev environment : Environment
environment = record { getenv = λ name. []; atoi = λ t. ok (ℤ.pos 1); lower = λ c. c }

abbrev sample : Config
sample = record {
  postgres_data_source = codes "dsn";
  postgres_max_conns = ℤ.pos 10;
  postgres_min_conns = ℤ.pos 0;
  postgres_lifetime_minutes = ℤ.pos 30;
  postgres_idle_minutes = ℤ.pos 5;
  postgres_health_seconds = ℤ.pos 30;
  redis_host = codes "redis";
  redis_password = codes "0123456789abcdef";
  redis_db = ℤ.pos 0;
  nats_url = codes "nats";
  minio_endpoint = codes "minio";
  minio_access_key = codes "key";
  minio_secret_key = codes "secret";
  milvus_address = codes "milvus";
  agent_url = codes "http://agent";
  agent_token = codes "0123456789abcdef";
  agent_timeout_seconds = ℤ.pos 90;
  embedding_base_url = codes "http://model";
  embedding_provider = codes "openai";
  auth_secret = codes "0123456789abcdef0123456789abcdef";
  telemetry_endpoint = [];
  metrics_enabled = false;
  metrics_path = codes "/metrics";
  chunking_version = codes "v1";
  worker_task_timeout = ℤ.pos 60;
  worker_shutdown_timeout = ℤ.pos 30;
  period_seconds = ℤ.pos 60;
  chat_quota = ℤ.pos 10;
  retrieval_quota = ℤ.pos 10;
  upload_quota = ℤ.pos 10;
}

-- The agent's timeout is not set.
abbrev without_timeout : Config
without_timeout = record sample { agent_timeout_seconds = ℤ.pos 0 }

no_overrides : apply_runtime_overrides environment without_timeout ≡ ok without_timeout
unfolding apply_runtime_overrides override_texts overridden with_number trim_space is_space
no_overrides = refl

load_iff_example : (load environment without_timeout ≡ ok sample) ↔ (
    IsAcceptable (trimmed environment without_timeout)
    × (sample ≡ record (trimmed environment without_timeout) { agent_timeout_seconds = ℤ.pos 90 }))
unfolding trimmed
load_iff_example = load_iff environment without_timeout without_timeout sample no_overrides

-- The sample is acceptable, so that it is accepted.
sample-IsAcceptable : IsAcceptable (trimmed environment without_timeout)
unfolding trimmed without_slashes byte_length trim_space is_space has_prefix text_eq
sample-IsAcceptable = record {
  metrics = inl refl;
  agent_url = λ e. cc;
  agent_token = omega arith;
  auth_secret = omega arith;
  redis_host = λ e. cc;
  redis_password = omega arith;
  task_timeout = (59, refl);
  shutdown_timeout = (29, refl);
  period = (59, refl);
  chat = (9, refl);
  retrieval = (9, refl);
  upload = (9, refl);
  max_conns = (9, refl);
  conns = (0, (10, (refl, refl)));
  lifetime = (29, refl);
  idle = (4, refl);
  health = (29, refl);
}

accepted : load environment without_timeout ≡ ok sample
unfolding trimmed without_slashes trim_space is_space
accepted =
    (load_iff environment without_timeout without_timeout sample no_overrides).1
      (sample-IsAcceptable, refl)
