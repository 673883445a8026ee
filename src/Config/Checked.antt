-- ===== src/Config/Checked.antt =====
-- Which configurations are accepted.
use enterprise_rag.Prelude.{
  ℕ, zero, suc, ◌+◌, ◌-◌, ◌≤◌, Bool, true, false, ◌||◌, [], ◌∷◌, Text, codes, ◌≡◌, ◌≢◌, ◌↔◌, ◌⊎◌,
  refl, sym, ap, ◌∙◌, arith, ltb, inl, inr, if◌then◌else◌,
}
use enterprise_rag.Prelude.Int.{ℤ, int_ltb, int_less}
use enterprise_rag.Runes.{text_eq, has_prefix}
use enterprise_rag.Exec.{Result, ok}
use enterprise_rag.Exec.Returns.{ok-injective}
use enterprise_rag.Config.{
  Config, Environment, is_empty, refuse_if, bad_metrics_path, bad_rates, bad_pool, byte_length,
  with_timeout, checked, after_overrides, apply_runtime_overrides, trimmed, load,
}

abbrev pub IsPositive : ℤ → Type 0
IsPositive x = (n : ℕ) × (x ≡ ℤ.pos (suc n))

-- The path of the metrics is absolute, has a name, and is not one of the API.
abbrev pub IsMetricsPath : Text → Type 0
IsMetricsPath path =
    (has_prefix path (codes "/") ≡ true)
    × ((text_eq path (codes "/") ≡ false) × (has_prefix path (codes "/api/") ≡ false))

-- Not less than no connection, and not more than the greatest number.
abbrev pub IsPoolRange : ℤ → ℤ → Type 0
IsPoolRange least most = (m : ℕ) × ((k : ℕ) × ((least ≡ ℤ.pos m) × (most ≡ ℤ.pos (m + k))))

-- What the code asks of a configuration, in numbers.
pub record IsAcceptable (c : Config) : Type 0 where
  pub metrics : (c.metrics_enabled ≡ false) ⊎ IsMetricsPath c.metrics_path
  pub agent_url : c.agent_url ≢ []
  pub agent_token : 16 ≤ byte_length c.agent_token
  pub auth_secret : 32 ≤ byte_length c.auth_secret
  pub redis_host : c.redis_host ≢ []
  pub redis_password : 16 ≤ byte_length c.redis_password
  pub task_timeout : IsPositive c.worker_task_timeout
  pub shutdown_timeout : IsPositive c.worker_shutdown_timeout
  pub period : IsPositive c.period_seconds
  pub chat : IsPositive c.chat_quota
  pub retrieval : IsPositive c.retrieval_quota
  pub upload : IsPositive c.upload_quota
  pub max_conns : IsPositive c.postgres_max_conns
  pub conns : IsPoolRange c.postgres_min_conns c.postgres_max_conns
  pub lifetime : IsPositive c.postgres_lifetime_minutes
  pub idle : IsPositive c.postgres_idle_minutes
  pub health : IsPositive c.postgres_health_seconds

positive : (x : ℤ) → int_ltb x 1 ≡ false → IsPositive x
positive (ℤ.pos zero) h = cc
positive (ℤ.pos (suc n)) h = (n, refl)
positive (ℤ.negsuc n) h = cc

positive_passes : (x : ℤ) → IsPositive x → int_ltb x 1 ≡ false
positive_passes x (n, e) = ap (λ y. int_ltb y 1) e ∙ above n
  where
    above : (n : ℕ) → ltb (suc n) 1 ≡ false
    above n = ground arith

range :
    (least most : ℤ)
    → int_ltb least 0 ≡ false
    → int_less most least ≡ false
    → IsPoolRange least most
range (ℤ.pos m) (ℤ.pos n) h k = (m, (n - m, (refl, ap ℤ.pos (ground arith))))
range (ℤ.pos m) (ℤ.negsuc n) h k = cc
range (ℤ.negsuc m) most h k = cc

range_passes :
    (least most : ℤ)
    → IsPoolRange least most
    → (int_ltb least 0 ≡ false) × (int_less most least ≡ false)
range_passes least most (m, (k, (e, e'))) = (
  ap (λ x. int_ltb x 0) e ∙ above m,
  ap (λ x. int_less x least) e' ∙ ap (int_less (ℤ.pos (m + k))) e ∙ behind m k,
)
  where
    above : (m : ℕ) → ltb m 0 ≡ false
    above m = ground arith

    behind : (m k : ℕ) → ltb (m + k) m ≡ false
    behind m k = ground arith

filled : (t : Text) → is_empty t ≡ false → t ≢ []
filled t h e = cc (ap is_empty e)

filled_passes : (t : Text) → t ≢ [] → is_empty t ≡ false
filled_passes [] h = absurd (h refl)
filled_passes (c ∷ t) h = refl

passed :
    (bad : Bool) (message : Text) (rest : Result Config) (c : Config)
    → refuse_if bad message rest ≡ ok c
    → (bad ≡ false) × (rest ≡ ok c)
passed true message rest c h = cc
passed false message rest c h = (refl, h)

-- The conditions of the code, none of which refuses.
record Passes (c : Config) : Type 0 where
  metrics : bad_metrics_path c ≡ false
  url : is_empty c.agent_url ≡ false
  token : ltb (byte_length c.agent_token) 16 ≡ false
  secret : ltb (byte_length c.auth_secret) 32 ≡ false
  host : is_empty c.redis_host ≡ false
  password : ltb (byte_length c.redis_password) 16 ≡ false
  times : (int_ltb c.worker_task_timeout 1 || int_ltb c.worker_shutdown_timeout 1) ≡ false
  rates : bad_rates c ≡ false
  pool : bad_pool c ≡ false

checked-Passes : (c d : Config) → checked c ≡ ok d → Passes c × (with_timeout c ≡ d)
unfolding checked
checked-Passes c d h0 =
    let (metrics, h1) = passed (bad_metrics_path c) _ _ d h0 in
    let (url, h2) = passed (is_empty c.agent_url) _ _ d h1 in
    let (token, h3) = passed (ltb (byte_length c.agent_token) 16) _ _ d h2 in
    let (secret, h4) = passed (ltb (byte_length c.auth_secret) 32) _ _ d h3 in
    let (host, h5) = passed (is_empty c.redis_host) _ _ d h4 in
    let (password, h6) = passed (ltb (byte_length c.redis_password) 16) _ _ d h5 in
    let times_bad = int_ltb c.worker_task_timeout 1 || int_ltb c.worker_shutdown_timeout 1 in
    let (times, h7) = passed times_bad _ _ d h6 in
    let (rates, h8) = passed (bad_rates c) _ _ d h7 in
    let (pool, h9) = passed (bad_pool c) _ _ d h8 in
    let passes : Passes c = record {
      metrics = metrics;
      url = url;
      token = token;
      secret = secret;
      host = host;
      password = password;
      times = times;
      rates = rates;
      pool = pool;
    } in
    (passes, ok-injective (with_timeout c) d h9)

Passes-checked : (c : Config) → Passes c → checked c ≡ ok (with_timeout c)
unfolding checked
Passes-checked c p =
    rw (p.metrics, p.url, p.token, p.secret, p.host, p.password, p.times, p.rates, p.pool) refl

Passes-IsAcceptable : (c : Config) → Passes c → IsAcceptable c
unfolding bad_metrics_path bad_rates bad_pool
Passes-IsAcceptable c p =
    let metrics = p.metrics in
    let times = p.times in
    let rates = p.rates in
    let pool = p.pool in
    record {
      metrics = ground arith;
      agent_url = filled c.agent_url p.url;
      agent_token = ground (arith, p.token);
      auth_secret = ground (arith, p.secret);
      redis_host = filled c.redis_host p.host;
      redis_password = ground (arith, p.password);
      task_timeout = positive c.worker_task_timeout (ground arith);
      shutdown_timeout = positive c.worker_shutdown_timeout (ground arith);
      period = positive c.period_seconds (ground arith);
      chat = positive c.chat_quota (ground arith);
      retrieval = positive c.retrieval_quota (ground arith);
      upload = positive c.upload_quota (ground arith);
      max_conns = positive c.postgres_max_conns (ground arith);
      conns = range c.postgres_min_conns c.postgres_max_conns (ground arith) (ground arith);
      lifetime = positive c.postgres_lifetime_minutes (ground arith);
      idle = positive c.postgres_idle_minutes (ground arith);
      health = positive c.postgres_health_seconds (ground arith);
    }

IsAcceptable-Passes : (c : Config) → IsAcceptable c → Passes c
unfolding bad_metrics_path bad_rates bad_pool
IsAcceptable-Passes c a =
    let conns = range_passes c.postgres_min_conns c.postgres_max_conns a.conns in
    record {
      metrics = pathed a.metrics;
      url = filled_passes c.agent_url a.agent_url;
      token = ground (arith, a.agent_token);
      secret = ground (arith, a.auth_secret);
      host = filled_passes c.redis_host a.redis_host;
      password = ground (arith, a.redis_password);
      times = rw (positive_passes _ a.task_timeout, positive_passes _ a.shutdown_timeout) refl;
      rates =
          rw
            (
              positive_passes _ a.period,
              positive_passes _ a.chat,
              positive_passes _ a.retrieval,
              positive_passes _ a.upload,
            )
            refl;
      pool =
          rw
            (
              positive_passes _ a.max_conns,
              conns.0,
              conns.1,
              positive_passes _ a.lifetime,
              positive_passes _ a.idle,
              positive_passes _ a.health,
            )
            refl;
    }
  where
    pathed : (c.metrics_enabled ≡ false) ⊎ IsMetricsPath c.metrics_path → bad_metrics_path c ≡ false
    pathed (inl off) = rw off refl
    pathed (inr (absolute, (named, apart))) = ground arith

-- A configuration that the files and the environment give, when its overrides can be read, is
-- accepted exactly when, after the values are trimmed and the defaults set, the path of the metrics
-- is an absolute one outside of the API if they are on, there are an agent's URL and a Redis host,
-- the agent's token and the Redis password have 16 bytes at least and the secret has 32, the
-- timeouts of the workers, the period and the quotas are positive, and so are the pool's numbers
-- but the least number of connections, which is between 0 and the greatest. The result is then
-- those values, with 90 seconds for an agent's timeout that is not positive.
pub load_iff :
    (env : Environment) (c x d : Config)
    → apply_runtime_overrides env c ≡ ok x
    → (load env c ≡ ok d) ↔ (
        IsAcceptable (trimmed env x)
        × (d ≡ record (trimmed env x) {
          agent_timeout_seconds =
              if int_ltb (trimmed env x).agent_timeout_seconds 1
              then ℤ.pos 90
              else (trimmed env x).agent_timeout_seconds;
        }))
unfolding load with_timeout
load_iff env c x d h = (
  λ accepted.
      let (passes, e) =
        checked-Passes (trimmed env x) d (ap (after_overrides env) (sym h) ∙ accepted) in
      (Passes-IsAcceptable (trimmed env x) passes, sym e),
  λ (a, e).
      ap (after_overrides env) h
      ∙ Passes-checked (trimmed env x) (IsAcceptable-Passes _ a)
      ∙ ap ok (sym e),
)
