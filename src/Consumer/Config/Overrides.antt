-- ===== src/Consumer/Config/Overrides.antt =====
-- What the environment makes of a configuration of pkg/consumer/config.go.
use flowctl_sdk.Base.{ℕ, ◌≡◌, ◌≤◌, ◌<◌, ◌^◌, Bool, true, false, none, String, ◌↔◌, arith}
use flowctl_sdk.Consumer.Config.{
  Config, Environment, text_override, int_override, duration_override, flag_override, name_override,
  apply_env_overrides, validate,
}

module _ (w : Environment) where
  text_override_idem :
      (key old : String) → text_override w key (text_override w key old) ≡ text_override w key old
  unfolding text_override
  text_override_idem key old = ground arith

  int_override_idem :
      (key : String) (old : ℕ)
      → int_override w key (int_override w key old) ≡ int_override w key old
  unfolding int_override
  int_override_idem key old = ground arith

  duration_override_idem :
      (key : String) (old : ℕ)
      → duration_override w key (duration_override w key old) ≡ duration_override w key old
  unfolding duration_override
  duration_override_idem key old = ground arith

  flag_override_idem :
      (key text : String) (v old : Bool)
      → flag_override w key text v (flag_override w key text v old) ≡ flag_override w key text v old
  unfolding flag_override
  flag_override_idem key text v old = ground arith

  name_override_idem : (old : String) → name_override w (name_override w old) ≡ name_override w old
  unfolding name_override
  name_override_idem old = ground arith

  -- Applying the environment a second time changes nothing.
  pub overrides_idem :
      (c : Config) → apply_env_overrides w (apply_env_overrides w c) ≡ apply_env_overrides w c
  unfolding apply_env_overrides
  overrides_idem c = λ i. record c {
    consumer = record c.consumer { name = name_override_idem c.consumer.name i };
    database = record c.database {
      host = text_override_idem "POSTGRES_HOST" c.database.host i;
      port = int_override_idem "POSTGRES_PORT" c.database.port i;
      database = text_override_idem "POSTGRES_DB" c.database.database i;
      user = text_override_idem "POSTGRES_USER" c.database.user i;
      password = text_override_idem "POSTGRES_PASSWORD" c.database.password i;
      ssl_mode = text_override_idem "POSTGRES_SSLMODE" c.database.ssl_mode i;
      max_open_conns = int_override_idem "POSTGRES_MAX_OPEN_CONNS" c.database.max_open_conns i;
      max_idle_conns = int_override_idem "POSTGRES_MAX_IDLE_CONNS" c.database.max_idle_conns i;
    };
    flowctl = record c.flowctl {
      enabled = flag_override_idem "ENABLE_FLOWCTL" "true" true c.flowctl.enabled i;
      endpoint = text_override_idem "FLOWCTL_ENDPOINT" c.flowctl.endpoint i;
      heartbeat_interval =
          duration_override_idem "FLOWCTL_HEARTBEAT_INTERVAL" c.flowctl.heartbeat_interval i;
    };
    batch = record c.batch {
      enabled = flag_override_idem "ENABLE_BATCHING" "true" true c.batch.enabled i;
      size = int_override_idem "BATCH_SIZE" c.batch.size i;
    };
    metrics = record c.metrics {
      enabled = flag_override_idem "ENABLE_METRICS" "false" false c.metrics.enabled i;
    };
  }

-- Validate accepts exactly the configurations whose database port is one, whose connection limits are
-- not negative, and whose batches, where these are enabled, have a positive size.
pub validate_ok_iff :
    (decimal : ℕ → String) (c : Config)
    → (validate decimal c ≡ none) ↔ (
        (0 < c.database.port)
        × (c.database.port ≤ 65535)
        × (c.database.max_open_conns < 2 ^ 63)
        × (c.database.max_idle_conns < 2 ^ 63)
        × (c.batch.enabled ≡ true → (0 < c.batch.size) × (c.batch.size < 2 ^ 63)))
unfolding validate
validate_ok_iff decimal c = (λ h. ground arith, λ h. ground arith)
