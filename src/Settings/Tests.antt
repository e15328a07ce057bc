-- ===== src/Settings/Tests.antt =====
-- The configuration of a concrete environment.
use metrics_agent.Prelude.{
  ◌*◌, ◌^◌, ◌≤◌, ◌<◌, ◌≡◌, ◌≢◌, ◌↔◌, refl, true, [], none, some, arith, codes, Bytes, equal,
  if◌then◌else◌,
}
use metrics_agent.Data.{Config, level_warn, pos}
use metrics_agent.Settings.{
  milliseconds, System, ok, in_range, int_setting, ms_setting, flag_of, flag_setting, level_of,
  level_setting, env_or, credential_known, checked, load_config,
}
use metrics_agent.Settings.Accepted.{Accepted, load_config_iff}
use metrics_agent.Settings.Limits.{Limits, with_grace, load_config-Limits, load_config-grace}

abbrev env : Bytes → Bytes
env n =
    if equal n (codes "MESH0_API_KEY")
    then codes "k1"
    else if equal n (codes "MESH0_MAX_BATCH")
    then codes "100"
    else if equal n (codes "MESH0_REQUIRE_PROJECT")
    then codes "true"
    else if equal n (codes "MESH0_LOG_LEVEL")
    then codes "warn"
    else if equal n (codes "MESH0_SHUTDOWN_GRACE_MS")
    then codes "10000000000000"
    else []

abbrev sys : System
sys = record {
  getenv = env;
  atoi = λ v.
      if equal v (codes "100")
      then some (pos 100)
      else if equal v (codes "10000000000000")
      then some (pos 10_000_000_000_000)
      else none;
}

abbrev loaded : Config
loaded = record {
  api_key = codes "k1";
  keys_file = [];
  gateway_url = codes "https://api.mesh0.ai";
  events_path = codes "/v1/events";
  listen_path = codes "/run/mesh0/agent.sock";
  health_addr = codes ":8126";
  batch_window = 200_000_000;
  max_batch = 100;
  max_event_bytes = 1_048_576;
  queue_size = 2_000;
  max_retries = 4;
  shutdown_grace = 10_000_000_000_000_000_000;
  log_level = level_warn;
  max_projects = 0;
  keys_poll_interval = 30_000_000_000;
  require_project = true;
  inline_tokens = true;
  inline_idle = 900_000_000_000;
}

load_config_ok : load_config sys ≡ ok loaded
unfolding load_config checked level_setting level_of flag_setting flag_of int_setting ms_setting
    in_range env_or credential_known equal
load_config_ok = refl

grace_given : codes "10000000000000" ≢ []
grace_given e = cc

grace_read : sys.atoi (codes "10000000000000") ≡ some (pos 10_000_000_000_000)
unfolding equal
grace_read = refl

grace_low : 2 ^ 63 ≤ 10_000_000_000_000 * 1_000_000
grace_low = omega arith

grace_high : 10_000_000_000_000 * 1_000_000 < 2 ^ 64
grace_high = omega arith

load_config_iff_example : load_config sys ≡ ok loaded ↔ Accepted sys loaded
load_config_iff_example = load_config_iff sys loaded

load_config-Limits_example : Limits loaded
load_config-Limits_example = load_config-Limits sys loaded load_config_ok

load_config-grace_example :
    (load_config (with_grace (codes "10000000000000") sys)
      ≡ ok (record loaded { shutdown_grace = milliseconds 10_000_000_000_000 }))
    × (2 ^ 63 ≤ milliseconds 10_000_000_000_000)
load_config-grace_example =
    load_config-grace sys loaded (codes "10000000000000") 10_000_000_000_000 load_config_ok
      grace_given grace_read grace_low grace_high
