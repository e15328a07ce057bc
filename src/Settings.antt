-- ===== src/Settings.antt =====
-- `loadConfig` of main.go: the configuration from the environment. `os.Getenv` is a function from
-- names to values, with `""` for a variable that is not set, and `strconv.Atoi` is a parameter. The
-- configuration that `loadConfig` returns beside an error, which `main` discards, is left out.
mod Chosen
mod Flags
mod Accepted
mod Limits
mod Tests
use metrics_agent.Prelude.{
  ℕ, ◌*◌, ◌%◌, ◌^◌, Bool, true, false, not, ◌&&◌, ◌||◌, List, [], ◌∷◌, Option, none, some, ltb,
  if◌then◌else◌, length, Bytes, codes, equal,
}
use metrics_agent.Data.{
  ℤ, pos, negsuc, Config, LogLevel, level_debug, level_info, level_warn, level_error,
  default_max_event_bytes, min_max_event_bytes, max_max_event_bytes, max_events_per_batch,
}

-- The result of `strconv.Atoi` where it gives no error is a `ℤ`.
pub record System : Type 0 where
  pub getenv : Bytes → Bytes
  pub atoi : Bytes → Option ℤ

-- The variable that an error message names.
pub data ConfigError : Type 0 where
  bad_batch_window bad_max_batch bad_max_event_bytes bad_queue_size bad_max_retries : ConfigError
  bad_shutdown_grace bad_max_projects bad_keys_poll bad_inline_tokens bad_inline_idle : ConfigError
  bad_require_project bad_log_level no_credential no_listen_path long_listen_path : ConfigError

pub data Result {ℓ} (A : Type ℓ) : Type ℓ where
  ok : A → Result A
  refused : ConfigError → Result A

infixl 5 ◌>>=◌
abbrev pub ◌>>=◌ {ℓ κ} : {A : Type ℓ} {B : Type κ} → Result A → (A → Result B) → Result B
ok a >>= f = f a
refused e >>= f = refused e

infixl 5 ◌>>◌
abbrev pub ◌>>◌ {ℓ} : {B : Type ℓ} → Result (Unit {0}) → Result B → Result B
m >> k = m >>= λ _. k

abbrev pub guard : Bool → ConfigError → Result (Unit {0})
guard true e = ok tt
guard false e = refused e

abbrev pub is_unset : Bytes → Bool
is_unset [] = true
is_unset (c ∷ s) = false

-- `n < lo || n > hi`, for a bound `lo` that is not negative; `none` for no upper bound.
abbrev pub above : Option ℕ → ℕ → Bool
above none n = false
above (some hi) n = ltb hi n

unfoldable pub in_range : ℕ → Option ℕ → Option ℤ → ConfigError → Result ℕ
in_range lo hi none e = refused e
in_range lo hi (some (negsuc n)) e = refused e
in_range lo hi (some (pos n)) e = if ltb n lo || above hi n then refused e else ok n

-- `time.Duration(ms) * time.Millisecond`
abbrev pub milliseconds : ℕ → ℕ
milliseconds ms = (ms * 1_000_000) % 2 ^ 64

abbrev pub seconds : ℕ → ℕ
seconds s = (s * 1_000_000_000) % 2 ^ 64

module _ (sys : System) where
  -- A variable that holds an integer: its default, where it is not set.
  unfoldable pub int_setting : Bytes → ℕ → ℕ → Option ℕ → ConfigError → Result ℕ
  int_setting name default lo hi e =
      let v = sys.getenv name in if is_unset v then ok default else in_range lo hi (sys.atoi v) e

  -- The same for a time in milliseconds; the default is a duration.
  unfoldable pub ms_setting : Bytes → ℕ → ℕ → Option ℕ → ConfigError → Result ℕ
  unfolding int_setting
  ms_setting name default lo hi e =
      let v = sys.getenv name in
      if is_unset v
      then ok default
      else in_range lo hi (sys.atoi v) e >>= λ ms. ok (milliseconds ms)

  unfoldable pub flag_of : Bytes → ConfigError → Result Bool
  flag_of v e =
      if equal v (codes "1") || equal v (codes "true") || equal v (codes "TRUE")
      then ok true
      else if equal v (codes "0") || equal v (codes "false") || equal v (codes "FALSE")
      then ok false
      else refused e

  unfoldable pub flag_setting : Bytes → Bool → ConfigError → Result Bool
  flag_setting name default e =
      let v = sys.getenv name in if is_unset v then ok default else flag_of v e

  unfoldable pub level_of : Bytes → Result LogLevel
  level_of v =
      if equal v (codes "debug")
      then ok level_debug
      else if equal v (codes "info")
      then ok level_info
      else if equal v (codes "warn")
      then ok level_warn
      else if equal v (codes "error")
      then ok level_error
      else refused bad_log_level

  unfoldable pub level_setting : Result LogLevel
  unfolding level_of
  level_setting =
      let v = sys.getenv (codes "MESH0_LOG_LEVEL") in
      if is_unset v then ok level_info else level_of v

  -- `envOr`
  unfoldable pub env_or : Bytes → Bytes → Bytes
  env_or k default = let v = sys.getenv k in if is_unset v then default else v

  -- The tests behind the variables.
  unfoldable pub credential_known : Bytes → Bytes → Bool → Bool
  credential_known api_key keys_file inline =
      not (is_unset api_key && (is_unset keys_file && not inline))

  -- The `if v := os.Getenv(…); v != ""` for each variable.
  abbrev pub batch_window_setting : Result ℕ
  batch_window_setting =
      ms_setting (codes "MESH0_BATCH_WINDOW_MS") (milliseconds 200) 1 (some 60_000) bad_batch_window

  abbrev pub max_batch_setting : Result ℕ
  max_batch_setting =
      int_setting (codes "MESH0_MAX_BATCH") 500 1 (some max_events_per_batch) bad_max_batch

  abbrev pub max_event_bytes_setting : Result ℕ
  max_event_bytes_setting =
      int_setting (codes "MESH0_MAX_EVENT_BYTES") default_max_event_bytes min_max_event_bytes
        (some max_max_event_bytes) bad_max_event_bytes

  abbrev pub queue_size_setting : Result ℕ
  queue_size_setting = int_setting (codes "MESH0_QUEUE_SIZE") 2_000 1 none bad_queue_size

  abbrev pub max_retries_setting : Result ℕ
  max_retries_setting = int_setting (codes "MESH0_MAX_RETRIES") 4 0 (some 16) bad_max_retries

  abbrev pub shutdown_grace_setting : Result ℕ
  shutdown_grace_setting =
      ms_setting (codes "MESH0_SHUTDOWN_GRACE_MS") (seconds 15) 0 none bad_shutdown_grace

  abbrev pub max_projects_setting : Result ℕ
  max_projects_setting = int_setting (codes "MESH0_MAX_PROJECTS") 0 0 (some 4096) bad_max_projects

  abbrev pub keys_poll_setting : Result ℕ
  keys_poll_setting =
      ms_setting (codes "MESH0_KEYS_POLL_MS") (seconds 30) 0 (some 3_600_000) bad_keys_poll

  abbrev pub inline_tokens_setting : Result Bool
  inline_tokens_setting = flag_setting (codes "MESH0_INLINE_TOKENS") true bad_inline_tokens

  abbrev pub inline_idle_setting : Result ℕ
  inline_idle_setting =
      ms_setting (codes "MESH0_INLINE_IDLE_MS") (seconds 900) 0 (some 86_400_000) bad_inline_idle

  abbrev pub require_project_setting : Result Bool
  require_project_setting = flag_setting (codes "MESH0_REQUIRE_PROJECT") false bad_require_project

  -- The tests on the whole, and the configuration.
  unfoldable pub checked :
      ℕ → ℕ → ℕ → ℕ → ℕ → ℕ → ℕ → ℕ → Bool → ℕ → Bool → LogLevel → Result Config
  checked window batch event queue retries grace projects poll inline idle require level = do
    let api_key = sys.getenv (codes "MESH0_API_KEY")
    let keys_file = sys.getenv (codes "MESH0_KEYS_FILE")
    let listen_path = env_or (codes "MESH0_LISTEN_PATH") (codes "/run/mesh0/agent.sock")
    guard (credential_known api_key keys_file inline) no_credential
    guard (not (is_unset listen_path)) no_listen_path
    guard (not (ltb 103 (length listen_path))) long_listen_path
    ok (record {
      api_key = api_key;
      keys_file = keys_file;
      gateway_url = env_or (codes "MESH0_BASE_URL") (codes "https://api.mesh0.ai");
      events_path = env_or (codes "MESH0_EVENTS_PATH") (codes "/v1/events");
      listen_path = listen_path;
      health_addr = env_or (codes "MESH0_HEALTH_ADDR") (codes ":8126");
      batch_window = window;
      max_batch = batch;
      max_event_bytes = event;
      queue_size = queue;
      max_retries = retries;
      shutdown_grace = grace;
      log_level = level;
      max_projects = projects;
      keys_poll_interval = poll;
      require_project = require;
      inline_tokens = inline;
      inline_idle = idle;
    })

  unfoldable pub load_config : Result Config
  load_config = do
    window ← batch_window_setting
    batch ← max_batch_setting
    event ← max_event_bytes_setting
    queue ← queue_size_setting
    retries ← max_retries_setting
    grace ← shutdown_grace_setting
    projects ← max_projects_setting
    poll ← keys_poll_setting
    inline ← inline_tokens_setting
    idle ← inline_idle_setting
    require ← require_project_setting
    level ← level_setting
    checked window batch event queue retries grace projects poll inline idle require level
