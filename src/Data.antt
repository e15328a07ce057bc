-- ===== src/Data.antt =====
-- What flows through the agent: datagrams and batches (events.go), and the configuration that the
-- other parts read (`Config` of main.go). Integers of the configuration are never negative once
-- `loadConfig` has accepted them; a time is a number of nanoseconds.
use metrics_agent.Prelude.{ℕ, ◌*◌, ◌-◌, Bool, List, Bytes, codes, leb, if◌then◌else◌}

pub record RawDatagram : Type 0 where
  pub bytes : Bytes
  pub at : ℕ
  pub project : Bytes
  pub token : Bytes

pub record EventBatch : Type 0 where
  pub events : List Bytes
  pub started_at : ℕ
  pub token : Bytes

abbrev pub default_max_event_bytes : ℕ
default_max_event_bytes = 1 * 1024 * 1024

abbrev pub min_max_event_bytes : ℕ
min_max_event_bytes = 1024

abbrev pub max_max_event_bytes : ℕ
max_max_event_bytes = 16 * 1024 * 1024

abbrev pub max_events_per_batch : ℕ
max_events_per_batch = 5000

abbrev pub max_batch_bytes : ℕ
max_batch_bytes = 10 * 1024 * 1024

abbrev pub default_project : Bytes
default_project = codes "_default"

abbrev pub pipeline_handoff_depth : ℕ
pipeline_handoff_depth = 16

pub data LogLevel : Type 0 where
  level_debug level_info level_warn level_error : LogLevel

-- A `time.Duration` is an `int64`; it is written as its 64 bits.
pub record Config : Type 0 where
  pub api_key : Bytes
  pub keys_file : Bytes
  pub gateway_url : Bytes
  pub events_path : Bytes
  pub listen_path : Bytes
  pub health_addr : Bytes
  pub batch_window : ℕ
  pub max_batch : ℕ
  pub max_event_bytes : ℕ
  pub queue_size : ℕ
  pub max_retries : ℕ
  pub shutdown_grace : ℕ
  pub log_level : LogLevel
  pub max_projects : ℕ
  pub keys_poll_interval : ℕ
  pub require_project : Bool
  pub inline_tokens : Bool
  pub inline_idle : ℕ

-- A Go `int`; `negsuc n` is -(n + 1).
pub data ℤ : Type 0 where
  pos negsuc : ℕ → ℤ

-- The difference of two times.
abbrev pub minus : ℕ → ℕ → ℤ
minus m n = if leb n m then pos (m - n) else negsuc (n - m - 1)
