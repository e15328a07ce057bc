-- ===== src/Health.antt =====
-- `GET /stats` of health.go, with the snapshots of stats.go and of the registry. The answer is the
-- record that is encoded as JSON; the clock gives milliseconds and seconds. Ages stop at zero.
mod Shown
mod Tests
use metrics_agent.Prelude.{
  ℕ, ◌-◌, Bool, List, [], ◌∷◌, Option, none, some, ltb, if◌then◌else◌, get_elem?, Bytes,
}
use metrics_agent.Data.{ℤ, minus}
use metrics_agent.Stats.{SelfStats, PipelineStats}
use metrics_agent.Registry.{Pipeline, Registry, or_closed}
use metrics_agent.Keys.{entries_of, inline_live}

pub record DropStats : Type 0 where
  pub parse_error : ℕ
  pub queue_full : ℕ
  pub oversize : ℕ
  pub flush_failed : ℕ
  pub shutdown : ℕ
  pub routing_closed : ℕ
  pub unrouted_missing : ℕ
  pub unrouted_unknown : ℕ
  pub bad_token : ℕ
  pub missing_token : ℕ

pub record ProjectStatsSnapshot : Type 0 where
  pub events_received : ℕ
  pub events_sent : ℕ
  pub batches_sent : ℕ
  pub events_dropped : DropStats
  pub last_flush_age_ms : ℕ

pub record StatsSnapshot : Type 0 where
  pub events_received : ℕ
  pub events_dropped : DropStats
  pub batches_sent : ℕ
  pub events_sent : ℕ
  pub last_flush_age_ms : ℕ
  pub read_errors : ℕ
  pub buffer_degraded : Bool
  pub listener_fatal : Bool
  pub uptime_s : ℤ
  pub by_project : List (Bytes × ProjectStatsSnapshot)
  pub keys_reload_failures : ℕ
  pub last_keys_reload_unix : ℕ
  pub inline_projects_registered : ℕ
  pub inline_projects_expired : ℕ
  pub inline_projects_live : ℕ

-- Zero before the first flush, and where the clock stands before the last one.
abbrev pub flush_age : ℕ → ℕ → ℕ
flush_age now_ms last_ms = if ltb 0 last_ms then now_ms - last_ms else 0

-- `pipelineStats.snapshot`
abbrev pub project_snapshot : ℕ → PipelineStats → ProjectStatsSnapshot
project_snapshot now_ms s = record {
  events_received = s.events_received;
  events_sent = s.events_sent;
  batches_sent = s.batches_sent;
  events_dropped = record {
    parse_error = s.drops_parse_error;
    queue_full = s.drops_queue_full;
    oversize = s.drops_oversize;
    flush_failed = s.drops_flush_failed;
    shutdown = s.drops_shutdown;
    routing_closed = s.drops_routing_closed;
    unrouted_missing = 0;
    unrouted_unknown = 0;
    bad_token = 0;
    missing_token = s.drops_missing_token;
  };
  last_flush_age_ms = flush_age now_ms s.last_event_flush_ms;
}

-- `selfStats.snapshot`
abbrev pub self_snapshot : ℕ → ℕ → SelfStats → StatsSnapshot
self_snapshot now_ms now_s s = record {
  events_received = s.events_received;
  events_dropped = record {
    parse_error = s.drops_parse_error;
    queue_full = s.drops_queue_full;
    oversize = s.drops_oversize;
    flush_failed = s.drops_flush_failed;
    shutdown = s.drops_shutdown;
    routing_closed = s.drops_routing_closed;
    unrouted_missing = s.drops_unrouted_missing;
    unrouted_unknown = s.drops_unrouted_unknown;
    bad_token = s.drops_bad_token;
    missing_token = s.drops_missing_token;
  };
  batches_sent = s.batches_sent;
  events_sent = s.events_sent;
  last_flush_age_ms = flush_age now_ms s.last_event_flush_ms;
  read_errors = s.read_errors;
  buffer_degraded = s.buffer_degraded;
  listener_fatal = s.listener_fatal;
  uptime_s = minus now_s s.start_unix;
  by_project = [];
  keys_reload_failures = 0;
  last_keys_reload_unix = 0;
  inline_projects_registered = 0;
  inline_projects_expired = 0;
  inline_projects_live = 0;
}

-- `registry.snapshot`; no table is the empty map.
unfoldable pub snapshots :
    ℕ → List Pipeline → List (Bytes × ℕ) → List (Bytes × ProjectStatsSnapshot)
snapshots now_ms heap [] = []
snapshots now_ms heap ((name, i) ∷ es) =
    (name, project_snapshot now_ms (or_closed (get_elem? heap i)).stats) ∷ snapshots now_ms heap es

-- The handler of `/stats`.
unfoldable pub stats_handler : ℕ → ℕ → Registry → StatsSnapshot
unfolding snapshots
stats_handler now_ms now_s r = record (self_snapshot now_ms now_s r.self) {
  by_project = snapshots now_ms r.heap (entries_of r.cur);
  keys_reload_failures = r.keys_reload_failures;
  last_keys_reload_unix = r.last_keys_reload_unix;
  inline_projects_registered = r.inline_projects_registered;
  inline_projects_expired = r.inline_projects_expired;
  inline_projects_live = inline_live r;
}
