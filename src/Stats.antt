-- ===== src/Stats.antt =====
-- The counters of stats.go. Each is an `atomic.Uint64`, so it wraps at 2 ^ 64.
use metrics_agent.Prelude.{ℕ, ◌+◌, ◌%◌, ◌^◌, false, Bool}

abbrev pub u64_mod : ℕ
u64_mod = 2 ^ 64

-- `Add(n)`
abbrev pub add_u64 : ℕ → ℕ → ℕ
add_u64 c n = (c + n) % u64_mod

pub record SelfStats : Type 0 where
  pub events_received : ℕ
  pub events_sent : ℕ
  pub batches_sent : ℕ
  pub drops_parse_error : ℕ
  pub drops_queue_full : ℕ
  pub drops_oversize : ℕ
  pub drops_flush_failed : ℕ
  pub drops_shutdown : ℕ
  pub drops_unrouted_missing : ℕ
  pub drops_unrouted_unknown : ℕ
  pub drops_routing_closed : ℕ
  pub drops_bad_token : ℕ
  pub drops_missing_token : ℕ
  pub read_errors : ℕ
  pub buffer_degraded : Bool
  pub listener_fatal : Bool
  pub last_event_flush_ms : ℕ
  pub start_unix : ℕ

pub record PipelineStats : Type 0 where
  pub events_received : ℕ
  pub events_sent : ℕ
  pub batches_sent : ℕ
  pub drops_parse_error : ℕ
  pub drops_queue_full : ℕ
  pub drops_routing_closed : ℕ
  pub drops_missing_token : ℕ
  pub drops_oversize : ℕ
  pub drops_flush_failed : ℕ
  pub drops_shutdown : ℕ
  pub last_event_flush_ms : ℕ

abbrev pub new_self_stats : ℕ → SelfStats
new_self_stats now = record {
  events_received = 0;
  events_sent = 0;
  batches_sent = 0;
  drops_parse_error = 0;
  drops_queue_full = 0;
  drops_oversize = 0;
  drops_flush_failed = 0;
  drops_shutdown = 0;
  drops_unrouted_missing = 0;
  drops_unrouted_unknown = 0;
  drops_routing_closed = 0;
  drops_bad_token = 0;
  drops_missing_token = 0;
  read_errors = 0;
  buffer_degraded = false;
  listener_fatal = false;
  last_event_flush_ms = 0;
  start_unix = now;
}

abbrev pub new_pipeline_stats : PipelineStats
new_pipeline_stats = record {
  events_received = 0;
  events_sent = 0;
  batches_sent = 0;
  drops_parse_error = 0;
  drops_queue_full = 0;
  drops_routing_closed = 0;
  drops_missing_token = 0;
  drops_oversize = 0;
  drops_flush_failed = 0;
  drops_shutdown = 0;
  last_event_flush_ms = 0;
}

-- `Add(1)` on one counter.
abbrev pub self_parse_error : SelfStats → SelfStats
self_parse_error s = record s { drops_parse_error = add_u64 s.drops_parse_error 1 }

abbrev pub self_unrouted_missing : SelfStats → SelfStats
self_unrouted_missing s = record s { drops_unrouted_missing = add_u64 s.drops_unrouted_missing 1 }

abbrev pub self_unrouted_unknown : SelfStats → SelfStats
self_unrouted_unknown s = record s { drops_unrouted_unknown = add_u64 s.drops_unrouted_unknown 1 }

abbrev pub self_routing_closed : SelfStats → SelfStats
self_routing_closed s = record s { drops_routing_closed = add_u64 s.drops_routing_closed 1 }

abbrev pub self_bad_token : SelfStats → SelfStats
self_bad_token s = record s { drops_bad_token = add_u64 s.drops_bad_token 1 }

abbrev pub self_missing_token : SelfStats → SelfStats
self_missing_token s = record s { drops_missing_token = add_u64 s.drops_missing_token 1 }

abbrev pub pipeline_routing_closed : PipelineStats → PipelineStats
pipeline_routing_closed s = record s { drops_routing_closed = add_u64 s.drops_routing_closed 1 }

abbrev pub pipeline_missing_token : PipelineStats → PipelineStats
pipeline_missing_token s = record s { drops_missing_token = add_u64 s.drops_missing_token 1 }

abbrev pub pipeline_queue_full : PipelineStats → PipelineStats
pipeline_queue_full s = record s { drops_queue_full = add_u64 s.drops_queue_full 1 }
