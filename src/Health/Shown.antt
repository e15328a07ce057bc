-- ===== src/Health/Shown.antt =====
-- What `/stats` shows of the projects.
use metrics_agent.Prelude.{
  ℕ, ◌+◌, ◌-◌, ◌<◌, ◌≡◌, ◌⊎◌, List, [], ◌∷◌, Option, none, some, length, Bytes, if◌then◌else◌,
}
use metrics_agent.Stats.{PipelineStats}
use metrics_agent.Registry.{Registry, Pipeline, find}
use metrics_agent.Keys.{entries_of}
use metrics_agent.Lifecycle.Heap.{pipe}
use metrics_agent.Lifecycle.Sound.{Sound}
use metrics_agent.Health.{ProjectStatsSnapshot, StatsSnapshot, project_snapshot}

abbrev pub shown_at : ℕ → List Pipeline → Option ℕ → Option ProjectStatsSnapshot
shown_at now_ms heap none = none
shown_at now_ms heap (some i) = some (project_snapshot now_ms (pipe heap i).stats)

-- The inline projects of the table.
abbrev pub inline_entries : List Pipeline → List (Bytes × ℕ) → List Bytes
inline_entries heap [] = []
inline_entries heap ((name, i) ∷ es) =
    let rest = inline_entries heap es in if (pipe heap i).inline then name ∷ rest else rest

-- The age of the last flush: zero before the first one.
abbrev pub Aged : ℕ → ℕ → ℕ → Type 0
Aged now_ms last_ms age = ((last_ms ≡ 0) × (age ≡ 0)) ⊎ ((0 < last_ms) × (age ≡ now_ms - last_ms))

-- What a project shows is counter by counter what its pipeline has counted.
pub record Mirrors (now_ms : ℕ) (s : PipelineStats) (p : ProjectStatsSnapshot) : Type 0 where
  pub received_is : p.events_received ≡ s.events_received
  pub sent_is : p.events_sent ≡ s.events_sent
  pub batches_are : p.batches_sent ≡ s.batches_sent
  pub parse_error_is : p.events_dropped.parse_error ≡ s.drops_parse_error
  pub queue_full_is : p.events_dropped.queue_full ≡ s.drops_queue_full
  pub oversize_is : p.events_dropped.oversize ≡ s.drops_oversize
  pub flush_failed_is : p.events_dropped.flush_failed ≡ s.drops_flush_failed
  pub shutdown_is : p.events_dropped.shutdown ≡ s.drops_shutdown
  pub routing_closed_is : p.events_dropped.routing_closed ≡ s.drops_routing_closed
  pub missing_token_is : p.events_dropped.missing_token ≡ s.drops_missing_token
  -- The reasons that are counted for the process alone.
  pub no_project :
      p.events_dropped.unrouted_missing + p.events_dropped.unrouted_unknown
        + p.events_dropped.bad_token
      ≡ 0
  pub age_is : Aged now_ms s.last_event_flush_ms p.last_flush_age_ms

-- The totals of the process.
pub record Totals (now_ms : ℕ) (r : Registry) (s : StatsSnapshot) : Type 0 where
  pub received_is : s.events_received ≡ r.self.events_received
  pub sent_is : s.events_sent ≡ r.self.events_sent
  pub batches_are : s.batches_sent ≡ r.self.batches_sent
  pub queue_full_is : s.events_dropped.queue_full ≡ r.self.drops_queue_full
  pub routing_are :
      (s.events_dropped.parse_error ≡ r.self.drops_parse_error)
      × ((s.events_dropped.unrouted_missing ≡ r.self.drops_unrouted_missing)
          × ((s.events_dropped.unrouted_unknown ≡ r.self.drops_unrouted_unknown)
              × ((s.events_dropped.routing_closed ≡ r.self.drops_routing_closed)
                  × ((s.events_dropped.bad_token ≡ r.self.drops_bad_token)
                      × (s.events_dropped.missing_token ≡ r.self.drops_missing_token)))))
  pub batcher_are :
      (s.events_dropped.oversize ≡ r.self.drops_oversize)
      × ((s.events_dropped.flush_failed ≡ r.self.drops_flush_failed)
          × (s.events_dropped.shutdown ≡ r.self.drops_shutdown))
  pub age_is : Aged now_ms r.self.last_event_flush_ms s.last_flush_age_ms

pub record Shown (now_ms : ℕ) (r : Registry) (s : StatsSnapshot) : Type 0 where
  -- A project of the table is there with the counters of the pipeline that serves it, its own.
  pub served :
      (name : Bytes) (i : ℕ)
      → find name (entries_of r.cur) ≡ some i
      → (p : ProjectStatsSnapshot) × (find name s.by_project ≡ some p)
        × Mirrors now_ms (pipe r.heap i).stats p
        × ((pipe r.heap i).project ≡ name)
  pub no_other :
      (name : Bytes) → find name (entries_of r.cur) ≡ none → find name s.by_project ≡ none
  pub live_is : s.inline_projects_live ≡ length (inline_entries r.heap (entries_of r.cur))
  pub totals : Totals now_ms r s
