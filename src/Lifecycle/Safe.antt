-- ===== src/Lifecycle/Safe.antt =====
-- Drains and shutdown in every registry that the agent can reach.
use metrics_agent.Prelude.{ℕ, ◌≡◌, some, Option}
use metrics_agent.Data.{Config}
use metrics_agent.Stats.{SelfStats}
use metrics_agent.Registry.{Registry, new_registry}
use metrics_agent.Keys.{Keys, load_keys_file, install}
use metrics_agent.Lifecycle.{Reach, shutdown}
use metrics_agent.Lifecycle.Drains.{DrainOnce, Sound-DrainOnce}
use metrics_agent.Lifecycle.Closing.{Ended, shutdown-Ended}
use metrics_agent.Lifecycle.Reached.{Reach-Sound}

module _ (now : ℕ) (raw : Option Keys) (cfg : Config) (self : SelfStats) (r s : Registry) where
  -- From a start that succeeds, after any steps and before a shutdown: where a reload, an expiry or
  -- the shutdown runs from its load of the table to its drains with no other store between, these
  -- drains find each of their pipelines open, one after the other, and close none a second time.
  pub Reach-DrainOnce :
      (later cutoff : ℕ) (keys : Keys)
      → install now (load_keys_file raw) (new_registry cfg self) ≡ some r
      → Reach r s
      → DrainOnce s later cutoff keys
  Reach-DrainOnce later cutoff keys h steps =
      Sound-DrainOnce s later cutoff keys (Reach-Sound now raw cfg self r s h steps)

  -- From a start that succeeds, after any steps, this is what `shutdown` does to the registry, its
  -- waits apart: no datagram is taken any more, the shared queue is empty, the table is the same, and
  -- all its pipelines are closed. As long as the counters do not wrap, each datagram of the shared
  -- queue is in the buffer of a pipeline or counted once, as refused by a full buffer or as dropped.
  pub Reach-Ended :
      install now (load_keys_file raw) (new_registry cfg self) ≡ some r
      → Reach r s
      → Ended s (shutdown s)
  Reach-Ended h steps = shutdown-Ended s (Reach-Sound now raw cfg self r s h steps)
