-- ===== src/Settings/Limits.antt =====
-- What the other components rely on in an accepted configuration.
use metrics_agent.Prelude.{
  ℕ, ◌*◌, ◌^◌, ◌≤◌, ◌<◌, ◌≡◌, ◌≢◌, [], sym, ◌∙◌, Bool, some, none, arith, codes, Bytes, Option,
  refl, false, equal, if◌then◌else◌,
}
use metrics_agent.Data.{
  Config, max_events_per_batch, max_max_event_bytes, min_max_event_bytes, default_max_event_bytes,
  pos,
}
use metrics_agent.Stats.{SelfStats}
use metrics_agent.Batcher.{new_events_batcher}
use metrics_agent.Registry.{new_registry}
use metrics_agent.Settings.{System, ok, milliseconds, seconds, level_setting, env_or, load_config}
use metrics_agent.Settings.Chosen.{Chosen, by_default, by_name}
use metrics_agent.Settings.Flags.{Flagged, left_out, said}
use metrics_agent.Settings.Accepted.{Accepted, load_config_iff}

in_bounds :
    (sys : System) (name : Bytes) (default lo hi v : ℕ)
    → Chosen sys name default lo (some hi) (λ n. n) v
    → lo ≤ default
    → default ≤ hi
    → (lo ≤ v) × (v ≤ hi)
in_bounds sys name default lo hi v (by_default u d) a b = (omega (arith, d), omega (arith, d))
in_bounds sys name default lo hi v (by_name n s x l k d) a b = (omega (arith, d), omega (arith, d))

-- A duration of at most a day does not wrap, and is not negative.
in_time :
    (sys : System) (name : Bytes) (default lo hi v : ℕ)
    → Chosen sys name default lo (some hi) milliseconds v
    → lo * 1_000_000 ≤ default
    → default ≤ hi * 1_000_000
    → hi ≤ 86_400_000
    → (lo * 1_000_000 ≤ v) × (v ≤ hi * 1_000_000)
in_time sys name default lo hi v (by_default u d) a b c = (omega (arith, d), omega (arith, d))
in_time sys name default lo hi v (by_name n s x l k d) a b c = (omega (arith, d), omega (arith, d))

at_least :
    (sys : System) (name : Bytes) (default lo v : ℕ)
    → Chosen sys name default lo none (λ n. n) v
    → lo ≤ default
    → lo ≤ v
at_least sys name default lo v (by_default u d) a = omega (arith, d)
at_least sys name default lo v (by_name n s x l k d) a = omega (arith, d)

pub record Limits (c : Config) : Type 0 where
  -- The batcher and the registry take the configured values as they are.
  pub batcher_max :
      (new_events_batcher c.max_batch c.max_event_bytes c.batch_window).max_events ≡ c.max_batch
  pub batcher_event :
      (new_events_batcher c.max_batch c.max_event_bytes c.batch_window).max_event_bytes
      ≡ c.max_event_bytes
  pub batcher_window :
      (new_events_batcher c.max_batch c.max_event_bytes c.batch_window).window ≡ c.batch_window
  pub registry_queue : (self : SelfStats) → (new_registry c self).shared_cap ≡ c.queue_size
  pub event_bounds :
      (min_max_event_bytes ≤ c.max_event_bytes) × (c.max_event_bytes ≤ max_max_event_bytes)
  pub retries_bound : c.max_retries ≤ 16
  pub projects_bound : c.max_projects ≤ 4096
  -- The bounded durations fit an `int64`.
  pub window_bound : c.batch_window < 2 ^ 63
  pub poll_bound : c.keys_poll_interval < 2 ^ 63
  pub idle_bound : c.inline_idle < 2 ^ 63

-- An accepted configuration is within the limits of the components that read it: the constructors
-- of the batcher and of the registry correct nothing in it, the numbers are bounded, and the
-- durations with an upper bound do not overflow.
pub load_config-Limits : (sys : System) (c : Config) → load_config sys ≡ ok c → Limits c
unfolding new_events_batcher
load_config-Limits sys c h =
    let x = (load_config_iff sys c).0 h in
    let batch =
      in_bounds sys _ 500 1 max_events_per_batch c.max_batch x.max_batch_is (omega arith)
        (omega arith) in
    let event =
      in_bounds sys _ default_max_event_bytes min_max_event_bytes max_max_event_bytes
        c.max_event_bytes x.max_event_bytes_is (omega arith) (omega arith) in
    let retries =
      in_bounds sys _ 4 0 16 c.max_retries x.max_retries_is (omega arith) (omega arith) in
    let projects =
      in_bounds sys _ 0 0 4096 c.max_projects x.max_projects_is (omega arith) (omega arith) in
    let queue = at_least sys _ 2_000 1 c.queue_size x.queue_size_is (omega arith) in
    let window =
      in_time sys _ (milliseconds 200) 1 60_000 c.batch_window x.batch_window_is (omega arith)
        (omega arith) (omega arith) in
    let poll =
      in_time sys _ (seconds 30) 0 3_600_000 c.keys_poll_interval x.keys_poll_is (omega arith)
        (omega arith) (omega arith) in
    let idle =
      in_time sys _ (seconds 900) 0 86_400_000 c.inline_idle x.inline_idle_is (omega arith)
        (omega arith) (omega arith) in
    record {
      batcher_max = ground (arith, batch);
      batcher_event = ground (arith, event);
      batcher_window = ground (arith, window);
      registry_queue = λ self. ground (arith, queue);
      event_bounds = event;
      retries_bound = retries.1;
      projects_bound = projects.1;
      window_bound = omega (arith, window);
      poll_bound = omega (arith, poll);
      idle_bound = omega (arith, idle);
    }

-- The environment with another text for the grace.
abbrev pub with_grace : Bytes → System → System
with_grace text sys = record sys {
  getenv = λ name. if equal name (codes "MESH0_SHUTDOWN_GRACE_MS") then text else sys.getenv name;
}

module _ (sys : System) (text : Bytes) where
  -- A variable whose text stays the same is read in the same way.
  other-Chosen :
      (name : Bytes) (default lo : ℕ) (hi : Option ℕ) (unit : ℕ → ℕ) (v : ℕ)
      → equal name (codes "MESH0_SHUTDOWN_GRACE_MS") ≡ false
      → Chosen sys name default lo hi unit v
      → Chosen (with_grace text sys) name default lo hi unit v
  other-Chosen name default lo hi unit v e (by_default u d) = by_default (rw e u) d
  other-Chosen name default lo hi unit v e (by_name n s a l k d) =
      by_name n (λ z. s (sym (rw e refl) ∙ z)) (rw e a) l k d

  other-Flagged :
      (name : Bytes) (default v : Bool)
      → equal name (codes "MESH0_SHUTDOWN_GRACE_MS") ≡ false
      → Flagged sys name default v
      → Flagged (with_grace text sys) name default v
  other-Flagged name default v e (left_out u d) = left_out (rw e u) d
  other-Flagged name default v e (said s x) = said (λ z. s (sym (rw e refl) ∙ z)) (rw e x)

  with_grace-Accepted :
      (c : Config) (n : ℕ)
      → Accepted sys c
      → text ≢ []
      → sys.atoi text ≡ some (pos n)
      → Accepted (with_grace text sys) (record c { shutdown_grace = milliseconds n })
  unfolding equal level_setting env_or
  with_grace-Accepted c n x s a = record {
    batch_window_is = other-Chosen _ _ _ _ _ _ refl x.batch_window_is;
    max_batch_is = other-Chosen _ _ _ _ _ _ refl x.max_batch_is;
    max_event_bytes_is = other-Chosen _ _ _ _ _ _ refl x.max_event_bytes_is;
    queue_size_is = other-Chosen _ _ _ _ _ _ refl x.queue_size_is;
    max_retries_is = other-Chosen _ _ _ _ _ _ refl x.max_retries_is;
    shutdown_grace_is = by_name n s a (omega arith) tt refl;
    max_projects_is = other-Chosen _ _ _ _ _ _ refl x.max_projects_is;
    keys_poll_is = other-Chosen _ _ _ _ _ _ refl x.keys_poll_is;
    inline_tokens_is = other-Flagged _ _ _ refl x.inline_tokens_is;
    inline_idle_is = other-Chosen _ _ _ _ _ _ refl x.inline_idle_is;
    require_project_is = other-Flagged _ _ _ refl x.require_project_is;
    log_level_is = x.log_level_is;
    texts_are = x.texts_are;
    credential = x.credential;
    path_given = x.path_given;
    path_short = x.path_short;
  }

-- `MESH0_SHUTDOWN_GRACE_MS` has no upper bound. In any environment that is accepted, it can be given
-- a number of milliseconds whose nanoseconds are from 2 ^ 63 on and below 2 ^ 64: the environment is
-- accepted still, and the grace is a negative duration.
pub load_config-grace :
    (sys : System) (c : Config) (text : Bytes) (n : ℕ)
    → load_config sys ≡ ok c
    → text ≢ []
    → sys.atoi text ≡ some (pos n)
    → 2 ^ 63 ≤ n * 1_000_000
    → n * 1_000_000 < 2 ^ 64
    → (load_config (with_grace text sys) ≡ ok (record c { shutdown_grace = milliseconds n }))
      × (2 ^ 63 ≤ milliseconds n)
load_config-grace sys c text n h s a low high = (
  (load_config_iff (with_grace text sys) (record c { shutdown_grace = milliseconds n })).1
      (with_grace-Accepted sys text c n ((load_config_iff sys c).0 h) s a),
  omega (arith, low, high),
)
