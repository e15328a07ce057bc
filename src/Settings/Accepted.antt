-- ===== src/Settings/Accepted.antt =====
-- Which configurations `loadConfig` accepts, said without its order of tests.
use metrics_agent.Prelude.{
  ℕ, ◌≤◌, ◌≡◌, ◌≢◌, ◌⊎◌, ◌↔◌, inl, inr, refl, sym, ap, ◌∙◌, subst, Bool, true, false, not, [], ◌∷◌,
  none, some, arith, ltb, length, Bytes, codes,
}
use metrics_agent.Data.{
  Config, LogLevel, default_max_event_bytes, min_max_event_bytes, max_max_event_bytes,
  max_events_per_batch,
}
use metrics_agent.Settings.{
  System, ConfigError, Result, ok, refused, ◌>>=◌, ◌>>◌, guard, is_unset, milliseconds, seconds,
  level_setting, env_or, credential_known, checked, load_config, batch_window_setting,
  max_batch_setting, max_event_bytes_setting, queue_size_setting, max_retries_setting,
  shutdown_grace_setting, max_projects_setting, keys_poll_setting, inline_tokens_setting,
  inline_idle_setting, require_project_setting, bad_batch_window, bad_max_batch,
  bad_max_event_bytes, bad_queue_size, bad_max_retries, bad_shutdown_grace, bad_max_projects,
  bad_keys_poll, bad_inline_tokens, bad_inline_idle, bad_require_project, no_credential,
  no_listen_path, long_listen_path,
}
use metrics_agent.Settings.Chosen.{
  Chosen, ok-inj, int_setting-Chosen, Chosen-int_setting, ms_setting-Chosen, Chosen-ms_setting,
}
use metrics_agent.Settings.Flags.{Flagged, flag_setting-Flagged, Flagged-flag_setting}

-- What the environment says of a configuration that is accepted.
pub record Accepted (sys : System) (c : Config) : Type 0 where
  pub batch_window_is :
      Chosen sys
        (codes "MESH0_BATCH_WINDOW_MS")
        (milliseconds 200)
        1
        (some 60_000)
        milliseconds
        c.batch_window
  pub max_batch_is :
      Chosen sys (codes "MESH0_MAX_BATCH") 500 1 (some max_events_per_batch) (λ n. n) c.max_batch
  pub max_event_bytes_is :
      Chosen sys
        (codes "MESH0_MAX_EVENT_BYTES")
        default_max_event_bytes
        min_max_event_bytes
        (some max_max_event_bytes)
        (λ n. n)
        c.max_event_bytes
  pub queue_size_is : Chosen sys (codes "MESH0_QUEUE_SIZE") 2_000 1 none (λ n. n) c.queue_size
  pub max_retries_is : Chosen sys (codes "MESH0_MAX_RETRIES") 4 0 (some 16) (λ n. n) c.max_retries
  pub shutdown_grace_is :
      Chosen sys (codes "MESH0_SHUTDOWN_GRACE_MS") (seconds 15) 0 none milliseconds c.shutdown_grace
  pub max_projects_is :
      Chosen sys (codes "MESH0_MAX_PROJECTS") 0 0 (some 4096) (λ n. n) c.max_projects
  pub keys_poll_is :
      Chosen sys
        (codes "MESH0_KEYS_POLL_MS")
        (seconds 30)
        0
        (some 3_600_000)
        milliseconds
        c.keys_poll_interval
  pub inline_tokens_is : Flagged sys (codes "MESH0_INLINE_TOKENS") true c.inline_tokens
  pub inline_idle_is :
      Chosen sys
        (codes "MESH0_INLINE_IDLE_MS")
        (seconds 900)
        0
        (some 86_400_000)
        milliseconds
        c.inline_idle
  pub require_project_is : Flagged sys (codes "MESH0_REQUIRE_PROJECT") false c.require_project
  pub log_level_is : level_setting sys ≡ ok c.log_level
  pub texts_are :
      (c.api_key ≡ sys.getenv (codes "MESH0_API_KEY"))
      × (c.keys_file ≡ sys.getenv (codes "MESH0_KEYS_FILE"))
      × (c.gateway_url ≡ env_or sys (codes "MESH0_BASE_URL") (codes "https://api.mesh0.ai"))
      × (c.events_path ≡ env_or sys (codes "MESH0_EVENTS_PATH") (codes "/v1/events"))
      × (c.listen_path ≡ env_or sys (codes "MESH0_LISTEN_PATH") (codes "/run/mesh0/agent.sock"))
      × (c.health_addr ≡ env_or sys (codes "MESH0_HEALTH_ADDR") (codes ":8126"))
  -- Some credential can reach the agent.
  pub credential : (c.api_key ≢ []) ⊎ ((c.keys_file ≢ []) ⊎ (c.inline_tokens ≡ true))
  pub path_given : c.listen_path ≢ []
  pub path_short : length c.listen_path ≤ 103

-- Inversion of a bind whose result is accepted.
bind-ok {ℓ κ μ} :
    {A : Type ℓ} {B : Type κ} {P : Type μ} (m : Result A) (f : A → Result B) {b : B}
    → (m >>= f) ≡ ok b
    → ((a : A) → m ≡ ok a → f a ≡ ok b → P)
    → P
bind-ok (ok a) f h k = k a refl h
bind-ok (refused e) f h k = cc

guard-ok {ℓ κ} :
    {B : Type ℓ} {P : Type κ} (t : Bool) (e : ConfigError) (m : Result B) {b : B}
    → (guard t e >> m) ≡ ok b
    → (t ≡ true → m ≡ ok b → P)
    → P
guard-ok true e m h k = k refl h
guard-ok false e m h k = cc

credential_known-true :
    (sys : System) (key file : Bytes) (inline : Bool)
    → credential_known sys key file inline ≡ true
    → (key ≢ []) ⊎ ((file ≢ []) ⊎ (inline ≡ true))
unfolding credential_known
credential_known-true sys (c ∷ s) file inline h = inl (λ e. cc)
credential_known-true sys [] (c ∷ s) inline h = inr (inl (λ e. cc))
credential_known-true sys [] [] true h = inr (inr refl)
credential_known-true sys [] [] false h = cc

given : (v : Bytes) → not (is_unset v) ≡ true → v ≢ []
given [] h e = cc
given (c ∷ s) h e = cc

short : (n : ℕ) → not (ltb 103 n) ≡ true → n ≤ 103
short n h = ground arith

-- The tests behind the variables, passed.
record Checked (sys : System) (c : Config) : Type 0 where
  credential : (c.api_key ≢ []) ⊎ ((c.keys_file ≢ []) ⊎ (c.inline_tokens ≡ true))
  path_given : c.listen_path ≢ []
  path_short : length c.listen_path ≤ 103

-- The configuration with these numbers and flags.
abbrev built : System → ℕ → ℕ → ℕ → ℕ → ℕ → ℕ → ℕ → ℕ → Bool → ℕ → Bool → LogLevel → Config
built sys window batch event queue retries grace projects poll inline idle require level = record {
  api_key = sys.getenv (codes "MESH0_API_KEY");
  keys_file = sys.getenv (codes "MESH0_KEYS_FILE");
  gateway_url = env_or sys (codes "MESH0_BASE_URL") (codes "https://api.mesh0.ai");
  events_path = env_or sys (codes "MESH0_EVENTS_PATH") (codes "/v1/events");
  listen_path = env_or sys (codes "MESH0_LISTEN_PATH") (codes "/run/mesh0/agent.sock");
  health_addr = env_or sys (codes "MESH0_HEALTH_ADDR") (codes ":8126");
  batch_window = window;
  max_batch = batch;
  max_event_bytes = event;
  queue_size = queue;
  max_retries = retries;
  shutdown_grace = grace;
  log_level = level;
  max_projects = projects;
  keys_poll_interval = poll;
  require_project = require;
  inline_tokens = inline;
  inline_idle = idle;
}

module _ (sys : System) where
  checked-built :
      (a b d e f g i j : ℕ) (k : Bool) (l : ℕ) (m : Bool) (n : LogLevel) (c : Config)
      → checked sys a b d e f g i j k l m n ≡ ok c
      → (built sys a b d e f g i j k l m n ≡ c) × Checked sys (built sys a b d e f g i j k l m n)
  unfolding checked
  checked-built a b d e f g i j k l m n c h =
      guard-ok
        (credential_known sys (sys.getenv (codes "MESH0_API_KEY"))
          (sys.getenv (codes "MESH0_KEYS_FILE")) k)
        no_credential _ h
        λ p h1.
          guard-ok
            (not
              (is_unset (env_or sys (codes "MESH0_LISTEN_PATH") (codes "/run/mesh0/agent.sock"))))
            no_listen_path _ h1
            λ q h2.
              guard-ok
                (not (
                  ltb 103 (
                    length
                      (env_or sys (codes "MESH0_LISTEN_PATH") (codes "/run/mesh0/agent.sock")))))
                long_listen_path _ h2
                λ r h3. (
                  ok-inj h3,
                  record {
                    credential = credential_known-true sys _ _ k p;
                    path_given = given _ q;
                    path_short = short _ r;
                  },
                )

  load_config-Accepted : (c : Config) → load_config sys ≡ ok c → Accepted sys c
  unfolding load_config
  load_config-Accepted c h = bind-ok (batch_window_setting sys) _ h λ a ha h.
      bind-ok (max_batch_setting sys) _ h λ b hb h.
        bind-ok (max_event_bytes_setting sys) _ h λ d hd h.
          bind-ok (queue_size_setting sys) _ h λ e he h.
            bind-ok (max_retries_setting sys) _ h λ f hf h.
              bind-ok (shutdown_grace_setting sys) _ h λ g hg h.
                bind-ok (max_projects_setting sys) _ h λ i hi h.
                  bind-ok (keys_poll_setting sys) _ h λ j hj h.
                    bind-ok (inline_tokens_setting sys) _ h λ k hk h.
                      bind-ok (inline_idle_setting sys) _ h λ l hl h.
                        bind-ok (require_project_setting sys) _ h λ m hm h.
                          bind-ok (level_setting sys) _ h λ n hn h.
                            let (made, passed) = checked-built a b d e f g i j k l m n c h in
                            subst (Accepted sys) made (record {
                              batch_window_is = ms_setting-Chosen sys _ _ _ _ _ a ha;
                              max_batch_is = int_setting-Chosen sys _ _ _ _ _ b hb;
                              max_event_bytes_is = int_setting-Chosen sys _ _ _ _ _ d hd;
                              queue_size_is = int_setting-Chosen sys _ _ _ _ _ e he;
                              max_retries_is = int_setting-Chosen sys _ _ _ _ _ f hf;
                              shutdown_grace_is = ms_setting-Chosen sys _ _ _ _ _ g hg;
                              max_projects_is = int_setting-Chosen sys _ _ _ _ _ i hi;
                              keys_poll_is = ms_setting-Chosen sys _ _ _ _ _ j hj;
                              inline_tokens_is = flag_setting-Flagged sys _ _ _ k hk;
                              inline_idle_is = ms_setting-Chosen sys _ _ _ _ _ l hl;
                              require_project_is = flag_setting-Flagged sys _ _ _ m hm;
                              log_level_is = hn;
                              texts_are = (refl, refl, refl, refl, refl, refl);
                              credential = passed.credential;
                              path_given = passed.path_given;
                              path_short = passed.path_short;
                            })

  known-credential :
      (key file : Bytes) (inline : Bool)
      → (key ≢ []) ⊎ ((file ≢ []) ⊎ (inline ≡ true))
      → credential_known sys key file inline ≡ true
  unfolding credential_known
  known-credential (c ∷ s) file inline h = refl
  known-credential [] (c ∷ s) inline h = refl
  known-credential [] [] true h = refl
  known-credential [] [] false (inl h) = absurd (h refl)
  known-credential [] [] false (inr (inl h)) = absurd (h refl)
  known-credential [] [] false (inr (inr h)) = cc

  short-le : (n : ℕ) → n ≤ 103 → not (ltb 103 n) ≡ true
  short-le n h = ground arith

  given-ne : (v : Bytes) → v ≢ [] → not (is_unset v) ≡ true
  given-ne [] h = absurd (h refl)
  given-ne (c ∷ s) h = refl

  Checked-checked :
      (a b d e f g i j : ℕ) (k : Bool) (l : ℕ) (m : Bool) (n : LogLevel)
      → Checked sys (built sys a b d e f g i j k l m n)
      → checked sys a b d e f g i j k l m n ≡ ok (built sys a b d e f g i j k l m n)
  unfolding checked
  Checked-checked a b d e f g i j k l m n p =
      rw (known-credential _ _ k p.credential, given-ne _ p.path_given, short-le _ p.path_short)
        refl

  as_built :
      (c : Config)
      → Accepted sys c
      → built sys c.batch_window c.max_batch c.max_event_bytes c.queue_size c.max_retries
          c.shutdown_grace c.max_projects c.keys_poll_interval c.inline_tokens c.inline_idle
          c.require_project c.log_level
        ≡ c
  as_built c x =
      let (key, file, url, path, listen, health) = x.texts_are in
      cc (key, file, url, path, listen, health)

  Accepted-load_config : (c : Config) → Accepted sys c → load_config sys ≡ ok c
  unfolding load_config
  Accepted-load_config c x =
      let same = as_built c x in
      let passed : Checked sys c = record {
        credential = x.credential;
        path_given = x.path_given;
        path_short = x.path_short;
      } in
      rw
        (
          Chosen-ms_setting sys _ _ _ _ bad_batch_window _ x.batch_window_is,
          Chosen-int_setting sys _ _ _ _ bad_max_batch _ x.max_batch_is,
          Chosen-int_setting sys _ _ _ _ bad_max_event_bytes _ x.max_event_bytes_is,
          Chosen-int_setting sys _ _ _ _ bad_queue_size _ x.queue_size_is,
          Chosen-int_setting sys _ _ _ _ bad_max_retries _ x.max_retries_is,
          Chosen-ms_setting sys _ _ _ _ bad_shutdown_grace _ x.shutdown_grace_is,
          Chosen-int_setting sys _ _ _ _ bad_max_projects _ x.max_projects_is,
          Chosen-ms_setting sys _ _ _ _ bad_keys_poll _ x.keys_poll_is,
          Flagged-flag_setting sys _ _ bad_inline_tokens _ x.inline_tokens_is,
          Chosen-ms_setting sys _ _ _ _ bad_inline_idle _ x.inline_idle_is,
          Flagged-flag_setting sys _ _ bad_require_project _ x.require_project_is,
          x.log_level_is,
        )
        (Checked-checked _ _ _ _ _ _ _ _ _ _ _ _ (subst (Checked sys) (sym same) passed)
          ∙ ap ok same)

-- The environment determines the configuration: it is accepted, with these values, if and only if
-- each variable is left out or holds a value within its bounds, some credential can reach the
-- agent, and the socket's path is not empty and has at most 103 bytes.
pub load_config_iff : (sys : System) (c : Config) → (load_config sys ≡ ok c) ↔ Accepted sys c
load_config_iff sys c = (load_config-Accepted sys c, Accepted-load_config sys c)
