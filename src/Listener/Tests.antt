-- ===== src/Listener/Tests.antt =====
-- Runs of the listener on concrete reads.
use metrics_agent.Prelude.{◌+◌, ◌^◌, ◌<◌, ◌≡◌, false, true, List, [], ◌∷◌, arith, length, codes}
use metrics_agent.Data.{Config, level_info}
use metrics_agent.Stats.{new_self_stats}
use metrics_agent.Strip.Tests.{plain}
use metrics_agent.Registry.{Registry, new_registry}
use metrics_agent.Listener.{Read, read, read_error, listen}
use metrics_agent.Listener.Accounts.{booked, highest, listen-booked}

abbrev cfg : Config
cfg = record {
  api_key = codes "k0";
  keys_file = [];
  gateway_url = [];
  events_path = [];
  listen_path = codes "agent.sock";
  health_addr = [];
  batch_window = 200_000_000;
  max_batch = 500;
  max_event_bytes = 1_048_576;
  queue_size = 1;
  max_retries = 4;
  shutdown_grace = 0;
  log_level = level_info;
  max_projects = 0;
  keys_poll_interval = 0;
  require_project = false;
  inline_tokens = true;
  inline_idle = 0;
}

abbrev empty : Registry
empty = new_registry cfg (new_self_stats 0)

abbrev reads : List Read
reads =
    read (codes "{\"_project\":\"a\",\"_token\":\"t\"}") 1
    ∷ read_error
    ∷ read (codes "{\"_project\":\"b\",\"_token\":\"u\"}") 2
    ∷ []

low : highest empty + (length reads + length reads) < 2 ^ 64
low = omega arith

listen-booked_example :
    booked (listen plain reads empty) + empty.self.events_received
    ≡ booked empty + (listen plain reads empty).self.events_received
listen-booked_example = listen-booked plain reads empty low
