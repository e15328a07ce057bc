-- ===== src/RoutingTests.antt =====
-- Runs of the registry and of the keys file on concrete data.
use metrics_agent.Prelude.{
  suc, List, ◌^◌, ◌<◌, ◌≡◌, inr, refl, true, false, [], ◌∷◌, none, some, arith, length, ltb, ◌&&◌,
  codes, equal, contains, until,
}
use metrics_agent.Data.{RawDatagram, Config, level_info}
use metrics_agent.Stats.{new_self_stats}
use metrics_agent.Scan.{
  kind_string, scan_value, scan_container, scan_literal, scan_number, container_loop, string_loop,
  is_json_space, scan_ws, after_quote,
}
use metrics_agent.Strip.{
  RoutingFields, extract_and_strip_fields, extract_and_strip_routing, walk, note, strip_members,
  strip_object, scan_member, separator, expect, unquote_json_string, has_byte, unsnoc,
  routing_value, span_of, strip_result, splice, cuts_of, cut_of, cut_start, cut_end, past_comma,
}
use metrics_agent.Strip.Tests.{plain, second, second-IsPiece}
use metrics_agent.Strip.Layout.{Piece, IsPiece}
use metrics_agent.Strip.Survivors.{Entry, entries}
use metrics_agent.Strip.Object.{IsObject}
use metrics_agent.Registry.{
  is_empty, Registry, find, new_registry, at_ptr, lookup, lookup_in, register_new, register_inline,
  enqueue, to_pipeline, resolve, deliver, stamped, dispatch_fields, dispatch, forward, close_shared,
}
use metrics_agent.Registry.Routes.{IsValid}
use metrics_agent.Registry.Registered.{dispatch_fields-IsValid}
use metrics_agent.Registry.Dispatch.{routing_drops, outcomes, pending, dispatch_fields-outcomes}
use metrics_agent.Registry.Queued.{Delivery, dispatch_fields-Delivered}
use metrics_agent.Registry.Stripped.{Stripped, last_of, dispatch-Stripped}
use metrics_agent.Registry.Demux.{Drained, demux, handled, demux-Drained, forward-handled}
use metrics_agent.Registry.Bounds.{Within, dispatch_fields-Within}
use metrics_agent.Keys.{
  install, Keys, wanted_keys, entries_of, unchanged, reusable, place, build_pipelines, build_table,
  drain_replaced, reload_keys, reload, expire_inline,
}
use metrics_agent.Keys.Table.{key_at}
use metrics_agent.Keys.Reload.{Installed, install-Installed, reload-IsValid, reload_keys-serves}
use metrics_agent.Keys.Expiry.{Expired, expire_inline-Expired}

abbrev pub cfg : Config
cfg = record {
  api_key = [];
  keys_file = codes "keys.json";
  gateway_url = [];
  events_path = [];
  listen_path = codes "agent.sock";
  health_addr = [];
  batch_window = 200_000_000;
  max_batch = 500;
  max_event_bytes = 1_048_576;
  queue_size = 2;
  max_retries = 4;
  shutdown_grace = 0;
  log_level = level_info;
  max_projects = 3;
  keys_poll_interval = 0;
  require_project = false;
  inline_tokens = true;
  inline_idle = 0;
}

abbrev pub file : Keys
file = (codes "acme", codes "k1") ∷ (codes "beta", codes "k2") ∷ []

abbrev empty : Registry
empty = new_registry cfg (new_self_stats 0)

empty-IsValid : IsValid empty
empty-IsValid = record {
  in_range = λ t k i c f. absurd (cc);
  named = λ t k i c f. absurd (cc);
  default_there = λ t c h. absurd (cc);
  default_inline = λ t i c h f. absurd (cc);
  no_key = λ i h. absurd (cc);
}

-- The registry with two projects of the keys file.
abbrev two : Registry
two = reload 7 7 (some file) none empty

two-IsValid : IsValid two
two-IsValid = reload-IsValid 7 7 (some file) none empty empty-IsValid

-- A project that brings its token.
abbrev pub fields : RoutingFields
fields = record {
  project = codes "gamma";
  token = codes "t0";
  stripped = codes "{}";
  removed = true;
  malformed = false;
  bad_project = false;
  bad_token = false;
}

-- A body with a project and another member.
abbrev acme : Piece
acme = record {
  lead = [];
  key = codes "_project";
  before = [];
  after = [];
  value = codes "\"acme\"";
  trail = [];
  kind = kind_string;
}

acme-IsPiece : IsPiece acme
unfolding string_loop scan_value is_json_space after_quote
acme-IsPiece = record {
  lead_spaces = tt;
  key_scans = λ r. refl;
  before_spaces = tt;
  after_spaces = tt;
  value_starts = refl;
  value_ne_nil = λ e. cc;
  value_scans = λ r h. refl;
  trail_spaces = tt;
}

abbrev datagram : RawDatagram
datagram = record {
  bytes = codes "{\"_project\":\"acme\",\"a\":\"x\"}";
  at = 9;
  project = [];
  token = [];
}

abbrev members : List Entry
members = entries (acme ∷ second ∷ [])

datagram-IsObject : IsObject datagram.bytes members
datagram-IsObject = record {
  front = [];
  gap = [];
  pieces = acme ∷ second ∷ [];
  tail = [];
  front_spaces = tt;
  gap_spaces = tt;
  are_pieces = (acme-IsPiece, (second-IsPiece, tt));
  splits = refl;
  entries_are = refl;
}

no_drops : suc (routing_drops two.self) < 2 ^ 64
unfolding reload reload_keys wanted_keys unchanged build_table build_pipelines reusable place
    drain_replaced equal
no_drops = omega arith

acme_delivered : (dispatch plain 9 datagram two).delivered ≡ true
unfolding reload reload_keys wanted_keys unchanged build_table build_pipelines reusable place
    drain_replaced dispatch dispatch_fields resolve register_inline register_new lookup lookup_in
    deliver stamped to_pipeline enqueue equal extract_and_strip_routing extract_and_strip_fields
    walk note strip_members strip_object scan_member separator expect unquote_json_string has_byte
    unsnoc routing_value span_of strip_result splice cuts_of cut_of cut_start cut_end past_comma
    scan_value scan_container scan_literal scan_number container_loop string_loop is_json_space
    scan_ws after_quote contains until
acme_delivered = refl

acme_found : lookup (codes "acme") two ≡ some 0
unfolding reload reload_keys wanted_keys unchanged build_table build_pipelines reusable place
    drain_replaced lookup lookup_in equal
acme_found = refl

acme_there : 0 < length two.heap
unfolding reload reload_keys wanted_keys unchanged build_table build_pipelines reusable place
    drain_replaced equal
acme_there = omega arith

acme_low : suc (handled (at_ptr two 0)) < 2 ^ 64
unfolding reload reload_keys wanted_keys unchanged build_table build_pipelines reusable place
    drain_replaced equal
acme_low = omega arith

few :
    (ltb 0 empty.cfg.max_projects
      && ltb empty.cfg.max_projects (length (wanted_keys empty.cfg file)))
    ≡ false
unfolding wanted_keys equal
few = refl

other : unchanged empty.cur empty.heap (wanted_keys empty.cfg file) ≡ false
unfolding unchanged
other = refl

Within-two : Within two.cfg.max_projects two.cur
unfolding reload reload_keys wanted_keys unchanged build_table build_pipelines reusable place
    drain_replaced equal
Within-two = inr (omega arith)

dispatch_fields-IsValid_example : IsValid (dispatch_fields 9 fields datagram two).after
dispatch_fields-IsValid_example = dispatch_fields-IsValid 9 fields datagram two two-IsValid

dispatch_fields-outcomes_example :
    outcomes (dispatch_fields 9 fields datagram two) ≡ suc (pending two)
dispatch_fields-outcomes_example = dispatch_fields-outcomes 9 fields datagram two no_drops

dispatch_fields-Delivered_example :
    Delivery 9 fields datagram two (dispatch_fields 9 fields datagram two)
dispatch_fields-Delivered_example = dispatch_fields-Delivered 9 fields datagram two

dispatch-Stripped_example :
    Stripped plain members datagram two.cfg
      (last_of (dispatch plain 9 datagram two).after.shared_raw_ch)
dispatch-Stripped_example =
    dispatch-Stripped plain 9 datagram two members datagram-IsObject acme_delivered

dispatch_fields-Within_example :
    Within two.cfg.max_projects (dispatch_fields 9 fields datagram two).after.cur
dispatch_fields-Within_example = dispatch_fields-Within 9 fields datagram two Within-two

queued : Registry
queued = (dispatch_fields 9 fields datagram two).after

demux-Drained_example :
    Drained (close_shared queued) (demux (suc (length queued.shared_raw_ch)) (close_shared queued))
unfolding queued
demux-Drained_example =
    demux-Drained (close_shared queued) refl
      (dispatch_fields-IsValid 9 fields datagram two two-IsValid)

abbrev stamped_acme : RawDatagram
stamped_acme = record datagram { project = codes "acme" }

forward-handled_example :
    handled (at_ptr (forward stamped_acme two) 0) ≡ suc (handled (at_ptr two 0))
forward-handled_example = forward-handled stamped_acme 0 two acme_found acme_there acme_low

reload-IsValid_example : IsValid (reload 8 8 none (some file) two)
reload-IsValid_example = reload-IsValid 8 8 none (some file) two two-IsValid

reload_keys-serves_example :
    key_at
      (reload_keys 7 7 file empty).heap
      (find (codes "beta") (entries_of (reload_keys 7 7 file empty).cur))
    ≡ find (codes "beta") (wanted_keys empty.cfg file)
reload_keys-serves_example =
    reload_keys-serves 7 7 file empty empty-IsValid few other (codes "beta")

window_pos : 0 < 5
window_pos = omega arith

expire_inline-Expired_example :
    Expired 5 100 queued.heap
      (entries_of queued.cur)
      (entries_of (expire_inline 5 100 queued).0.cur)
expire_inline-Expired_example = expire_inline-Expired 5 100 queued window_pos

named_file : is_empty empty.cfg.keys_file ≡ false
named_file = refl

install-Installed_example : Installed (wanted_keys empty.cfg file) (install 7 (some file) empty)
install-Installed_example = install-Installed 7 file empty empty-IsValid named_file few
