-- ===== src/Registry.antt =====
-- The registry of routing.go: pipelines, the published routing table, the shared queue, and the
-- steps that route a datagram (`lookup`, `registerInline`, `dispatch`, `demux`). A `*pipeline` is
-- its index in the heap; a Go map is an association list; each function is one step, taken while
-- no other goroutine writes.
pub mod Routes
pub mod Registered
pub mod Dispatch
pub mod Queued
pub mod Stripped
pub mod Demux
pub mod Bounds
use metrics_agent.Prelude.{
  ℕ, suc, ◌+◌, Bool, true, false, not, ◌&&◌, ◌||◌, List, [], ◌∷◌, ◌++◌, Option, none, some, ltb,
  leb, if◌then◌else◌, get_elem?, set, length, Bytes, codes, equal,
}
use metrics_agent.Data.{RawDatagram, Config, default_project, pipeline_handoff_depth}
use metrics_agent.Stats.{
  SelfStats, PipelineStats, add_u64, new_pipeline_stats, self_parse_error, self_unrouted_missing,
  self_unrouted_unknown, self_routing_closed, self_bad_token, self_missing_token,
  pipeline_routing_closed, pipeline_missing_token, pipeline_queue_full,
}
use metrics_agent.Strip.{Codec, RoutingFields, extract_and_strip_routing}

-- `pipeline`, without its goroutines and their channels' other ends.
pub record Pipeline : Type 0 where
  pub project : Bytes
  pub api_key : Bytes
  pub inline : Bool
  pub last_seen : ℕ
  pub raw_ch : List RawDatagram
  pub closed : Bool
  pub stats : PipelineStats

abbrev pub new_pipeline : Bytes → Bytes → ℕ → Pipeline
new_pipeline project api_key now = record {
  project = project;
  api_key = api_key;
  inline = false;
  last_seen = now;
  raw_ch = [];
  closed = false;
  stats = new_pipeline_stats;
}

pub data Sent : Type 0 where
  delivered closed_pipeline queue_full : Sent

-- `trySend`
unfoldable pub try_send : RawDatagram → Pipeline → Sent × Pipeline
try_send dg p =
    if p.closed
    then (closed_pipeline, p)
    else if ltb (length p.raw_ch) pipeline_handoff_depth
    then (delivered, record p { raw_ch = p.raw_ch ++ dg ∷ [] })
    else (queue_full, p)

pub record RoutingTable : Type 0 where
  pub pipelines : List (Bytes × ℕ)
  pub has_default : Bool

-- Reading and writing a Go map.
abbrev pub find {ℓ} : {A : Type ℓ} → Bytes → List (Bytes × A) → Option A
find k [] = none
find k ((n, v) ∷ m) = if equal k n then some v else find k m

abbrev pub put {ℓ} : {A : Type ℓ} → Bytes → A → List (Bytes × A) → List (Bytes × A)
put k v [] = (k, v) ∷ []
put k v ((n, w) ∷ m) = let rest = put k v m in if equal k n then (n, v) ∷ m else (n, w) ∷ rest

-- The fields of `registry` and what they point to.
pub record Registry : Type 0 where
  pub cur : Option RoutingTable
  pub heap : List Pipeline
  pub cfg : Config
  pub self : SelfStats
  pub shared_raw_ch : List RawDatagram
  pub shared_cap : ℕ
  pub shared_closed : Bool
  pub inline_projects_registered : ℕ
  pub inline_projects_expired : ℕ
  pub keys_reload_failures : ℕ
  pub last_keys_reload_unix : ℕ

abbrev pub new_registry : Config → SelfStats → Registry
new_registry cfg self = record {
  cur = none;
  heap = [];
  cfg = cfg;
  self = self;
  shared_raw_ch = [];
  shared_cap = if leb cfg.queue_size 0 then 2000 else cfg.queue_size;
  shared_closed = false;
  inline_projects_registered = 0;
  inline_projects_expired = 0;
  keys_reload_failures = 0;
  last_keys_reload_unix = 0;
}

-- What a pointer points to. No table holds a pointer outside the heap: such a pointer would be
-- Go's nil, whose fields cannot be read; here it reads as a closed pipeline.
abbrev pub or_closed : Option Pipeline → Pipeline
or_closed (some p) = p
or_closed none = record (new_pipeline [] [] 0) { closed = true }

abbrev pub at_ptr : Registry → ℕ → Pipeline
at_ptr r i = or_closed (get_elem? r.heap i)

-- `*p = q`
abbrev pub store : ℕ → Pipeline → Registry → Registry
store i p r = record r { heap = set r.heap i p }

abbrev pub is_empty : Bytes → Bool
is_empty [] = true
is_empty (c ∷ s) = false

unfoldable pub lookup_in : Config → Bytes → RoutingTable → Option ℕ
lookup_in cfg project t =
    if is_empty project
    then (if t.has_default && not cfg.require_project
        then find default_project t.pipelines
        else none)
    else find project t.pipelines

unfoldable pub lookup : Bytes → Registry → Option ℕ
lookup project r = elim r.cur [ none ↦ none | some t ↦ lookup_in r.cfg project t ]

abbrev pub len_pipelines : Option RoutingTable → ℕ
len_pipelines none = 0
len_pipelines (some t) = length t.pipelines

-- The table with one more project.
abbrev pub with_project : Bytes → ℕ → Option RoutingTable → RoutingTable
with_project project i none = record { pipelines = (project, i) ∷ []; has_default = false }
with_project project i (some t) = record t { pipelines = put project i t.pipelines }

abbrev pub is_some {ℓ} : {A : Type ℓ} → Option A → Bool
is_some none = false
is_some (some a) = true

-- The part of `registerInline` behind the test for a pipeline made meanwhile.
unfoldable pub register_new : ℕ → Bytes → Registry → Registry × Option ℕ
register_new now project r =
    if is_some r.cur && (ltb 0 r.cfg.max_projects && leb r.cfg.max_projects (len_pipelines r.cur))
    then (r, none)
    else let i = length r.heap in
      (
        record r {
          heap = r.heap ++ record (new_pipeline project [] now) { inline = true } ∷ [];
          cur = some (with_project project i r.cur);
          inline_projects_registered = add_u64 r.inline_projects_registered 1;
        },
        some i,
      )

unfoldable pub register_inline : ℕ → Bytes → Registry → Registry × Option ℕ
register_inline now project r = elim (lookup project r) [
  | some i ↦ (r, some i)
  | none ↦ register_new now project r
]

-- What `dispatch` returns.
pub record Dispatched : Type 0 where
  pub after : Registry
  pub delivered : Bool
  pub queue_full : Bool

abbrev pub dropped : Registry → Dispatched
dropped r = record { after = r; delivered = false; queue_full = false }

abbrev pub count : (SelfStats → SelfStats) → Registry → Registry
count f r = record r { self = f r.self }

abbrev pub count_on : ℕ → (PipelineStats → PipelineStats) → Registry → Registry
count_on i f r = let p = at_ptr r i in store i (record p { stats = f p.stats }) r

abbrev pub drop_closed : ℕ → Registry → Dispatched
drop_closed i r = dropped (count self_routing_closed (count_on i pipeline_routing_closed r))

-- The send on the shared queue.
unfoldable pub enqueue : ℕ → RawDatagram → Registry → Dispatched
enqueue i dg r =
    if r.shared_closed
    then drop_closed i r
    else if ltb (length r.shared_raw_ch) r.shared_cap
    then record {
      after = record r { shared_raw_ch = r.shared_raw_ch ++ dg ∷ [] };
      delivered = true;
      queue_full = false;
    }
    else record { after = r; delivered = false; queue_full = true }

abbrev pub touch : ℕ → ℕ → Registry → Registry
touch i seen r = store i (record (at_ptr r i) { last_seen = seen }) r

-- `dispatch` once the pipeline is known.
unfoldable pub to_pipeline : Bytes → RawDatagram → ℕ → Registry → Dispatched
to_pipeline project dg i r =
    if (at_ptr r i).inline && is_empty dg.token
    then dropped (count self_missing_token (count_on i pipeline_missing_token r))
    else let seen = touch i dg.at r in
      if (at_ptr seen i).closed
      then drop_closed i seen
      else enqueue i (record dg { project = project }) seen

-- `lookup`, and the registration of a project that brings its token.
unfoldable pub resolve : ℕ → RoutingFields → Registry → Registry × Option ℕ
resolve now f r = elim (lookup f.project r) [
  | some i ↦ (r, some i)
  | none ↦
      if r.cfg.inline_tokens && (not (is_empty f.token) && not (is_empty f.project))
      then register_inline now f.project r
      else (r, none)
]

unfoldable pub deliver : Bytes → RawDatagram → Registry × Option ℕ → Dispatched
deliver project dg (r, some i) = to_pipeline project dg i r
deliver project dg (r, none) =
    dropped (count (if is_empty project then self_unrouted_missing else self_unrouted_unknown) r)

-- The datagram without its routing members, with its token where tokens are honoured.
unfoldable pub stamped : Bool → RoutingFields → RawDatagram → RawDatagram
stamped inline_tokens f dg = record dg {
  bytes = if f.removed then f.stripped else dg.bytes;
  token = if inline_tokens then f.token else dg.token;
}

-- `dispatch` behind the scan.
unfoldable pub dispatch_fields : ℕ → RoutingFields → RawDatagram → Registry → Dispatched
dispatch_fields now f dg r =
    if f.malformed
    then dropped (count self_parse_error r)
    else if f.bad_project
    then dropped (count self_unrouted_unknown r)
    else if f.bad_token && r.cfg.inline_tokens
    then dropped (count self_bad_token r)
    else deliver f.project (stamped r.cfg.inline_tokens f dg) (resolve now f r)

unfoldable pub dispatch : Codec → ℕ → RawDatagram → Registry → Dispatched
dispatch codec now dg r = dispatch_fields now (extract_and_strip_routing codec dg.bytes) dg r

-- What `demux` counts after a send.
unfoldable pub account : ℕ → Sent × Pipeline → Registry → Registry
account i (delivered, p) r = store i p r
account i (closed_pipeline, p) r = count self_routing_closed (count_on i pipeline_routing_closed r)
account i (queue_full, p) r = count_on i pipeline_queue_full r

unfoldable pub forward : RawDatagram → Registry → Registry
forward dg r = elim (lookup dg.project r) [
  | none ↦ count self_routing_closed r
  | some i ↦ account i (try_send dg (at_ptr r i)) r
]

-- One turn of the loop of `demux`; `none` while the queue is empty.
unfoldable pub demux_step : Registry → Option Registry
demux_step r = elim r.shared_raw_ch [
  | [] ↦ none
  | dg ∷ dgs ↦ some (forward dg (record r { shared_raw_ch = dgs }))
]

-- `closeShared`
abbrev pub close_shared : Registry → Registry
close_shared r = record r { shared_closed = true }
