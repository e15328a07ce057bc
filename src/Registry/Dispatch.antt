-- ===== src/Registry/Dispatch.antt =====
-- What `dispatch` does with a datagram: it is queued, refused by a full queue, or counted as one
-- drop; and what a queued datagram holds.
use metrics_agent.Prelude.{
  ℕ, suc, ◌+◌, ◌^◌, ◌<◌, ◌≡◌, inl, inr, refl, Bool, true, false, not, ◌&&◌, [], ◌∷◌, Option, none,
  some, arith, length, length-append, Bytes, Bool-cases, Option-cases,
}
use metrics_agent.Data.{RawDatagram}
use metrics_agent.Stats.{SelfStats}
use metrics_agent.Strip.{RoutingFields}
use metrics_agent.Registry.{
  Registry, Dispatched, is_empty, lookup, register_new, register_inline, enqueue, touch,
  to_pipeline, resolve, deliver, stamped, dispatch_fields,
}

-- What the registration leaves alone.
pub record SameQueue (r s : Registry) : Type 0 where
  pub self_same : s.self ≡ r.self
  pub shared_same : s.shared_raw_ch ≡ r.shared_raw_ch
  pub cap_same : s.shared_cap ≡ r.shared_cap
  pub closed_same : s.shared_closed ≡ r.shared_closed
  pub cfg_same : s.cfg ≡ r.cfg

abbrev same : (r : Registry) → SameQueue r r
same r = record {
  self_same = refl;
  shared_same = refl;
  cap_same = refl;
  closed_same = refl;
  cfg_same = refl;
}

register_new-SameQueue :
    (now : ℕ) (project : Bytes) (r : Registry) → SameQueue r (register_new now project r).0
unfolding register_new
register_new-SameQueue now project r = ground arith

register_inline-SameQueue :
    (now : ℕ) (project : Bytes) (r : Registry) → SameQueue r (register_inline now project r).0
unfolding register_inline
register_inline-SameQueue now project r = elim (Option-cases (lookup project r)) [
  | inl e ↦ rw (register_inline, e) (register_new-SameQueue now project r)
  | inr (i, e) ↦ rw (register_inline, e) (same r)
]

pub resolve-SameQueue :
    (now : ℕ) (f : RoutingFields) (r : Registry) → SameQueue r (resolve now f r).0
unfolding resolve
resolve-SameQueue now f r = elim (Option-cases (lookup f.project r)) [
  | inl e ↦
      elim (Bool-cases
        (r.cfg.inline_tokens && (not (is_empty f.token) && not (is_empty f.project)))) [
          | inl h ↦ rw (resolve, e, h) (register_inline-SameQueue now f.project r)
          | inr h ↦ rw (resolve, e, h) (same r)
        ]
  | inr (i, e) ↦ rw (resolve, e) (same r)
]

-- The drops that `dispatch` counts for the process.
abbrev pub routing_drops : SelfStats → ℕ
routing_drops s =
    s.drops_parse_error + s.drops_unrouted_missing + s.drops_unrouted_unknown
    + s.drops_routing_closed + s.drops_bad_token + s.drops_missing_token

abbrev pub one_if : Bool → ℕ
one_if true = 1
one_if false = 0

-- The outcomes of one datagram, each counted at its place.
abbrev pub outcomes : Dispatched → ℕ
outcomes d = routing_drops d.after.self + length d.after.shared_raw_ch + one_if d.queue_full

abbrev pub pending : Registry → ℕ
pending r = routing_drops r.self + length r.shared_raw_ch

enqueue-outcomes :
    (i : ℕ) (dg : RawDatagram) (r : Registry)
    → suc (routing_drops r.self) < 2 ^ 64
    → outcomes (enqueue i dg r) ≡ suc (pending r)
unfolding enqueue
enqueue-outcomes i dg r h = ground (arith, length-append r.shared_raw_ch (dg ∷ []))

to_pipeline-outcomes :
    (project : Bytes) (dg : RawDatagram) (i : ℕ) (r : Registry)
    → suc (routing_drops r.self) < 2 ^ 64
    → outcomes (to_pipeline project dg i r) ≡ suc (pending r)
unfolding to_pipeline
to_pipeline-outcomes project dg i r h =
    ground (arith, enqueue-outcomes i (record dg { project = project }) (touch i dg.at r))

deliver-outcomes :
    (project : Bytes) (dg : RawDatagram) (x : Registry × Option ℕ)
    → suc (routing_drops x.0.self) < 2 ^ 64
    → outcomes (deliver project dg x) ≡ suc (pending x.0)
unfolding deliver
deliver-outcomes project dg (r, some i) h = to_pipeline-outcomes project dg i r h
deliver-outcomes project dg (r, none) h = ground arith

-- Every datagram has exactly one outcome: it joins the shared queue, the full queue is reported,
-- or one of the process-wide counters of drops grows by one. The counters are below their limit.
pub dispatch_fields-outcomes :
    (now : ℕ) (f : RoutingFields) (dg : RawDatagram) (r : Registry)
    → suc (routing_drops r.self) < 2 ^ 64
    → outcomes (dispatch_fields now f dg r) ≡ suc (pending r)
unfolding dispatch_fields
dispatch_fields-outcomes now f dg r h =
    let q = resolve-SameQueue now f r in
    ground (
      arith,
      deliver-outcomes f.project (stamped r.cfg.inline_tokens f dg) (resolve now f r),
      q.self_same,
      q.shared_same,
    )
