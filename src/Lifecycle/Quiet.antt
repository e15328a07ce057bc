-- ===== src/Lifecycle/Quiet.antt =====
-- The steps that leave the table alone.
use metrics_agent.Prelude.{
  ℕ, ◌≡◌, refl, true, false, ◌&&◌, List, [], ◌∷◌, ◌++◌, arith, ltb, length, length-append, Bytes,
  if_both, Bool-cases, inl, inr, ap, sym, ◌∙◌, subst, if◌then◌else◌,
}
use metrics_agent.Data.{RawDatagram, pipeline_handoff_depth}
use metrics_agent.Stats.{
  SelfStats, PipelineStats, self_routing_closed, self_missing_token, pipeline_routing_closed,
  pipeline_missing_token, pipeline_queue_full,
}
use metrics_agent.Registry.{
  Registry, Pipeline, Sent, delivered, queue_full, Dispatched, try_send, at_ptr, store, count,
  count_on, touch, enqueue, to_pipeline, account, is_empty,
}
use metrics_agent.Lifecycle.Heap.{Frozen, Onward-refl}
use metrics_agent.Lifecycle.Sound.{Sound, Good, Good-refl, Good-trans, count-Good, store-Good}

count_on-Good :
    (i : ℕ) (f : PipelineStats → PipelineStats) (r : Registry) → Sound r → Good r (count_on i f r)
count_on-Good i f r v =
    store-Good r i _ refl refl (record { stays = λ e. e; no_more = λ e. omega arith }) v

counted-Good :
    (i : ℕ) (f : PipelineStats → PipelineStats) (g : SelfStats → SelfStats) (r : Registry)
    → Sound r
    → Good r (count g (count_on i f r))
counted-Good i f g r v =
    let one = count_on-Good i f r v in
    Good-trans r (count_on i f r) _ one (count-Good (count_on i f r) _ one.after)

touch-Good : (i seen : ℕ) (r : Registry) → Sound r → Good r (touch i seen r)
touch-Good i seen r v =
    store-Good r i _ refl refl (record { stays = λ e. e; no_more = λ e. omega arith }) v

abbrev After : Registry → Dispatched → Type 0
After r d = Good r d.after

queued-Good :
    (dg : RawDatagram) (r : Registry)
    → ltb (length r.shared_raw_ch) r.shared_cap ≡ true
    → Sound r
    → Good r (record r { shared_raw_ch = r.shared_raw_ch ++ dg ∷ [] })
queued-Good dg r room v = record {
  after = record {
    routes = v.routes;
    distinct = v.distinct;
    opened = v.opened;
    default_keyed = v.default_keyed;
    capacity = ground (arith, length-append r.shared_raw_ch (dg ∷ []));
  };
  onward = Onward-refl r.heap;
}

enqueue-Good : (i : ℕ) (dg : RawDatagram) (r : Registry) → Sound r → After r (enqueue i dg r)
unfolding enqueue
enqueue-Good i dg r v =
    if_both (After r) r.shared_closed
      (counted-Good i pipeline_routing_closed self_routing_closed r v)
      (elim (Bool-cases (ltb (length r.shared_raw_ch) r.shared_cap)) [
        | inl room ↦ rw room (queued-Good dg r room v)
        | inr full ↦ rw full (Good-refl r v)
      ])

pub to_pipeline-Good :
    (project : Bytes) (dg : RawDatagram) (i : ℕ) (r : Registry)
    → Sound r
    → After r (to_pipeline project dg i r)
unfolding to_pipeline
to_pipeline-Good project dg i r v =
    let seen = touch i dg.at r in
    let one = touch-Good i dg.at r v in
    if_both (After r) ((at_ptr r i).inline && is_empty dg.token)
      (counted-Good i pipeline_missing_token self_missing_token r v)
      (if_both (After r) (at_ptr seen i).closed
        (Good-trans r seen _ one
          (counted-Good i pipeline_routing_closed self_routing_closed seen one.after))
        (Good-trans r seen _ one (enqueue-Good i (record dg { project = project }) seen one.after)))

abbrev Accounted : ℕ → Registry → Sent × Pipeline → Type 0
Accounted i r x = Good r (account i x r)

open_Frozen : (p q : Pipeline) → p.closed ≡ false → Frozen p q
open_Frozen p q c = record {
  stays = λ e. absurd (cc (sym c ∙ e));
  no_more = λ e. absurd (cc (sym c ∙ e));
}

try_send-open :
    (dg : RawDatagram) (p : Pipeline)
    → p.closed ≡ false
    → try_send dg p ≡ (
        if ltb (length p.raw_ch) pipeline_handoff_depth
        then (delivered, record p { raw_ch = p.raw_ch ++ dg ∷ [] })
        else (queue_full, p))
unfolding try_send
try_send-open dg p c = rw c refl

-- What a pipeline takes, while it is open.
sent-Good :
    (dg : RawDatagram) (i : ℕ) (r : Registry)
    → (at_ptr r i).closed ≡ false
    → Sound r
    → Accounted i r (try_send dg (at_ptr r i))
unfolding account
sent-Good dg i r c v =
    let taken : Pipeline = record (at_ptr r i) { raw_ch = (at_ptr r i).raw_ch ++ dg ∷ [] } in
    subst (Accounted i r) (sym (try_send-open dg (at_ptr r i) c)) (
      if_both (Accounted i r) (ltb (length (at_ptr r i).raw_ch) pipeline_handoff_depth)
        (store-Good r i taken refl refl (open_Frozen (at_ptr r i) taken c) v)
        (count_on-Good i pipeline_queue_full r v))

pub account-Good :
    (dg : RawDatagram) (i : ℕ) (r : Registry)
    → Sound r
    → Good r (account i (try_send dg (at_ptr r i)) r)
unfolding try_send account
account-Good dg i r v = elim (Bool-cases (at_ptr r i).closed) [
  | inl c ↦ rw c (counted-Good i pipeline_routing_closed self_routing_closed r v)
  | inr c ↦ sent-Good dg i r c v
]

pub dequeues-Good :
    (dg : RawDatagram) (dgs : List RawDatagram) (r : Registry)
    → r.shared_raw_ch ≡ dg ∷ dgs
    → Sound r
    → Good r (record r { shared_raw_ch = dgs })
dequeues-Good dg dgs r e v = record {
  after = record {
    routes = v.routes;
    distinct = v.distinct;
    opened = v.opened;
    default_keyed = v.default_keyed;
    capacity = omega (arith, ap length e, v.capacity);
  };
  onward = Onward-refl r.heap;
}

pub takes-Good :
    (i : ℕ) (dg : RawDatagram) (dgs : List RawDatagram) (r : Registry)
    → (at_ptr r i).raw_ch ≡ dg ∷ dgs
    → Sound r
    → Good r (store i (record (at_ptr r i) { raw_ch = dgs }) r)
takes-Good i dg dgs r e v =
    store-Good r i _ refl refl
      (record { stays = λ c. c; no_more = λ c. omega (arith, ap length e) }) v
