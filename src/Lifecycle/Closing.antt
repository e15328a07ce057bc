-- ===== src/Lifecycle/Closing.antt =====
-- What `shutdown` does to the registry: the shared queue is empty and every published pipeline
-- closed.
use metrics_agent.Prelude.{
  ℕ, zero, suc, ◌+◌, ◌^◌, get_elem?, ◌<◌, ◌≡◌, ◌≢◌, refl, sym, ap, ◌∙◌, subst, true, false, List,
  [], ◌∷◌, Option, none, some, if◌then◌else◌, arith, length, Bytes, equal, Each, inl, inr,
  Bool-cases, Option-cases, get_elem?-set_self,
}
use metrics_agent.Data.{RawDatagram}
use metrics_agent.Registry.{
  Registry, Pipeline, Sent, delivered, closed_pipeline, queue_full, find, or_closed, at_ptr,
  try_send, lookup, account, forward, close_shared,
}
use metrics_agent.Registry.Registered.{some-inj}
use metrics_agent.Registry.Demux.{
  demux, demux-Drained, demux_step-cons, demux_step-nil, demux-turn, demux-end, account-flag,
  queue-cases, arrived, load, load_of, load-set, load-set-none,
}
use metrics_agent.Keys.{close_input, close_all, entries_of, retired, is_idle}
use metrics_agent.Lifecycle.{
  Reach, here, further, forwards, dequeues, counts, pointers, shutdown, each_open,
}
use metrics_agent.Lifecycle.Heap.{pipe}
use metrics_agent.Lifecycle.Entries.{Distinct, Each-found}
use metrics_agent.Lifecycle.Swaps.{close_all-Onward, close_input-Onward, entry-in_range}
use metrics_agent.Lifecycle.Sound.{Sound}
use metrics_agent.Lifecycle.Reached.{Reach-Good}

-- What `demux` leaves as it is.
record Same (r s : Registry) : Type 0 where
  cur_same : s.cur ≡ r.cur
  flag_same : s.shared_closed ≡ r.shared_closed
  steps : Reach r s

account-cur : (i : ℕ) (x : Sent × Pipeline) (r : Registry) → (account i x r).cur ≡ r.cur
unfolding account
account-cur i (delivered, p) r = refl
account-cur i (closed_pipeline, p) r = refl
account-cur i (queue_full, p) r = refl

-- A datagram's way is steps of the relation.
forward-Same : (dg : RawDatagram) (r s : Registry) → Same r s → Same r (forward dg s)
unfolding forward
forward-Same dg r s h = elim (Option-cases (lookup dg.project s)) [
  | inl e ↦
      rw (forward, e)
        (record {
          cur_same = h.cur_same;
          flag_same = h.flag_same;
          steps = further h.steps (counts _);
        })
  | inr (i, e) ↦
      rw (forward, e)
        (record {
          cur_same = account-cur i (try_send dg (at_ptr s i)) s ∙ h.cur_same;
          flag_same = account-flag i (try_send dg (at_ptr s i)) s ∙ h.flag_same;
          steps = further h.steps (forwards dg i);
        })
]

demux_dry : (r : Registry) → demux 0 r ≡ none
unfolding demux
demux_dry r = refl

Same-end :
    (r s t : Registry)
    → Same r s
    → ◌≡◌ {A = Option Registry} (if s.shared_closed then some s else none) (some t)
    → Same r t
Same-end r s t h e = elim (Bool-cases s.shared_closed) [
  | inl c ↦ subst (Same r) (some-inj s (sym (rw c refl) ∙ e)) h
  | inr c ↦ absurd (ground (arith, c, e))
]

demux-Same : (n : ℕ) (r s t : Registry) → Same r s → demux n s ≡ some t → Same r t
demux-Same zero r s t h e = let dry = demux_dry s in absurd (cc)
demux-Same (suc n) r s t h e = elim (queue-cases s.shared_raw_ch) [
  | inl empty ↦ Same-end r s t h (sym (demux-end n s (demux_step-nil s empty)) ∙ e)
  | inr (dg, dgs, waits) ↦
      let next = record s { shared_raw_ch = dgs } in
      demux-Same n r (forward dg next) t
        (forward-Same dg r next (record {
          cur_same = h.cur_same;
          flag_same = h.flag_same;
          steps = further h.steps (dequeues waits);
        }))
        (sym (demux-turn n s (forward dg next) (demux_step-cons s dg dgs waits)) ∙ e)
]

-- The drains close every pipeline they are given.
close_all-closed :
    (heap : List Pipeline) (es : List (Bytes × ℕ)) (k : Bytes) (i : ℕ)
    → find k es ≡ some i
    → i < length heap
    → (pipe (close_all (pointers es) heap) i).closed ≡ true
close_all-closed heap [] k i f h = absurd (cc)
close_all-closed heap ((n, j) ∷ es) k i f h =
    let after = close_input j heap in
    let first = close_input-Onward j heap in
    elim (Bool-cases (equal k n)) [
      | inl e ↦
          let same : j ≡ i = some-inj 0 (sym (rw e refl) ∙ f) in
          ((close_all-Onward (pointers es) after).frozen i (omega (arith, first.longer))).stays (
            ap (λ x. (pipe (close_input x heap) i).closed) same
            ∙ ap (λ o. (or_closed o).closed) (get_elem?-set_self heap i _ h))
      | inr e ↦ close_all-closed after es k i (sym (rw e refl) ∙ f) (omega (arith, first.longer))
    ]

-- A drain leaves what waits and what was refused.
close_input-load : (i : ℕ) (heap : List Pipeline) → load (close_input i heap) ≡ load heap
close_input-load i heap = elim (Option-cases (get_elem? heap i)) [
  | inl gone ↦ load-set-none heap i _ gone
  | inr (p, there) ↦ omega (
    arith,
    load-set heap i (record (or_closed (get_elem? heap i)) { closed = true }) p there,
    ap (λ o. load_of (or_closed o)) there,
  )
]

close_all-load : (is : List ℕ) (heap : List Pipeline) → load (close_all is heap) ≡ load heap
close_all-load [] heap = refl
close_all-load (i ∷ is) heap = close_all-load is (close_input i heap) ∙ close_input-load i heap

pub record Ended (r : Registry) (o : Option Registry) : Type 0 where
  pub final : Registry
  pub returns : o ≡ some final
  pub table_same : final.cur ≡ r.cur
  pub one_each : Distinct (entries_of final.cur)
  pub no_more : final.shared_closed ≡ true
  pub queue_empty : final.shared_raw_ch ≡ []
  pub all_closed :
      (k : Bytes) (i : ℕ)
      → find k (entries_of final.cur) ≡ some i
      → (pipe final.heap i).closed ≡ true
  pub all_arrived :
      arrived r + length r.shared_raw_ch < 2 ^ 64
      → arrived final ≡ arrived r + length r.shared_raw_ch

shut-Sound : (r : Registry) → Sound r → Sound (close_shared r)
shut-Sound r v = record {
  routes = v.routes;
  distinct = v.distinct;
  opened = v.opened;
  default_keyed = v.default_keyed;
  capacity = v.capacity;
}

-- What `shutdown` of a registry that the agent has reached does to it: no datagram is taken any
-- more, the shared queue is empty, its datagrams have arrived, and each pipeline that can be looked
-- up is closed.
pub shutdown-Ended : (r : Registry) → Sound r → Ended r (shutdown r)
unfolding shutdown
shutdown-Ended r v =
    let start = shut-Sound r v in
    let d = demux-Drained (close_shared r) refl start.routes in
    let same =
      demux-Same (suc (length r.shared_raw_ch)) (close_shared r) (close_shared r) d.final
        (record { cur_same = refl; flag_same = refl; steps = here }) d.returns in
    let sound = (Reach-Good (close_shared r) d.final same.steps start).after in
    record {
      final = record (d.final) {
        heap = close_all (pointers (entries_of d.final.cur)) d.final.heap;
      };
      returns = rw (d.returns, shutdown) refl;
      table_same = same.cur_same;
      one_each = sound.distinct;
      no_more = same.flag_same;
      queue_empty = d.empty;
      all_closed = λ k i f.
          close_all-closed d.final.heap (entries_of d.final.cur) k i f
            (entry-in_range d.final.cur d.final.heap k i sound.routes f);
      all_arrived = λ n.
          omega (
            arith,
            d.all_arrived n,
            close_all-load (pointers (entries_of d.final.cur)) d.final.heap,
          );
    }

retired-closed :
    (cutoff : ℕ) (heap : List Pipeline) (es : List (Bytes × ℕ))
    → Each (λ e. (pipe heap e.1).closed ≡ true) es
    → retired cutoff heap es ≢ []
    → each_open (retired cutoff heap es) heap ≡ false
unfolding retired each_open
retired-closed cutoff heap [] h ne = absurd (ne refl)
retired-closed cutoff heap ((n, i) ∷ es) h ne = elim (Bool-cases (is_idle cutoff (pipe heap i))) [
  | inl idle ↦ rw (idle, h.0) refl
  | inr live ↦ let rest = retired-closed cutoff heap es h.1 (λ e. ne (rw live e)) in rw live rest
]

-- `expireInline` still runs while `shutdown` waits and after it: an inline pipeline that is idle then
-- is drained a second time, and its channel closed a second time.
pub shutdown-expiry :
    (r s : Registry) (cutoff : ℕ)
    → Sound r
    → shutdown r ≡ some s
    → retired cutoff s.heap (entries_of s.cur) ≢ []
    → each_open (retired cutoff s.heap (entries_of s.cur)) s.heap ≡ false
shutdown-expiry r s cutoff v h ne =
    let e = shutdown-Ended r v in
    let same : e.final ≡ s = some-inj s (sym e.returns ∙ h) in
    let closed : Each (λ x. (pipe e.final.heap x.1).closed ≡ true) (entries_of e.final.cur) =
      Each-found (λ k i. (pipe e.final.heap i).closed ≡ true) (entries_of e.final.cur) e.one_each
        e.all_closed in
    retired-closed cutoff s.heap (entries_of s.cur)
      (subst (λ (x : Registry). Each (λ y. (pipe x.heap y.1).closed ≡ true) (entries_of x.cur)) same
        closed)
      ne
