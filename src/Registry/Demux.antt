-- ===== src/Registry/Demux.antt =====
-- `demux`: what becomes of a datagram behind the shared queue, and that the loop drains the queue.
use metrics_agent.Prelude.{
  ℕ, zero, suc, ◌+◌, ◌^◌, ◌<◌, ◌≡◌, ◌≢◌, inl, inr, refl, sym, ap, ◌∙◌, List, [], ◌∷◌, Option, none,
  some, set, get_elem?, ◌≤◌, ◌⊎◌, ◌++◌, true, false, if◌then◌else◌, arith, get_elem?-set_self,
  get_elem?-set_ne, length, length-append, ltb, Bool-cases, Option-cases, if_both,
}
use metrics_agent.Data.{RawDatagram, pipeline_handoff_depth}
use metrics_agent.Registry.{
  Registry, Pipeline, Sent, delivered, closed_pipeline, queue_full, try_send, or_closed, at_ptr,
  store, lookup, account, forward, demux_step,
}
use metrics_agent.Registry.Registered.{some-inj}
use metrics_agent.Registry.Routes.{IsValid, store-IsRouted}

-- What a pipeline has taken or refused.
abbrev pub handled : Pipeline → ℕ
handled p = length p.raw_ch + p.stats.drops_queue_full + p.stats.drops_routing_closed

at_ptr-store :
    (i : ℕ) (q : Pipeline) (r : Registry) → i < length r.heap → at_ptr (store i q r) i ≡ q
at_ptr-store i q r h = ap or_closed (get_elem?-set_self r.heap i q h)

at_ptr-store_ne :
    (i j : ℕ) (q : Pipeline) (r : Registry) → j ≢ i → at_ptr (store i q r) j ≡ at_ptr r j
at_ptr-store_ne i j q r h = ap or_closed (get_elem?-set_ne r.heap q (λ e. h (sym e)))

account-handled :
    (i : ℕ) (dg : RawDatagram) (r : Registry)
    → i < length r.heap
    → suc (handled (at_ptr r i)) < 2 ^ 64
    → handled (at_ptr (account i (try_send dg (at_ptr r i)) r) i) ≡ suc (handled (at_ptr r i))
unfolding try_send account
account-handled i dg r h n = elim (Bool-cases (at_ptr r i).closed) [
  | inl c ↦ simp c (ap handled (at_ptr-store i _ r h) ∙ omega arith)
  | inr c ↦ elim (Bool-cases (ltb (length (at_ptr r i).raw_ch) pipeline_handoff_depth)) [
    | inl k ↦
        simp (c, k)
          (ap handled (at_ptr-store i _ r h)
            ∙ omega (arith, length-append (at_ptr r i).raw_ch (dg ∷ [])))
    | inr k ↦ simp (c, k) (ap handled (at_ptr-store i _ r h) ∙ omega arith)
  ]
]

-- A datagram whose project is still registered is taken by its pipeline or counted there as
-- refused, exactly once. The counters of the pipeline are below their limit.
pub forward-handled :
    (dg : RawDatagram) (i : ℕ) (r : Registry)
    → lookup dg.project r ≡ some i
    → i < length r.heap
    → suc (handled (at_ptr r i)) < 2 ^ 64
    → handled (at_ptr (forward dg r) i) ≡ suc (handled (at_ptr r i))
unfolding forward
forward-handled dg i r e h n = rw (forward, e) (account-handled i dg r h n)

account-isolated :
    (i j : ℕ) (x : Sent × Pipeline) (r : Registry) → j ≢ i → at_ptr (account i x r) j ≡ at_ptr r j
unfolding account
account-isolated i j (delivered, p) r h = at_ptr-store_ne i j p r h
account-isolated i j (closed_pipeline, p) r h = at_ptr-store_ne i j _ r h
account-isolated i j (queue_full, p) r h = at_ptr-store_ne i j _ r h

-- The other pipelines are not touched.
pub forward-isolated :
    (dg : RawDatagram) (i j : ℕ) (r : Registry)
    → lookup dg.project r ≡ some i
    → j ≢ i
    → at_ptr (forward dg r) j ≡ at_ptr r j
unfolding forward
forward-isolated dg i j r e h =
    rw (forward, e) (account-isolated i j (try_send dg (at_ptr r i)) r h)

abbrev Accounted : ℕ → Registry → Sent × Pipeline → Type 0
Accounted i r x = IsValid (account i x r)

account-IsValid :
    (i : ℕ) (dg : RawDatagram) (r : Registry)
    → IsValid r
    → IsValid (account i (try_send dg (at_ptr r i)) r)
unfolding try_send account
account-IsValid i dg r v =
    if_both (Accounted i r) (at_ptr r i).closed (store-IsRouted r.cur r.heap i _ refl v) (
      if_both (Accounted i r) (ltb (length (at_ptr r i).raw_ch) pipeline_handoff_depth)
        (store-IsRouted r.cur r.heap i _ refl v) (store-IsRouted r.cur r.heap i _ refl v))

account-shared :
    (i : ℕ) (x : Sent × Pipeline) (r : Registry) → (account i x r).shared_raw_ch ≡ r.shared_raw_ch
unfolding account
account-shared i (delivered, p) r = refl
account-shared i (closed_pipeline, p) r = refl
account-shared i (queue_full, p) r = refl

forward-shared : (dg : RawDatagram) (r : Registry) → (forward dg r).shared_raw_ch ≡ r.shared_raw_ch
unfolding forward
forward-shared dg r = elim (Option-cases (lookup dg.project r)) [
  | inl e ↦ rw (forward, e) refl
  | inr (i, e) ↦ rw (forward, e) (account-shared i (try_send dg (at_ptr r i)) r)
]

pub forward-IsValid : (dg : RawDatagram) (r : Registry) → IsValid r → IsValid (forward dg r)
unfolding forward
forward-IsValid dg r v = elim (Option-cases (lookup dg.project r)) [
  | inl e ↦ rw (forward, e) v
  | inr (i, e) ↦ rw (forward, e) (account-IsValid i dg r v)
]

pub account-flag :
    (i : ℕ) (x : Sent × Pipeline) (r : Registry) → (account i x r).shared_closed ≡ r.shared_closed
unfolding account
account-flag i (delivered, p) r = refl
account-flag i (closed_pipeline, p) r = refl
account-flag i (queue_full, p) r = refl

pub queue-cases :
    (q : List RawDatagram)
    → (q ≡ []) ⊎ ((dg : RawDatagram) × (dgs : List RawDatagram) × (q ≡ dg ∷ dgs))
queue-cases [] = inl refl
queue-cases (dg ∷ dgs) = inr (dg, dgs, refl)

forward-flag : (dg : RawDatagram) (r : Registry) → (forward dg r).shared_closed ≡ r.shared_closed
unfolding forward
forward-flag dg r = elim (Option-cases (lookup dg.project r)) [
  | inl e ↦ rw (forward, e) refl
  | inr (i, e) ↦ rw (forward, e) (account-flag i (try_send dg (at_ptr r i)) r)
]

-- The loop of `demux`, for as many turns as the fuel allows. It ends when the queue is empty and
-- closed. `none` is a loop that still waits at an open queue, or fuel that ended first.
unfoldable pub demux : ℕ → Registry → Option Registry
demux zero r = none
demux (suc fuel) r = elim (demux_step r) [
  | none ↦ if r.shared_closed then some r else none
  | some s ↦ demux fuel s
]

pub demux_step-cons :
    (r : Registry) (dg : RawDatagram) (dgs : List RawDatagram)
    → r.shared_raw_ch ≡ dg ∷ dgs
    → demux_step r ≡ some (forward dg (record r { shared_raw_ch = dgs }))
unfolding demux_step
demux_step-cons r dg dgs e = rw (demux_step, e) refl

pub demux_step-nil : (r : Registry) → r.shared_raw_ch ≡ [] → demux_step r ≡ none
unfolding demux_step
demux_step-nil r e = rw (demux_step, e) refl

pub demux-turn : (n : ℕ) (r s : Registry) → demux_step r ≡ some s → demux (suc n) r ≡ demux n s
unfolding demux
demux-turn n r s e = rw (demux, e) refl

pub demux-end :
    (n : ℕ) (r : Registry)
    → demux_step r ≡ none
    → demux (suc n) r ≡ (if r.shared_closed then some r else none)
unfolding demux
demux-end n r e = rw (demux, e) refl

-- What waits for the batcher of a pipeline or was refused because its buffer was full.
abbrev pub load_of : Pipeline → ℕ
load_of p = length p.raw_ch + p.stats.drops_queue_full

abbrev pub load : List Pipeline → ℕ
load [] = 0
load (p ∷ ps) = load_of p + load ps

-- All datagrams behind the shared queue: with a pipeline, refused by its full buffer, or dropped
-- because their project was gone or closed.
abbrev pub arrived : Registry → ℕ
arrived r = load r.heap + r.self.drops_routing_closed

pub load-set :
    (ps : List Pipeline) (i : ℕ) (q p : Pipeline)
    → get_elem? ps i ≡ some p
    → (load (set ps i q) + load_of p ≡ load ps + load_of q) × (load_of p ≤ load ps)
load-set [] i q p h = cc
load-set (x ∷ ps) zero q p h =
    let same : x ≡ p = some-inj p h in
    (
      ap (λ y. load_of q + load ps + load_of y) (sym same) ∙ omega arith,
      omega (arith, ap load_of same),
    )
load-set (x ∷ ps) (suc i) q p h =
    let rest = load-set ps i q p h in (omega (arith, rest.0), omega (arith, rest.1))

pub load-set-none :
    (ps : List Pipeline) (i : ℕ) (q : Pipeline)
    → get_elem? ps i ≡ none
    → load (set ps i q) ≡ load ps
load-set-none [] i q h = refl
load-set-none (x ∷ ps) zero q h = cc
load-set-none (x ∷ ps) (suc i) q h = ap (λ n. load_of x + n) (load-set-none ps i q h)

account-arrived :
    (i : ℕ) (dg : RawDatagram) (r : Registry)
    → suc (arrived r) < 2 ^ 64
    → arrived (account i (try_send dg (at_ptr r i)) r) ≡ suc (arrived r)
unfolding try_send account
account-arrived i dg r n = elim (Option-cases (get_elem? r.heap i)) [
  | inl gone ↦ simp gone (omega (arith, load-set-none r.heap i _ gone))
  | inr (p, there) ↦ elim (Bool-cases p.closed) [
    | inl c ↦ simp (there, c) (omega (arith, load-set r.heap i _ p there))
    | inr c ↦ elim (Bool-cases (ltb (length p.raw_ch) pipeline_handoff_depth)) [
      | inl k ↦
          simp (there, c, k)
            (omega (
              arith,
              load-set r.heap i (record p { raw_ch = p.raw_ch ++ dg ∷ []; closed = false }) p there,
              length-append p.raw_ch (dg ∷ []),
            ))
      | inr k ↦ simp (there, c, k) (omega (arith, load-set r.heap i _ p there))
    ]
  ]
]

forward-arrived :
    (dg : RawDatagram) (r : Registry)
    → suc (arrived r) < 2 ^ 64
    → arrived (forward dg r) ≡ suc (arrived r)
unfolding forward
forward-arrived dg r n = elim (Option-cases (lookup dg.project r)) [
  | inl e ↦ rw (forward, e) (omega arith)
  | inr (i, e) ↦ rw (forward, e) (account-arrived i dg r n)
]

-- The end of the loop.
pub record Drained (r : Registry) (o : Option Registry) : Type 0 where
  pub final : Registry
  pub returns : o ≡ some final
  pub empty : final.shared_raw_ch ≡ []
  pub valid : IsValid final
  pub all_arrived :
      arrived r + length r.shared_raw_ch < 2 ^ 64
      → arrived final ≡ arrived r + length r.shared_raw_ch

drain_all :
    (q : List RawDatagram) (r : Registry)
    → r.shared_raw_ch ≡ q
    → r.shared_closed ≡ true
    → IsValid r
    → Drained r (demux (suc (length q)) r)
drain_all [] r e c v = record {
  final = r;
  returns = demux-end 0 r (demux_step-nil r e) ∙ rw c refl;
  empty = e;
  valid = v;
  all_arrived = λ n. omega (arith, ap length e);
}
drain_all (dg ∷ dgs) r e c v =
    let next = record r { shared_raw_ch = dgs } in
    let after = forward dg next in
    let d =
      drain_all dgs after (forward-shared dg next) (forward-flag dg next ∙ c)
        (forward-IsValid dg next v) in
    record {
      final = d.final;
      returns = demux-turn (suc (length dgs)) r after (demux_step-cons r dg dgs e) ∙ d.returns;
      empty = d.empty;
      valid = d.valid;
      all_arrived = λ n.
          let long = ap length e in
          let short = ap length (forward-shared dg next) in
          let one = forward-arrived dg next (omega (arith, n, long)) in
          omega (arith, d.all_arrived (omega (arith, n, long, short, one)), long, short, one);
    }

-- Once the shared queue is closed, `demux` ends after one turn for each datagram of the queue and
-- one more. The queue is empty then and the routes are valid, and as long as the counters do not
-- wrap, each datagram is in the buffer of a pipeline or counted once, as refused by a full buffer or
-- as dropped because its project was gone or closed.
pub demux-Drained :
    (r : Registry)
    → r.shared_closed ≡ true
    → IsValid r
    → Drained r (demux (suc (length r.shared_raw_ch)) r)
demux-Drained r c v = drain_all r.shared_raw_ch r refl c v

-- At an open queue the loop does not end.
pub demux-waits : (n : ℕ) (r : Registry) → r.shared_closed ≡ false → demux n r ≡ none
unfolding demux
demux-waits zero r c = refl
demux-waits (suc n) r c = elim (queue-cases r.shared_raw_ch) [
  | inl e ↦ demux-end n r (demux_step-nil r e) ∙ rw c refl
  | inr (dg, dgs, e) ↦
      let next = record r { shared_raw_ch = dgs } in
      demux-turn n r (forward dg next) (demux_step-cons r dg dgs e)
      ∙ demux-waits n (forward dg next) (forward-flag dg next ∙ c)
]
