-- ===== src/Registry/Queued.antt =====
-- The datagrams on the shared queue: when they get there.
use metrics_agent.Prelude.{
  ℕ, ◌<◌, ◌≡◌, if◌then◌else◌, ◌⊎◌, inl, inr, refl, sym, ap, ◌∙◌, subst, Bool, true, false, [], ◌∷◌,
  ◌++◌, Option, none, some, arith, length, Bytes, Bool-cases,
}
use metrics_agent.Data.{RawDatagram}
use metrics_agent.Strip.{RoutingFields}
use metrics_agent.Registry.{
  Registry, Dispatched, at_ptr, is_empty, enqueue, touch, to_pipeline, resolve, deliver, stamped,
  dispatch_fields,
}
use metrics_agent.Registry.Routes.{kept}
use metrics_agent.Registry.Registered.{some-inj}
use metrics_agent.Registry.Dispatch.{resolve-SameQueue}

-- What a step has put on the queue.
record Enqueued (dg : RawDatagram) (r s : Registry) : Type 0 where
  joins : s.shared_raw_ch ≡ r.shared_raw_ch ++ dg ∷ []
  open_queue : r.shared_closed ≡ false
  room : length r.shared_raw_ch < r.shared_cap

enqueue-Enqueued :
    (i : ℕ) (dg : RawDatagram) (r : Registry)
    → (enqueue i dg r).delivered ≡ true
    → Enqueued dg r (enqueue i dg r).after
unfolding enqueue
enqueue-Enqueued i dg r h = ground arith

-- A datagram goes to an open pipeline, of the keys file or with its own token.
pub record Routed (project : Bytes) (dg : RawDatagram) (i : ℕ) (r s : Registry) : Type 0 where
  pub joins : s.shared_raw_ch ≡ r.shared_raw_ch ++ record dg { project = project } ∷ []
  pub open_queue : r.shared_closed ≡ false
  pub room : length r.shared_raw_ch < r.shared_cap
  pub open_pipeline : (at_ptr r i).closed ≡ false
  pub credential : ((at_ptr r i).inline ≡ false) ⊎ (is_empty dg.token ≡ false)

touch-closed :
    (i seen : ℕ) (r : Registry) → (at_ptr (touch i seen r) i).closed ≡ (at_ptr r i).closed
touch-closed i seen r = kept (λ p. p.closed) r.heap i _ refl i

to_pipeline-Routed :
    (project : Bytes) (dg : RawDatagram) (i : ℕ) (r : Registry)
    → (to_pipeline project dg i r).delivered ≡ true
    → Routed project dg i r (to_pipeline project dg i r).after
unfolding to_pipeline
to_pipeline-Routed project dg i r h = ground (
  arith,
  enqueue-Enqueued i (record dg { project = project }) (touch i dg.at r),
  touch-closed i dg.at r,
)

to_pipeline-delivers :
    (project : Bytes) (dg : RawDatagram) (i : ℕ) (r : Registry)
    → r.shared_closed ≡ false
    → length r.shared_raw_ch < r.shared_cap
    → (at_ptr r i).closed ≡ false
    → ((at_ptr r i).inline ≡ false) ⊎ (is_empty dg.token ≡ false)
    → (to_pipeline project dg i r).delivered ≡ true
unfolding to_pipeline enqueue
to_pipeline-delivers project dg i r open_queue room open_pipeline credential =
    ground (arith, touch-closed i dg.at r, open_queue, room, open_pipeline, credential)

-- A datagram that is not delivered leaves the queue alone.
to_pipeline-kept :
    (project : Bytes) (dg : RawDatagram) (i : ℕ) (r : Registry)
    → (to_pipeline project dg i r).delivered ≡ false
    → (to_pipeline project dg i r).after.shared_raw_ch ≡ r.shared_raw_ch
unfolding to_pipeline enqueue
to_pipeline-kept project dg i r h = ground arith

deliver-kept :
    (project : Bytes) (dg : RawDatagram) (x : Registry × Option ℕ)
    → (deliver project dg x).delivered ≡ false
    → (deliver project dg x).after.shared_raw_ch ≡ x.0.shared_raw_ch
unfolding deliver
deliver-kept project dg (r, some i) h = to_pipeline-kept project dg i r h
deliver-kept project dg (r, none) h = refl

pub dispatch_fields-kept :
    (now : ℕ) (f : RoutingFields) (dg : RawDatagram) (r : Registry)
    → (dispatch_fields now f dg r).delivered ≡ false
    → (dispatch_fields now f dg r).after.shared_raw_ch ≡ r.shared_raw_ch
unfolding dispatch_fields
dispatch_fields-kept now f dg r h =
    let q = resolve-SameQueue now f r in
    ground (
      arith,
      deliver-kept f.project (stamped r.cfg.inline_tokens f dg) (resolve now f r),
      q.shared_same,
    )

-- The body and the token of a datagram behind its scan.
abbrev pub body_left : RoutingFields → RawDatagram → Bytes
body_left f dg = if f.removed then f.stripped else dg.bytes

abbrev pub token_brought : Bool → RoutingFields → RawDatagram → Bytes
token_brought true f dg = f.token
token_brought false f dg = dg.token

-- What it takes to be delivered.
pub record Deliverable (now : ℕ) (f : RoutingFields) (dg : RawDatagram) (r : Registry)
    : Type 0 where
  pub well_formed : f.malformed ≡ false
  pub project_good : f.bad_project ≡ false
  pub token_good : (f.bad_token ≡ false) ⊎ (r.cfg.inline_tokens ≡ false)
  pub open_queue : r.shared_closed ≡ false
  pub room : length r.shared_raw_ch < r.shared_cap
  pub pipeline : ℕ
  pub is_routed : (resolve now f r).1 ≡ some pipeline
  pub open_pipeline : (at_ptr (resolve now f r).0 pipeline).closed ≡ false
  pub credential :
      ((at_ptr (resolve now f r).0 pipeline).inline ≡ false)
      ⊎ (is_empty (token_brought r.cfg.inline_tokens f dg) ≡ false)

-- The queue with the datagram at its end, stripped and stamped.
abbrev pub Joined : RoutingFields → RawDatagram → Registry → Registry → Type 0
Joined f dg r s =
    s.shared_raw_ch
    ≡ r.shared_raw_ch
      ++ record {
        bytes = body_left f dg;
        at = dg.at;
        project = f.project;
        token = token_brought r.cfg.inline_tokens f dg;
      }
        ∷ []

-- Either all conditions hold and the datagram is queued, or one fails and the queue is unchanged.
pub data Delivery (now : ℕ) (f : RoutingFields) (dg : RawDatagram) (r : Registry) (d : Dispatched)
    : Type 0 where
  queued :
      d.delivered ≡ true → Deliverable now f dg r → Joined f dg r d.after → Delivery now f dg r d
  left_out :
      d.delivered ≡ false
      → ¬ Deliverable now f dg r
      → d.after.shared_raw_ch ≡ r.shared_raw_ch
      → Delivery now f dg r d

stamped-bytes :
    (inline_tokens : Bool) (f : RoutingFields) (dg : RawDatagram)
    → (stamped inline_tokens f dg).bytes ≡ body_left f dg
unfolding stamped
stamped-bytes inline_tokens f dg = refl

stamped-token :
    (inline_tokens : Bool) (f : RoutingFields) (dg : RawDatagram)
    → (stamped inline_tokens f dg).token ≡ token_brought inline_tokens f dg
unfolding stamped
stamped-token true f dg = refl
stamped-token false f dg = refl

stamped-project :
    (inline_tokens : Bool) (f : RoutingFields) (dg : RawDatagram)
    → record (stamped inline_tokens f dg) { project = f.project } ≡ record {
      bytes = body_left f dg;
      at = dg.at;
      project = f.project;
      token = token_brought inline_tokens f dg;
    }
unfolding stamped
stamped-project true f dg = refl
stamped-project false f dg = refl

module _ (now : ℕ) (f : RoutingFields) (dg : RawDatagram) (r : Registry) where
  -- The datagram as it goes to its pipeline.
  abbrev sent_on : RawDatagram
  sent_on = stamped r.cfg.inline_tokens f dg

  token_sent : is_empty sent_on.token ≡ is_empty (token_brought r.cfg.inline_tokens f dg)
  token_sent = ap is_empty (stamped-token r.cfg.inline_tokens f dg)

  deliver-Deliverable :
      (x : Registry × Option ℕ)
      → resolve now f r ≡ x
      → f.malformed ≡ false
      → f.bad_project ≡ false
      → (f.bad_token ≡ false) ⊎ (r.cfg.inline_tokens ≡ false)
      → (deliver f.project sent_on x).delivered ≡ true
      → Deliverable now f dg r × Joined f dg r (deliver f.project sent_on x).after
  unfolding deliver
  deliver-Deliverable (q, none) e m b t h = cc
  deliver-Deliverable (q, some i) e m b t h =
      let k = to_pipeline-Routed f.project sent_on i q h in
      let s = resolve-SameQueue now f r in
      let q_is : (resolve now f r).0 ≡ q = ap (λ x. x.0) e in
      (
        record {
          well_formed = m;
          project_good = b;
          token_good = t;
          open_queue = sym s.closed_same ∙ ap (λ x. x.shared_closed) q_is ∙ k.open_queue;
          room = omega (
            arith,
            ap length s.shared_same,
            s.cap_same,
            ap (λ x. length x.shared_raw_ch) q_is,
            ap (λ x. x.shared_cap) q_is,
            k.room,
          );
          pipeline = i;
          is_routed = ap (λ x. x.1) e;
          open_pipeline = ap (λ x. (at_ptr x i).closed) q_is ∙ k.open_pipeline;
          credential =
              subst (λ c. ((at_ptr (resolve now f r).0 i).inline ≡ false) ⊎ (c ≡ false)) token_sent
                (subst (λ x. ((at_ptr x i).inline ≡ false) ⊎ (is_empty sent_on.token ≡ false))
                  (sym q_is) k.credential);
        },
        k.joins
            ∙ ap (λ x. x ++ record sent_on { project = f.project } ∷ [])
                (ap (λ x. x.shared_raw_ch) (sym q_is) ∙ s.shared_same)
            ∙ ap (λ x. r.shared_raw_ch ++ x ∷ []) (stamped-project r.cfg.inline_tokens f dg),
      )

  passed :
      (dispatch_fields now f dg r).delivered ≡ true
      → (f.malformed ≡ false)
        × ((f.bad_project ≡ false)
            × (((f.bad_token ≡ false) ⊎ (r.cfg.inline_tokens ≡ false))
                × (dispatch_fields now f dg r ≡ deliver f.project sent_on (resolve now f r))))
  unfolding dispatch_fields
  passed h = ground arith

  deliver-delivers :
      (x : Registry × Option ℕ) (i : ℕ)
      → resolve now f r ≡ x
      → x.1 ≡ some i
      → (c : Deliverable now f dg r) → c.pipeline ≡ i
      → (deliver f.project sent_on x).delivered ≡ true
  unfolding deliver
  deliver-delivers (q, none) i e o c same = cc
  deliver-delivers (q, some j) i e o c same =
      let s = resolve-SameQueue now f r in
      let q_is : (resolve now f r).0 ≡ q = ap (λ x. x.0) e in
      let it : c.pipeline ≡ j = same ∙ some-inj 0 (sym o) in
      to_pipeline-delivers f.project sent_on j q
        (ap (λ x. x.shared_closed) (sym q_is) ∙ s.closed_same ∙ c.open_queue)
        (omega (
          arith,
          ap length s.shared_same,
          s.cap_same,
          ap (λ x. length x.shared_raw_ch) q_is,
          ap (λ x. x.shared_cap) q_is,
          c.room,
        ))
        (ap (λ x. (at_ptr x j).closed) (sym q_is)
          ∙ ap (λ n. (at_ptr (resolve now f r).0 n).closed) (sym it)
          ∙ c.open_pipeline)
        (subst (λ x. ((at_ptr x j).inline ≡ false) ⊎ (is_empty sent_on.token ≡ false)) q_is
          (subst
            (λ n.
              ((at_ptr (resolve now f r).0 n).inline ≡ false) ⊎ (is_empty sent_on.token ≡ false))
            it
            (subst (λ b. ((at_ptr (resolve now f r).0 c.pipeline).inline ≡ false) ⊎ (b ≡ false))
              (sym token_sent) c.credential)))

  dispatch_fields-delivers : Deliverable now f dg r → (dispatch_fields now f dg r).delivered ≡ true
  unfolding dispatch_fields
  dispatch_fields-delivers c = ground (
    arith,
    c.well_formed,
    c.project_good,
    c.token_good,
    deliver-delivers (resolve now f r) c.pipeline refl c.is_routed c refl,
  )

  -- A datagram is queued exactly when its scan succeeded, with a usable project and a usable token
  -- where tokens are honoured; a pipeline was found or registered for it and is open; this one is
  -- not inline unless a token came; and the queue is open and has room. Then it is last in the
  -- queue, with its project, its token and the body without its routing members; otherwise the
  -- queue is unchanged.
  pub dispatch_fields-Delivered : Delivery now f dg r (dispatch_fields now f dg r)
  dispatch_fields-Delivered = elim (Bool-cases (dispatch_fields now f dg r).delivered) [
    | inl h ↦
        let p = passed h in
        let d =
          deliver-Deliverable (resolve now f r) refl p.0 p.1.0 p.1.1.0
            (sym (ap (λ x. x.delivered) p.1.1.1) ∙ h) in
        queued h d.0 (ap (λ x. x.after.shared_raw_ch) p.1.1.1 ∙ d.1)
    | inr h ↦
        left_out h (λ c. cc (sym h ∙ dispatch_fields-delivers c))
          (dispatch_fields-kept now f dg r h)
  ]

  pub delivered-Joined :
      (dispatch_fields now f dg r).delivered ≡ true
      → Joined f dg r (dispatch_fields now f dg r).after
  delivered-Joined h = elim dispatch_fields-Delivered [
    | queued d c j ↦ j
    | left_out d c k ↦ absurd (cc (sym h ∙ d))
  ]

  pub delivered-room :
      (dispatch_fields now f dg r).delivered ≡ true → length r.shared_raw_ch < r.shared_cap
  delivered-room h = elim dispatch_fields-Delivered [
    | queued d c j ↦ c.room
    | left_out d c k ↦ absurd (cc (sym h ∙ d))
  ]
