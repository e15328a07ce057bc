-- ===== src/Registry/Registered.antt =====
-- `registerInline` and `dispatch` keep the routes valid.
use metrics_agent.Prelude.{
  ℕ, zero, suc, ◌<◌, ◌≡◌, ◌⊎◌, inl, inr, refl, sym, ap, ◌∙◌, true, false, not, ◌&&◌, List, [], ◌∷◌,
  ◌++◌, Option, none, some, arith, get_elem?, length, length-append, Bytes, ltb, equal, equal_iff,
  Bool-cases, Option-cases, if_both,
}
use metrics_agent.Data.{RawDatagram, default_project}
use metrics_agent.Stats.{PipelineStats, pipeline_routing_closed, pipeline_missing_token}
use metrics_agent.Strip.{RoutingFields}
use metrics_agent.Registry.{
  Registry, Dispatched, Pipeline, RoutingTable, new_pipeline, find, put, or_closed, at_ptr,
  is_empty, is_some, lookup, with_project, register_new, register_inline, count_on, enqueue, touch,
  to_pipeline, resolve, deliver, stamped, dispatch_fields,
}
use metrics_agent.Registry.Routes.{
  IsRouted, IsValid, store-IsRouted, get_elem?-snoc, get_elem?-snoc_last, get_elem?-snoc_past,
  find-put_self, find-put_ne,
}

pub order : (j n : ℕ) → (j < n) ⊎ ((j ≡ n) ⊎ (n < j))
order zero zero = inr (inl refl)
order zero (suc n) = inl (omega arith)
order (suc j) zero = inr (inr (omega arith))
order (suc j) (suc n) = elim (order j n) [
  | inl h ↦ inl (omega (arith, h))
  | inr (inl h) ↦ inr (inl (ap suc h))
  | inr (inr h) ↦ inr (inr (omega (arith, h)))
]

pub some-inj {ℓ} : {A : Type ℓ} {a b : A} (d : A) → some a ≡ some b → a ≡ b
some-inj d e = ap (λ o. elim o [ none ↦ d | some x ↦ x ]) e

module _ (project : Bytes) (now : ℕ) (heap : List Pipeline) where
  -- The pipeline that the registration makes.
  abbrev fresh : Pipeline
  fresh = record (new_pipeline project [] now) { inline = true }

  grown_no_key :
      (cur : Option RoutingTable)
      → IsRouted cur heap
      → (i : ℕ) → (or_closed (get_elem? (heap ++ fresh ∷ []) i)).inline ≡ true
      → (or_closed (get_elem? (heap ++ fresh ∷ []) i)).api_key ≡ []
  grown_no_key cur v i h = elim (order i (length heap)) [
    | inl low ↦
        let e = get_elem?-snoc heap fresh i low in
        ap (λ o. (or_closed o).api_key) e ∙ v.no_key i (ap (λ o. (or_closed o).inline) (sym e) ∙ h)
    | inr (inl here) ↦
        ap (λ j. (or_closed (get_elem? (heap ++ fresh ∷ []) j)).api_key) here
        ∙ ap (λ o. (or_closed o).api_key) (get_elem?-snoc_last heap fresh)
    | inr (inr past) ↦ ap (λ o. (or_closed o).api_key) (get_elem?-snoc_past heap fresh i past)
  ]

  grown_named :
      (k : Bytes) (i : ℕ)
      → i < length heap
      → (or_closed (get_elem? heap i)).project ≡ k
      → (or_closed (get_elem? (heap ++ fresh ∷ []) i)).project ≡ k
  grown_named k i low h = ap (λ o. (or_closed o).project) (get_elem?-snoc heap fresh i low) ∙ h

  -- What an entry of the grown table is: the new one, or one of before.
  entry :
      (t : RoutingTable) (k : Bytes) (i : ℕ)
      → find k (put project (length heap) t.pipelines) ≡ some i
      → ((k ≡ project) × (i ≡ length heap)) ⊎ (find k t.pipelines ≡ some i)
  entry t k i h = elim (Bool-cases (equal k project)) [
    | inl same ↦
        let e = (equal_iff k project).0 same in
        inl (
          e,
          some-inj 0 (
              sym h
              ∙ ap (λ x. find x (put project (length heap) t.pipelines)) e
              ∙ find-put_self project (length heap) t.pipelines),
        )
    | inr other ↦ inr (sym (find-put_ne project k (length heap) t.pipelines other) ∙ h)
  ]

  fresh_named :
      (i : ℕ) → i ≡ length heap → (or_closed (get_elem? (heap ++ fresh ∷ []) i)).project ≡ project
  fresh_named i e =
      ap (λ j. (or_closed (get_elem? (heap ++ fresh ∷ []) j)).project) e
      ∙ ap (λ o. (or_closed o).project) (get_elem?-snoc_last heap fresh)

  fresh_inline :
      (i : ℕ) → i ≡ length heap → (or_closed (get_elem? (heap ++ fresh ∷ []) i)).inline ≡ true
  fresh_inline i e =
      ap (λ j. (or_closed (get_elem? (heap ++ fresh ∷ []) j)).inline) e
      ∙ ap (λ o. (or_closed o).inline) (get_elem?-snoc_last heap fresh)

  default_kept :
      (t : RoutingTable)
      → is_some (find default_project t.pipelines) ≡ true
      → is_some (find default_project (put project (length heap) t.pipelines)) ≡ true
  default_kept t h = elim (Bool-cases (equal default_project project)) [
    | inl same ↦
        ap (λ x. is_some (find x (put project (length heap) t.pipelines)))
          ((equal_iff default_project project).0 same)
        ∙ ap is_some (find-put_self project (length heap) t.pipelines)
    | inr other ↦
        ap is_some (find-put_ne project default_project (length heap) t.pipelines other) ∙ h
  ]

  -- The entries that the grown table shows, for a table already published.
  grown-IsRouted :
      (t : RoutingTable)
      → IsRouted (some t) heap
      → IsRouted
          (some (record t { pipelines = put project (length heap) t.pipelines }))
          (heap ++ fresh ∷ [])
  grown-IsRouted t v = record {
    in_range = λ u k i c f. elim (entry t k i (ap (λ x. find k x.pipelines) (some-inj t c) ∙ f)) [
      | inl (e, n) ↦ omega (arith, n, length-append heap (fresh ∷ []))
      | inr old ↦ omega (arith, v.in_range t k i refl old, length-append heap (fresh ∷ []))
    ];
    named = λ u k i c f. elim (entry t k i (ap (λ x. find k x.pipelines) (some-inj t c) ∙ f)) [
      | inl (e, n) ↦ fresh_named i n ∙ sym e
      | inr old ↦ grown_named k i (v.in_range t k i refl old) (v.named t k i refl old)
    ];
    default_there = λ u c h.
        ap (λ x. is_some (find default_project x.pipelines)) (sym (some-inj t c))
        ∙ default_kept t (v.default_there t refl (ap (λ x. x.has_default) (some-inj t c) ∙ h));
    default_inline = λ u i c h f.
        elim (entry t default_project i
          (ap (λ x. find default_project x.pipelines) (some-inj t c) ∙ f)) [
            | inl (e, n) ↦ fresh_inline i n
            | inr old ↦
                ap (λ o. (or_closed o).inline)
                  (get_elem?-snoc heap fresh i (v.in_range t default_project i refl old))
                ∙ v.default_inline t i refl (ap (λ x. x.has_default) (some-inj t c) ∙ h) old
          ];
    no_key = grown_no_key (some t) v;
  }

  first-IsRouted :
      IsRouted none heap
      → IsRouted (some (with_project project (length heap) none)) (heap ++ fresh ∷ [])
  first-IsRouted v = record {
    in_range = λ u k i c f.
        elim (entry (record { pipelines = []; has_default = false }) k i
          (ap (λ x. find k x.pipelines) (some-inj u c) ∙ f)) [
            | inl (e, n) ↦ omega (arith, n, length-append heap (fresh ∷ []))
            | inr old ↦ absurd (cc)
          ];
    named = λ u k i c f.
        elim (entry (record { pipelines = []; has_default = false }) k i
          (ap (λ x. find k x.pipelines) (some-inj u c) ∙ f)) [
            | inl (e, n) ↦ fresh_named i n ∙ sym e
            | inr old ↦ absurd (cc)
          ];
    default_there = λ u c h. absurd (cc (ap (λ x. x.has_default) (some-inj u c)));
    default_inline = λ u i c h f.
        elim (entry (record { pipelines = []; has_default = false }) default_project i
          (ap (λ x. find default_project x.pipelines) (some-inj u c) ∙ f)) [
            | inl (e, n) ↦ fresh_inline i n
            | inr old ↦ absurd (cc)
          ];
    no_key = grown_no_key none v;
  }

  pub with_project-IsRouted :
      (cur : Option RoutingTable)
      → IsRouted cur heap
      → IsRouted (some (with_project project (length heap) cur)) (heap ++ fresh ∷ [])
  with_project-IsRouted none v = first-IsRouted v
  with_project-IsRouted (some t) v = grown-IsRouted t v

register_new-IsValid :
    (now : ℕ) (project : Bytes) (r : Registry) → IsValid r → IsValid (register_new now project r).0
unfolding register_new
register_new-IsValid now project r v =
    if_both (λ (x : Registry × Option ℕ). IsValid x.0) _ v
      (with_project-IsRouted project now r.heap r.cur v)

register_inline-IsValid :
    (now : ℕ) (project : Bytes) (r : Registry)
    → IsValid r
    → IsValid (register_inline now project r).0
unfolding register_inline
register_inline-IsValid now project r v = elim (Option-cases (lookup project r)) [
  | inl e ↦ rw (register_inline, e) (register_new-IsValid now project r v)
  | inr (i, e) ↦ rw (register_inline, e) v
]

pub resolve-IsValid :
    (now : ℕ) (f : RoutingFields) (r : Registry) → IsValid r → IsValid (resolve now f r).0
unfolding resolve
resolve-IsValid now f r v = elim (Option-cases (lookup f.project r)) [
  | inl e ↦
      elim (Bool-cases
        (r.cfg.inline_tokens && (not (is_empty f.token) && not (is_empty f.project)))) [
          | inl h ↦ rw (resolve, e, h) (register_inline-IsValid now f.project r v)
          | inr h ↦ rw (resolve, e, h) v
        ]
  | inr (i, e) ↦ rw (resolve, e) v
]

count_on-IsValid :
    (i : ℕ) (f : PipelineStats → PipelineStats) (r : Registry)
    → IsValid r
    → IsValid (count_on i f r)
count_on-IsValid i f r v = store-IsRouted r.cur r.heap i _ refl v

abbrev After : Dispatched → Type 0
After d = IsValid d.after

enqueue-IsValid :
    (i : ℕ) (dg : RawDatagram) (r : Registry) → IsValid r → IsValid (enqueue i dg r).after
unfolding enqueue
enqueue-IsValid i dg r v =
    if_both After r.shared_closed (count_on-IsValid i pipeline_routing_closed r v)
      (if_both After (ltb (length r.shared_raw_ch) r.shared_cap) v v)

to_pipeline-IsValid :
    (project : Bytes) (dg : RawDatagram) (i : ℕ) (r : Registry)
    → IsValid r
    → IsValid (to_pipeline project dg i r).after
unfolding to_pipeline
to_pipeline-IsValid project dg i r v =
    let seen : IsValid (touch i dg.at r) = store-IsRouted r.cur r.heap i _ refl v in
    if_both After ((at_ptr r i).inline && is_empty dg.token)
      (count_on-IsValid i pipeline_missing_token r v)
      (if_both After (at_ptr (touch i dg.at r) i).closed
        (count_on-IsValid i pipeline_routing_closed (touch i dg.at r) seen)
        (enqueue-IsValid i (record dg { project = project }) (touch i dg.at r) seen))

deliver-IsValid :
    (project : Bytes) (dg : RawDatagram) (x : Registry × Option ℕ)
    → IsValid x.0
    → IsValid (deliver project dg x).after
unfolding deliver
deliver-IsValid project dg (r, some i) v = to_pipeline-IsValid project dg i r v
deliver-IsValid project dg (r, none) v = v

-- Routing a datagram keeps the table and the heap in order, whatever its fields are, also when it
-- registers a project.
pub dispatch_fields-IsValid :
    (now : ℕ) (f : RoutingFields) (dg : RawDatagram) (r : Registry)
    → IsValid r
    → IsValid (dispatch_fields now f dg r).after
unfolding dispatch_fields
dispatch_fields-IsValid now f dg r v = if_both After f.malformed v (
    if_both After f.bad_project v (
      if_both After (f.bad_token && r.cfg.inline_tokens) v (
        deliver-IsValid f.project (stamped r.cfg.inline_tokens f dg) (resolve now f r)
          (resolve-IsValid now f r v))))
