-- ===== src/Registry/Bounds.antt =====
-- The limits of the registry: the shared queue never holds more than its capacity, and no
-- datagram makes the table grow beyond `MaxProjects`.
use metrics_agent.Prelude.{
  ℕ, suc, ◌≤◌, ◌≡◌, ◌⊎◌, inl, inr, refl, sym, ap, subst, not, ◌&&◌, List, [], ◌∷◌, Option, none,
  some, arith, length, length-append, Bytes, equal, Bool-cases, Option-cases, if_both,
}
use metrics_agent.Data.{RawDatagram}
use metrics_agent.Strip.{RoutingFields}
use metrics_agent.Registry.{
  Registry, Dispatched, RoutingTable, put, is_empty, lookup, len_pipelines, with_project,
  register_new, register_inline, enqueue, touch, to_pipeline, resolve, deliver, stamped,
  dispatch_fields,
}
use metrics_agent.Registry.Queued.{delivered-Joined, delivered-room, dispatch_fields-kept}

-- The shared queue stays within its capacity, which no datagram changes.
pub dispatch_fields-capacity :
    (now : ℕ) (f : RoutingFields) (dg : RawDatagram) (r : Registry)
    → length r.shared_raw_ch ≤ r.shared_cap
    → length (dispatch_fields now f dg r).after.shared_raw_ch ≤ r.shared_cap
dispatch_fields-capacity now f dg r h = elim (Bool-cases (dispatch_fields now f dg r).delivered) [
  | inl d ↦
      let k = delivered-Joined now f dg r d in
      let room = delivered-room now f dg r d in
      omega (arith, ap length k, length-append r.shared_raw_ch _, room)
  | inr d ↦ omega (arith, ap length (dispatch_fields-kept now f dg r d))
]

length-put {ℓ} :
    {A : Type ℓ} (k : Bytes) (v : A) (m : List (Bytes × A)) → length (put k v m) ≤ suc (length m)
length-put k v [] = omega arith
length-put k v ((n, w) ∷ m) =
    if_both (λ (x : List (Bytes × _)). length x ≤ suc (suc (length m))) (equal k n) (omega arith)
      (omega (arith, length-put k v m))

-- Within the limit, where there is one.
abbrev pub Within : ℕ → Option RoutingTable → Type 0
Within limit cur = (limit ≡ 0) ⊎ (len_pipelines cur ≤ limit)

length-with_project :
    (project : Bytes) (i : ℕ) (cur : Option RoutingTable)
    → length (with_project project i cur).pipelines ≤ suc (len_pipelines cur)
length-with_project project i none = omega arith
length-with_project project i (some t) = length-put project i t.pipelines

register_new-Within :
    (now : ℕ) (project : Bytes) (r : Registry)
    → Within r.cfg.max_projects r.cur
    → Within r.cfg.max_projects (register_new now project r).0.cur
unfolding register_new
register_new-Within now project r h = go r.cur refl
  where
    go :
        (cur : Option RoutingTable)
        → r.cur ≡ cur
        → Within r.cfg.max_projects (register_new now project r).0.cur
    go none e = ground (arith, length-with_project project (length r.heap) r.cur)
    go (some t) e = ground (arith, length-with_project project (length r.heap) r.cur)

register_inline-Within :
    (now : ℕ) (project : Bytes) (r : Registry)
    → Within r.cfg.max_projects r.cur
    → Within r.cfg.max_projects (register_inline now project r).0.cur
unfolding register_inline
register_inline-Within now project r h = elim (Option-cases (lookup project r)) [
  | inl e ↦ rw (register_inline, e) (register_new-Within now project r h)
  | inr (i, e) ↦ rw (register_inline, e) h
]

resolve-Within :
    (now : ℕ) (f : RoutingFields) (r : Registry)
    → Within r.cfg.max_projects r.cur
    → Within r.cfg.max_projects (resolve now f r).0.cur
unfolding resolve
resolve-Within now f r h = elim (Option-cases (lookup f.project r)) [
  | inl e ↦
      elim (Bool-cases
        (r.cfg.inline_tokens && (not (is_empty f.token) && not (is_empty f.project)))) [
          | inl b ↦ rw (resolve, e, b) (register_inline-Within now f.project r h)
          | inr b ↦ rw (resolve, e, b) h
        ]
  | inr (i, e) ↦ rw (resolve, e) h
]

abbrev SameTable : Registry → Dispatched → Type 0
SameTable r d = d.after.cur ≡ r.cur

enqueue-cur : (i : ℕ) (dg : RawDatagram) (r : Registry) → SameTable r (enqueue i dg r)
unfolding enqueue
enqueue-cur i dg r = ground arith

to_pipeline-cur :
    (project : Bytes) (dg : RawDatagram) (i : ℕ) (r : Registry)
    → SameTable r (to_pipeline project dg i r)
unfolding to_pipeline
to_pipeline-cur project dg i r =
    ground (arith, enqueue-cur i (record dg { project = project }) (touch i dg.at r))

deliver-cur :
    (project : Bytes) (dg : RawDatagram) (x : Registry × Option ℕ)
    → SameTable x.0 (deliver project dg x)
unfolding deliver
deliver-cur project dg (r, some i) = to_pipeline-cur project dg i r
deliver-cur project dg (r, none) = refl

-- Where `MaxProjects` is a limit and the table is within it, the table is within it after any
-- datagram, however many projects ask to be registered.
pub dispatch_fields-Within :
    (now : ℕ) (f : RoutingFields) (dg : RawDatagram) (r : Registry)
    → Within r.cfg.max_projects r.cur
    → Within r.cfg.max_projects (dispatch_fields now f dg r).after.cur
unfolding dispatch_fields
dispatch_fields-Within now f dg r h = if_both Kept f.malformed h (
    if_both Kept f.bad_project h (
      if_both Kept (f.bad_token && r.cfg.inline_tokens) h (
        subst (Within r.cfg.max_projects)
          (sym (deliver-cur f.project (stamped r.cfg.inline_tokens f dg) (resolve now f r)))
          (resolve-Within now f r h))))
  where
    Kept : Dispatched → Type 0
    Kept d = Within r.cfg.max_projects d.after.cur
