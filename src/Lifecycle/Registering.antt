-- ===== src/Lifecycle/Registering.antt =====
-- `registerInline`: the new pipeline is open, and no other entry changes.
use metrics_agent.Prelude.{
  ℕ, ◌<◌, ◌≡◌, ◌⊎◌, refl, sym, ap, ◌∙◌, true, false, not, ◌&&◌, List, [], ◌∷◌, ◌++◌, Option, none,
  some, arith, length, Bytes, equal, equal_iff, inl, inr, Bool-cases, Option-cases, if_both,
}
use metrics_agent.Data.{default_project}
use metrics_agent.Strip.{RoutingFields}
use metrics_agent.Registry.{
  Registry, Pipeline, RoutingTable, new_pipeline, find, put, or_closed, is_empty, lookup, lookup_in,
  with_project, register_new, register_inline, resolve,
}
use metrics_agent.Registry.Routes.{find-put_self, find-put_ne, get_elem?-snoc, get_elem?-snoc_last}
use metrics_agent.Registry.Registered.{with_project-IsRouted, some-inj}
use metrics_agent.Keys.{entries_of}
use metrics_agent.Lifecycle.Heap.{pipe, snoc-Onward}
use metrics_agent.Lifecycle.Entries.{Distinct-with_project}
use metrics_agent.Lifecycle.Swaps.{Opened, entry-in_range}
use metrics_agent.Lifecycle.Sound.{Sound, Good, Good-refl, DefaultKeyed}

module _ (project : Bytes) (now : ℕ) (heap : List Pipeline) where
  abbrev fresh : Pipeline
  fresh = record (new_pipeline project [] now) { inline = true }

  put-found :
      (es : List (Bytes × ℕ)) (k : Bytes) (i : ℕ)
      → find k (put project (length heap) es) ≡ some i
      → (i ≡ length heap) ⊎ (find k es ≡ some i)
  put-found es k i h = elim (Bool-cases (equal k project)) [
    | inl e ↦ inl (
        some-inj 0 (
          sym h
          ∙ ap (λ x. find x (put project (length heap) es)) ((equal_iff k project).0 e)
          ∙ find-put_self project (length heap) es))
    | inr e ↦ inr (sym (find-put_ne project k (length heap) es e) ∙ h)
  ]

  -- An entry of the new table.
  entry-found :
      (cur : Option RoutingTable) (k : Bytes) (i : ℕ)
      → find k (with_project project (length heap) cur).pipelines ≡ some i
      → (i ≡ length heap) ⊎ (find k (entries_of cur) ≡ some i)
  entry-found none k i h = put-found [] k i h
  entry-found (some t) k i h = put-found t.pipelines k i h

  new-Opened :
      (cur : Option RoutingTable)
      → ((k : Bytes) (i : ℕ) → find k (entries_of cur) ≡ some i → i < length heap)
      → Opened (entries_of cur) heap
      → Opened (with_project project (length heap) cur).pipelines (heap ++ fresh ∷ [])
  new-Opened cur inside opened k i h = elim (entry-found cur k i h) [
    | inl e ↦
        ap (λ j. (pipe (heap ++ fresh ∷ []) j).closed) e
        ∙ ap (λ o. (or_closed o).closed) (get_elem?-snoc_last heap fresh)
    | inr old ↦
        ap (λ o. (or_closed o).closed) (get_elem?-snoc heap fresh i (inside k i old))
        ∙ opened k i old
  ]

  new-DefaultKeyed :
      (cur : Option RoutingTable)
      → find project (entries_of cur) ≡ none
      → ((k : Bytes) (i : ℕ) → find k (entries_of cur) ≡ some i → i < length heap)
      → DefaultKeyed cur heap
      → DefaultKeyed (some (with_project project (length heap) cur)) (heap ++ fresh ∷ [])
  new-DefaultKeyed none unknown inside d u c h =
      absurd (cc (ap (λ x. x.has_default) (some-inj u c)))
  new-DefaultKeyed (some t) unknown inside d u c h =
      let same = some-inj u c in
      let (i, found, key) = d t refl (ap (λ x. x.has_default) same ∙ h) in
      elim (Bool-cases (equal default_project project)) [
        | inl e ↦ absurd (
            cc (
              sym unknown
              ∙ ap (λ x. find x t.pipelines) (sym ((equal_iff default_project project).0 e))
              ∙ found))
        | inr e ↦ (
          i,
          ap (λ x. find default_project x.pipelines) (sym same)
              ∙ find-put_ne project default_project (length heap) t.pipelines e
              ∙ found,
          λ k. key (
              sym (
                ap (λ o. (or_closed o).api_key)
                  (get_elem?-snoc heap fresh i (inside default_project i found)))
              ∙ k),
        )
      ]

register_new-Good :
    (now : ℕ) (project : Bytes) (r : Registry)
    → find project (entries_of r.cur) ≡ none
    → Sound r
    → Good r (register_new now project r).0
unfolding register_new
register_new-Good now project r unknown v =
    let inside : (k : Bytes) (i : ℕ) → find k (entries_of r.cur) ≡ some i → i < length r.heap =
      λ k i f. entry-in_range r.cur r.heap k i v.routes f in
    if_both (λ (x : Registry × Option ℕ). Good r x.0) _ (Good-refl r v)
      (record {
        after = record {
          routes = with_project-IsRouted project now r.heap r.cur v.routes;
          distinct = Distinct-with_project project (length r.heap) r.cur v.distinct;
          opened = new-Opened project now r.heap r.cur inside v.opened;
          default_keyed = new-DefaultKeyed project now r.heap r.cur unknown inside v.default_keyed;
          capacity = v.capacity;
        };
        onward = snoc-Onward r.heap (fresh project now r.heap);
      })

-- A project that is looked up by its name and not found has no entry.
lookup-unknown :
    (project : Bytes) (r : Registry)
    → is_empty project ≡ false
    → lookup project r ≡ none
    → find project (entries_of r.cur) ≡ none
unfolding lookup lookup_in
lookup-unknown project r named h = go r.cur h
  where
    go :
        (cur : Option RoutingTable)
        → elim cur [ none ↦ none | some t ↦ lookup_in r.cfg project t ] ≡ none
        → find project (entries_of cur) ≡ none
    go none e = refl
    go (some t) e = sym (rw named refl) ∙ e

pub resolve-Good :
    (now : ℕ) (f : RoutingFields) (r : Registry) → Sound r → Good r (resolve now f r).0
unfolding resolve register_inline
resolve-Good now f r v = elim (Option-cases (lookup f.project r)) [
  | inr (i, e) ↦ rw (resolve, e) (Good-refl r v)
  | inl e ↦
      elim (Bool-cases
        (r.cfg.inline_tokens && (not (is_empty f.token) && not (is_empty f.project)))) [
          | inr b ↦ rw (resolve, e, b) (Good-refl r v)
          | inl b ↦
              let named : is_empty f.project ≡ false = ground arith in
              rw (resolve, e, b, register_inline, e)
                (register_new-Good now f.project r (lookup-unknown f.project r named e) v)
        ]
]
