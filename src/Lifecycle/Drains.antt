-- ===== src/Lifecycle/Drains.antt =====
-- The drains of one table, with no other step between: each finds its pipeline open.
use metrics_agent.Prelude.{
  ℕ, ◌≡◌, ◌≢◌, refl, sym, ap, ◌∙◌, Bool, true, false, not, List, [], ◌∷◌, Option, none, Bytes,
  equal, equal_iff, Each, inl, inr, Bool-cases, if◌then◌else◌, get_elem?-set_ne,
}
use metrics_agent.Registry.{Registry, Pipeline, RoutingTable, find, or_closed}
use metrics_agent.Registry.Routes.{IsRouted}
use metrics_agent.Keys.{
  Keys, close_input, same_pointer, entries_of, is_idle, retired, build_pipelines,
}
use metrics_agent.Keys.Table.{build_pipelines-Built}
use metrics_agent.Lifecycle.{pointers, each_open}
use metrics_agent.Lifecycle.Heap.{pipe}
use metrics_agent.Lifecycle.Entries.{Distinct, head-found, Each-found}
use metrics_agent.Lifecycle.Swaps.{Opened, replaced, entry-in_range, entry-project}
use metrics_agent.Lifecycle.Sound.{Sound}

-- The pointers of some of the entries.
abbrev chosen : (Bytes × ℕ → Bool) → List (Bytes × ℕ) → List ℕ
chosen p [] = []
chosen p ((n, i) ∷ es) = let rest = chosen p es in if p (n, i) then i ∷ rest else rest

-- Each entry leads to an open pipeline of its name.
abbrev Leads : List Pipeline → List (Bytes × ℕ) → Type 0
Leads heap es = Each (λ e. ((pipe heap e.1).project ≡ e.0) × ((pipe heap e.1).closed ≡ false)) es

-- The entries behind one of another name, after its pipeline has been closed.
still-Leads :
    (heap : List Pipeline) (n : Bytes) (i : ℕ) (es : List (Bytes × ℕ))
    → (pipe heap i).project ≡ n
    → find n es ≡ none
    → Leads heap es
    → Leads (close_input i heap) es
still-Leads heap n i [] p h l = tt
still-Leads heap n i ((m, j) ∷ es) p h l = elim (Bool-cases (equal n m)) [
  | inl e ↦ absurd (head-found n m j es e h)
  | inr e ↦
      let other : i ≢ j =
        λ z. cc (sym e ∙ (equal_iff n m).1 (sym p ∙ ap (λ x. (pipe heap x).project) z ∙ l.0.0)) in
      (
        (
          ap (λ o. (or_closed o).project) (get_elem?-set_ne heap _ other) ∙ l.0.0,
          ap (λ o. (or_closed o).closed) (get_elem?-set_ne heap _ other) ∙ l.0.1,
        ),
        still-Leads heap n i es p (sym (rw e refl) ∙ h) l.1,
      )
]

chosen-open :
    (p : Bytes × ℕ → Bool) (heap : List Pipeline) (es : List (Bytes × ℕ))
    → Distinct es
    → Leads heap es
    → each_open (chosen p es) heap ≡ true
unfolding each_open
chosen-open p heap [] d l = refl
chosen-open p heap ((n, i) ∷ es) d l = elim (Bool-cases (p (n, i))) [
  | inr out ↦ rw out (chosen-open p heap es d.1 l.1)
  | inl taken ↦
      rw (taken, l.0.1)
        (chosen-open p (close_input i heap) es d.1 (still-Leads heap n i es l.0.0 d.0 l.1))
]

pointers-chosen : (es : List (Bytes × ℕ)) → pointers es ≡ chosen (λ e. true) es
pointers-chosen [] = refl
pointers-chosen ((n, i) ∷ es) = ap (◌∷◌ i) (pointers-chosen es)

replaced-chosen :
    (next es : List (Bytes × ℕ))
    → replaced next es ≡ chosen (λ e. not (same_pointer (find e.0 next) e.1)) es
unfolding replaced
replaced-chosen next [] = refl
replaced-chosen next ((n, i) ∷ es) = elim (Bool-cases (same_pointer (find n next) i)) [
  | inl same ↦ rw same (replaced-chosen next es)
  | inr other ↦ rw other (ap (◌∷◌ i) (replaced-chosen next es))
]

retired-chosen :
    (cutoff : ℕ) (heap : List Pipeline) (es : List (Bytes × ℕ))
    → retired cutoff heap es ≡ chosen (λ e. is_idle cutoff (pipe heap e.1)) es
unfolding retired
retired-chosen cutoff heap [] = refl
retired-chosen cutoff heap ((n, i) ∷ es) = elim (Bool-cases (is_idle cutoff (pipe heap i))) [
  | inl idle ↦ rw idle (ap (◌∷◌ i) (retired-chosen cutoff heap es))
  | inr live ↦ rw live (retired-chosen cutoff heap es)
]

Leads-found :
    (cur : Option RoutingTable) (heap : List Pipeline)
    → IsRouted cur heap
    → Distinct (entries_of cur)
    → Opened (entries_of cur) heap
    → Leads heap (entries_of cur)
Leads-found cur heap v d opened =
    Each-found (λ n i. ((pipe heap i).project ≡ n) × ((pipe heap i).closed ≡ false))
      (entries_of cur) d (λ k i f. (entry-project cur heap k i v f, opened k i f))

-- The drains of a reload, of an expiry and of the shutdown.
pub record DrainOnce (r : Registry) (now cutoff : ℕ) (keys : Keys) : Type 0 where
  pub of_reload :
      each_open
        (replaced (build_pipelines now r.cur keys r.heap).0 (entries_of r.cur))
        (build_pipelines now r.cur keys r.heap).1
      ≡ true
  pub of_expiry : each_open (retired cutoff r.heap (entries_of r.cur)) r.heap ≡ true
  pub of_shutdown : each_open (pointers (entries_of r.cur)) r.heap ≡ true

pub Sound-DrainOnce :
    (r : Registry) (now cutoff : ℕ) (keys : Keys) → Sound r → DrainOnce r now cutoff keys
Sound-DrainOnce r now cutoff keys v =
    let es = entries_of r.cur in
    let leads = Leads-found r.cur r.heap v.routes v.distinct v.opened in
    let b = build_pipelines-Built now r.cur keys r.heap v.routes in
    let next = (build_pipelines now r.cur keys r.heap).0 in
    let heap2 = (build_pipelines now r.cur keys r.heap).1 in
    let opened2 : Opened es heap2 = λ k i f.
      ap (λ o. (or_closed o).closed) (b.same i (entry-in_range r.cur r.heap k i v.routes f))
      ∙ v.opened k i f in
    record {
      of_reload =
          ap (λ is. each_open is heap2) (replaced-chosen next es)
          ∙ chosen-open (λ e. not (same_pointer (find e.0 next) e.1)) heap2 es v.distinct
              (Leads-found r.cur heap2 b.routes v.distinct opened2);
      of_expiry =
          ap (λ is. each_open is r.heap) (retired-chosen cutoff r.heap es)
          ∙ chosen-open (λ e. is_idle cutoff (pipe r.heap e.1)) r.heap es v.distinct leads;
      of_shutdown =
          ap (λ is. each_open is r.heap) (pointers-chosen es)
          ∙ chosen-open (λ e. true) r.heap es v.distinct leads;
    }
