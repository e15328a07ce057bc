-- ===== src/Lifecycle/Swaps.antt =====
-- `reload` and `expireInline`: which pipelines they close, and that the published ones stay open.
use metrics_agent.Prelude.{
  ℕ, ◌<◌, ◌≡◌, ◌≢◌, refl, sym, ap, ◌∙◌, true, false, List, [], ◌∷◌, Option, none, some, arith,
  length, Bytes, equal, Each, inl, inr, Bool-cases, if◌then◌else◌, ==_iff, get_elem?-set_ne,
}
use metrics_agent.Registry.{Pipeline, RoutingTable, new_pipeline, find, or_closed}
use metrics_agent.Registry.Routes.{IsRouted, get_elem?-snoc_last}
use metrics_agent.Keys.{
  Keys, reusable, place, build_pipelines, close_input, close_all, same_pointer, drain_replaced,
  entries_of, is_idle, retired,
}
use metrics_agent.Keys.Table.{
  reusable-found, place-Placed, build_pipelines-Built, find-head, find-tail,
}
use metrics_agent.Lifecycle.Heap.{
  pipe, Onward, Onward-refl, Onward-trans, store-Onward, snoc-Onward,
}

-- The pipelines of the entries are open.
abbrev pub Opened : List (Bytes × ℕ) → List Pipeline → Type 0
Opened es heap = (k : Bytes) (i : ℕ) → find k es ≡ some i → (pipe heap i).closed ≡ false

pub close_input-Onward : (i : ℕ) (heap : List Pipeline) → Onward heap (close_input i heap)
close_input-Onward i heap =
    store-Onward heap i _ refl (record { stays = λ e. refl; no_more = λ e. omega arith })

pub close_all-Onward : (is : List ℕ) (heap : List Pipeline) → Onward heap (close_all is heap)
close_all-Onward [] heap = Onward-refl heap
close_all-Onward (i ∷ is) heap =
    Onward-trans heap (close_input i heap) _ (close_input-Onward i heap)
      (close_all-Onward is (close_input i heap))

-- A pipeline that is not among those closed.
pub close_all-other :
    (i : ℕ) (is : List ℕ) (heap : List Pipeline)
    → Each (λ j. j ≢ i) is
    → pipe (close_all is heap) i ≡ pipe heap i
close_all-other i [] heap h = refl
close_all-other i (j ∷ is) heap h =
    close_all-other i is (close_input j heap) h.1 ∙ ap or_closed (get_elem?-set_ne heap _ h.0)

-- The pipelines that `reload` drains.
unfoldable pub replaced : List (Bytes × ℕ) → List (Bytes × ℕ) → List ℕ
replaced next [] = []
replaced next ((name, i) ∷ old) =
    let rest = replaced next old in if same_pointer (find name next) i then rest else i ∷ rest

pub drain_replaced-eq :
    (next old : List (Bytes × ℕ)) (heap : List Pipeline)
    → drain_replaced next old heap ≡ close_all (replaced next old) heap
unfolding drain_replaced replaced
drain_replaced-eq next [] heap = refl
drain_replaced-eq next ((name, i) ∷ old) heap =
    elim (Bool-cases (same_pointer (find name next) i)) [
      | inl same ↦ rw same (drain_replaced-eq next old heap)
      | inr other ↦ rw other (drain_replaced-eq next old (close_input i heap))
    ]

reused-open :
    (prev : Option RoutingTable) (name key : Bytes) (heap : List Pipeline) (i : ℕ)
    → reusable heap prev name key ≡ some i
    → Opened (entries_of prev) heap
    → (pipe heap i).closed ≡ false
unfolding reusable
reused-open none name key heap i e opened = cc
reused-open (some t) name key heap i e opened = opened name i (reusable-found heap t name key i e).0

-- The routes, said of the entries.
pub entry-in_range :
    (cur : Option RoutingTable) (heap : List Pipeline) (k : Bytes) (i : ℕ)
    → IsRouted cur heap
    → find k (entries_of cur) ≡ some i
    → i < length heap
entry-in_range none heap k i v f = absurd (cc)
entry-in_range (some t) heap k i v f = v.in_range t k i refl f

pub entry-project :
    (cur : Option RoutingTable) (heap : List Pipeline) (k : Bytes) (i : ℕ)
    → IsRouted cur heap
    → find k (entries_of cur) ≡ some i
    → (pipe heap i).project ≡ k
entry-project none heap k i v f = absurd (cc)
entry-project (some t) heap k i v f = v.named t k i refl f

module _ (now : ℕ) (prev : Option RoutingTable) where
  place-Onward :
      (name key : Bytes) (heap : List Pipeline) (o : Option ℕ)
      → Onward heap (place now name key heap o).1
  unfolding place
  place-Onward name key heap none = snoc-Onward heap (new_pipeline name key now)
  place-Onward name key heap (some i) = Onward-refl heap

  pub build_pipelines-Onward :
      (keys : Keys) (heap : List Pipeline) → Onward heap (build_pipelines now prev keys heap).1
  unfolding build_pipelines
  build_pipelines-Onward [] heap = Onward-refl heap
  build_pipelines-Onward ((n, key) ∷ ks) heap =
      let x = place now n key heap (reusable heap prev n key) in
      Onward-trans heap x.1 _ (place-Onward n key heap (reusable heap prev n key))
        (build_pipelines-Onward ks x.1)

  place-open :
      (name key : Bytes) (heap : List Pipeline) (o : Option ℕ)
      → reusable heap prev name key ≡ o
      → Opened (entries_of prev) heap
      → (pipe (place now name key heap o).1 (place now name key heap o).0).closed ≡ false
  unfolding place
  place-open name key heap none e opened =
      ap (λ o. (or_closed o).closed) (get_elem?-snoc_last heap (new_pipeline name key now))
  place-open name key heap (some i) e opened = reused-open prev name key heap i e opened

  -- Only open pipelines are reused.
  pub build_pipelines-Opened :
      (keys : Keys) (heap : List Pipeline)
      → IsRouted prev heap
      → Opened (entries_of prev) heap
      → Opened (build_pipelines now prev keys heap).0 (build_pipelines now prev keys heap).1
  unfolding build_pipelines
  build_pipelines-Opened [] heap v opened k i h = cc
  build_pipelines-Opened ((n, key) ∷ ks) heap v opened k i h =
      let x = place now n key heap (reusable heap prev n key) in
      let p = place-Placed now prev n key heap v in
      let b = build_pipelines-Built now prev ks x.1 p.routes in
      let out = build_pipelines now prev ks x.1 in
      let still : Opened (entries_of prev) x.1 = λ l j f.
        ap (λ o. (or_closed o).closed) (p.grown.same j (entry-in_range prev heap l j v f))
        ∙ opened l j f in
      elim (Bool-cases (equal k n)) [
        | inl e ↦
            let here : x.0 ≡ i = find-head k n x.0 i out.0 e h in
            ap (λ j. (pipe out.1 j).closed) (sym here)
            ∙ ap (λ o. (or_closed o).closed) (b.same x.0 p.inside)
            ∙ place-open n key heap (reusable heap prev n key) refl opened
        | inr e ↦ build_pipelines-Opened ks x.1 p.routes still k i (find-tail k n x.0 i out.0 e h)
      ]

-- A pipeline of the new table is not among those replaced: the entry of its name points to it.
replaced-other :
    (next old : List (Bytes × ℕ)) (heap : List Pipeline) (k : Bytes) (i : ℕ)
    → find k next ≡ some i
    → (pipe heap i).project ≡ k
    → Each (λ e. (pipe heap e.1).project ≡ e.0) old
    → Each (λ j. j ≢ i) (replaced next old)
unfolding replaced
replaced-other next [] heap k i f p h = tt
replaced-other next ((name, j) ∷ old) heap k i f p h =
    let rest = replaced-other next old heap k i f p h.1 in
    elim (Bool-cases (same_pointer (find name next) j)) [
      | inl same ↦ rw same rest
      | inr other ↦ rw other ((λ e. points name j e h.0 other), rest)
    ]
  where
    points :
        (name : Bytes) (j : ℕ)
        → j ≡ i
        → (pipe heap j).project ≡ name
        → same_pointer (find name next) j ≢ false
    points name j e q other =
        let same : k ≡ name = sym p ∙ ap (λ x. (pipe heap x).project) (sym e) ∙ q in
        let found : find name next ≡ some j =
          ap (λ x. find x next) (sym same) ∙ f ∙ ap some (sym e) in
        let it : same_pointer (some j) j ≡ true = (==_iff j j).1 refl in
        cc (sym other ∙ ap (λ o. same_pointer o j) found ∙ it)

-- The heap behind the swap of `reload`.
pub drain_replaced-Opened :
    (next old : List (Bytes × ℕ)) (heap : List Pipeline)
    → ((k : Bytes) (i : ℕ) → find k next ≡ some i → (pipe heap i).project ≡ k)
    → Each (λ e. (pipe heap e.1).project ≡ e.0) old
    → Opened next heap
    → Opened next (drain_replaced next old heap)
drain_replaced-Opened next old heap named before opened k i f =
    ap (λ h. (pipe h i).closed) (drain_replaced-eq next old heap)
    ∙ ap (λ p. p.closed)
        (close_all-other i (replaced next old) heap
          (replaced-other next old heap k i f (named k i f) before))
    ∙ opened k i f

-- `expireInline` closes idle pipelines only.
module _ (cutoff : ℕ) (heap : List Pipeline) where
  pub retired-idle :
      (es : List (Bytes × ℕ))
      → Each (λ j. is_idle cutoff (pipe heap j) ≡ true) (retired cutoff heap es)
  unfolding retired
  retired-idle [] = tt
  retired-idle ((name, i) ∷ es) = elim (Bool-cases (is_idle cutoff (pipe heap i))) [
    | inl idle ↦ rw idle (idle, retired-idle es)
    | inr live ↦ rw live (retired-idle es)
  ]

  live-other :
      (i : ℕ) (is : List ℕ)
      → is_idle cutoff (pipe heap i) ≡ false
      → Each (λ j. is_idle cutoff (pipe heap j) ≡ true) is
      → Each (λ j. j ≢ i) is
  live-other i [] live h = tt
  live-other i (j ∷ is) live h = (
    (λ e. cc (sym live ∙ ap (λ x. is_idle cutoff (pipe heap x)) (sym e) ∙ h.0)),
    live-other i is live h.1,
  )

  pub retired-Opened :
      (es left : List (Bytes × ℕ))
      → ((k : Bytes) (i : ℕ)
          → find k left ≡ some i
          → (is_idle cutoff (pipe heap i) ≡ false) × ((pipe heap i).closed ≡ false))
      → Opened left (close_all (retired cutoff heap es) heap)
  retired-Opened es left h k i f =
      ap (λ p. p.closed)
        (close_all-other i (retired cutoff heap es) heap
          (live-other i (retired cutoff heap es) (h k i f).0 (retired-idle es)))
      ∙ (h k i f).1
