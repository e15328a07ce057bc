-- ===== src/Keys/Table.antt =====
-- `buildTable`: the table has the names of the keys file, each with a pipeline that holds its key.
use metrics_agent.Prelude.{
  ℕ, ◌≤◌, ◌<◌, ◌≡◌, inl, inr, refl, sym, ap, ◌∙◌, Bool, true, false, List, [], ◌∷◌, ◌++◌, Option,
  none, some, arith, get_elem?, length, length-append, Bytes, equal, equal_iff, Bool-cases,
  if◌then◌else◌,
}
use metrics_agent.Data.{default_project}
use metrics_agent.Registry.{Pipeline, RoutingTable, new_pipeline, find, or_closed}
use metrics_agent.Registry.Routes.{
  IsRouted, get_elem?-snoc, get_elem?-snoc_last, get_elem?-snoc_past,
}
use metrics_agent.Registry.Registered.{order, some-inj}
use metrics_agent.Keys.{Keys, reusable, place, build_pipelines}

-- The heap has grown, and what it held is there.
pub record Grown (old new : List Pipeline) : Type 0 where
  pub longer : length old ≤ length new
  pub same : (i : ℕ) → i < length old → get_elem? new i ≡ get_elem? old i

Grown-refl : (heap : List Pipeline) → Grown heap heap
Grown-refl heap = record { longer = omega arith; same = λ i h. refl }

Grown-trans : (a b c : List Pipeline) → Grown a b → Grown b c → Grown a c
Grown-trans a b c g h = record {
  longer = omega (arith, g.longer, h.longer);
  same = λ i k. h.same i (omega (arith, g.longer)) ∙ g.same i k;
}

-- Where a name and its key have been placed.
pub record Placed (prev : Option RoutingTable) (name key : Bytes) (heap : List Pipeline)
    (x : ℕ × List Pipeline) : Type 0 where
  pub inside : x.0 < length x.1
  pub project_is : (or_closed (get_elem? x.1 x.0)).project ≡ name
  pub key_is : (or_closed (get_elem? x.1 x.0)).api_key ≡ key
  pub grown : Grown heap x.1
  pub routes : IsRouted prev x.1

module _ (now : ℕ) (prev : Option RoutingTable) (name key : Bytes) (heap : List Pipeline) where
  new_no_key :
      IsRouted prev heap
      → (i : ℕ) → (or_closed (get_elem? (heap ++ new_pipeline name key now ∷ []) i)).inline ≡ true
      → (or_closed (get_elem? (heap ++ new_pipeline name key now ∷ []) i)).api_key ≡ []
  new_no_key v i h = elim (order i (length heap)) [
    | inl low ↦
        let e = get_elem?-snoc heap (new_pipeline name key now) i low in
        ap (λ o. (or_closed o).api_key) e ∙ v.no_key i (ap (λ o. (or_closed o).inline) (sym e) ∙ h)
    | inr (inl here) ↦ absurd (
        cc (
          ap (λ j. (or_closed (get_elem? (heap ++ new_pipeline name key now ∷ []) j)).inline) here
          ∙ ap (λ o. (or_closed o).inline) (get_elem?-snoc_last heap (new_pipeline name key now))))
    | inr (inr past) ↦
        ap (λ o. (or_closed o).api_key)
          (get_elem?-snoc_past heap (new_pipeline name key now) i past)
  ]

  new-Placed :
      IsRouted prev heap
      → Placed prev name key heap (length heap, heap ++ new_pipeline name key now ∷ [])
  new-Placed v =
      let q = new_pipeline name key now in
      let more : Grown heap (heap ++ q ∷ []) = record {
        longer = omega (arith, length-append heap (q ∷ []));
        same = λ i h. get_elem?-snoc heap q i h;
      } in
      record {
        inside = omega (arith, length-append heap (q ∷ []));
        project_is = ap (λ o. (or_closed o).project) (get_elem?-snoc_last heap q);
        key_is = ap (λ o. (or_closed o).api_key) (get_elem?-snoc_last heap q);
        grown = more;
        routes = record {
          in_range = λ t k i c f. omega (arith, v.in_range t k i c f, more.longer);
          named = λ t k i c f.
              ap (λ o. (or_closed o).project) (more.same i (v.in_range t k i c f))
              ∙ v.named t k i c f;
          default_there = v.default_there;
          default_inline = λ t i c h f.
              ap (λ o. (or_closed o).inline) (more.same i (v.in_range t default_project i c f))
              ∙ v.default_inline t i c h f;
          no_key = new_no_key v;
        };
      }

-- What a test lets through.
picked :
    (p : ℕ → Bool) (o : Option ℕ) (i : ℕ)
    → elim o [ none ↦ none | some j ↦ if p j then some j else none ] ≡ some i
    → (o ≡ some i) × (p i ≡ true)
picked p none i h = cc
picked p (some j) i h = go (p j) refl h
  where
    go :
        (b : Bool)
        → p j ≡ b
        → (if b then some j else none) ≡ some i
        → (some j ≡ some i) × (p i ≡ true)
    go true e k = (k, ap p (sym (some-inj 0 k)) ∙ e)
    go false e k = cc

-- A reused pipeline is the previous one of the name, with the same key.
pub reusable-found :
    (heap : List Pipeline) (t : RoutingTable) (name key : Bytes) (i : ℕ)
    → reusable heap (some t) name key ≡ some i
    → (find name t.pipelines ≡ some i) × ((or_closed (get_elem? heap i)).api_key ≡ key)
unfolding reusable
reusable-found heap t name key i h =
    let f =
      picked (λ j. equal (or_closed (get_elem? heap j)).api_key key) (find name t.pipelines) i h in
    (f.0, (equal_iff (or_closed (get_elem? heap i)).api_key key).0 f.1)

reused-Placed :
    (prev : Option RoutingTable) (name key : Bytes) (heap : List Pipeline) (i : ℕ)
    → reusable heap prev name key ≡ some i
    → IsRouted prev heap
    → Placed prev name key heap (i, heap)
unfolding reusable
reused-Placed none name key heap i h v = cc
reused-Placed (some t) name key heap i h v =
    let f = reusable-found heap t name key i h in
    record {
      inside = v.in_range t name i refl f.0;
      project_is = v.named t name i refl f.0;
      key_is = f.1;
      grown = Grown-refl heap;
      routes = v;
    }

pub place-Placed :
    (now : ℕ) (prev : Option RoutingTable) (name key : Bytes) (heap : List Pipeline)
    → IsRouted prev heap
    → Placed prev name key heap (place now name key heap (reusable heap prev name key))
unfolding place
place-Placed now prev name key heap v = go (reusable heap prev name key) refl
  where
    go :
        (o : Option ℕ)
        → reusable heap prev name key ≡ o
        → Placed prev name key heap (place now name key heap o)
    go none e = new-Placed now prev name key heap v
    go (some i) e = reused-Placed prev name key heap i e v

pub find-head :
    (name n : Bytes) (j i : ℕ) (es : List (Bytes × ℕ))
    → equal name n ≡ true
    → find name ((n, j) ∷ es) ≡ some i
    → j ≡ i
find-head name n j i es e h = some-inj 0 (sym shown ∙ h)
  where
    shown : find name ((n, j) ∷ es) ≡ some j
    shown = rw e refl

pub find-tail :
    (name n : Bytes) (j i : ℕ) (es : List (Bytes × ℕ))
    → equal name n ≡ false
    → find name ((n, j) ∷ es) ≡ some i
    → find name es ≡ some i
find-tail name n j i es e h = sym shown ∙ h
  where
    shown : find name ((n, j) ∷ es) ≡ find name es
    shown = rw e refl

-- The key that an entry leads to.
abbrev pub key_at : List Pipeline → Option ℕ → Option Bytes
key_at heap none = none
key_at heap (some i) = some (or_closed (get_elem? heap i)).api_key

-- What the loop has built.
pub record Built (prev : Option RoutingTable) (keys : Keys) (heap : List Pipeline)
    (x : List (Bytes × ℕ) × List Pipeline) : Type 0 where
  pub routes : IsRouted prev x.1
  pub longer : length heap ≤ length x.1
  pub same : (i : ℕ) → i < length heap → get_elem? x.1 i ≡ get_elem? heap i
  pub serves : (name : Bytes) → key_at x.1 (find name x.0) ≡ find name keys
  pub in_range : (name : Bytes) (i : ℕ) → find name x.0 ≡ some i → i < length x.1
  pub named :
      (name : Bytes) (i : ℕ) → find name x.0 ≡ some i → (or_closed (get_elem? x.1 i)).project ≡ name

pub build_pipelines-Built :
    (now : ℕ) (prev : Option RoutingTable) (keys : Keys) (heap : List Pipeline)
    → IsRouted prev heap
    → Built prev keys heap (build_pipelines now prev keys heap)
unfolding build_pipelines
build_pipelines-Built now prev [] heap v = record {
  routes = v;
  longer = omega arith;
  same = λ i h. refl;
  serves = λ name. refl;
  in_range = λ name i h. absurd (cc);
  named = λ name i h. absurd (cc);
}
build_pipelines-Built now prev ((n, key) ∷ ks) heap v =
    let x = place now n key heap (reusable heap prev n key) in
    let p = place-Placed now prev n key heap v in
    let b = build_pipelines-Built now prev ks x.1 p.routes in
    let out = build_pipelines now prev ks x.1 in
    let head_same : get_elem? out.1 x.0 ≡ get_elem? x.1 x.0 = b.same x.0 p.inside in
    record {
      routes = b.routes;
      longer = omega (arith, p.grown.longer, b.longer);
      same = λ i h. b.same i (omega (arith, p.grown.longer)) ∙ p.grown.same i h;
      serves = λ name. elim (Bool-cases (equal name n)) [
        | inl e ↦ rw e (ap some (ap (λ o. (or_closed o).api_key) head_same ∙ p.key_is))
        | inr e ↦ rw e (b.serves name)
      ];
      in_range = λ name i h. elim (Bool-cases (equal name n)) [
        | inl e ↦ omega (arith, find-head name n x.0 i out.0 e h, p.inside, b.longer)
        | inr e ↦ b.in_range name i (find-tail name n x.0 i out.0 e h)
      ];
      named = λ name i h. elim (Bool-cases (equal name n)) [
        | inl e ↦
            let here : x.0 ≡ i = find-head name n x.0 i out.0 e h in
            ap (λ j. (or_closed (get_elem? out.1 j)).project) (sym here)
            ∙ ap (λ o. (or_closed o).project) head_same
            ∙ p.project_is
            ∙ sym ((equal_iff name n).0 e)
        | inr e ↦ b.named name i (find-tail name n x.0 i out.0 e h)
      ];
    }
