-- ===== src/Lifecycle/Stale.antt =====
-- A reload that has loaded its table before an expiry has stored another, and drains after it.
use metrics_agent.Prelude.{
  ℕ, ◌+◌, ◌-◌, ◌<◌, ◌≡◌, ◌≢◌, refl, sym, ap, ◌∙◌, subst, true, false, List, [], ◌∷◌, Option, none,
  some, arith, ◌==◌, ==_iff, length, Bytes, equal, equal_iff, inl, inr, Bool-cases, Option-cases,
  get_elem?-set_self, get_elem?-set_ne, if_both,
}
use metrics_agent.Registry.{Registry, Pipeline, RoutingTable, find, or_closed}
use metrics_agent.Registry.Routes.{IsRouted}
use metrics_agent.Registry.Registered.{some-inj}
use metrics_agent.Keys.{
  Keys, among, close_input, close_all, same_pointer, entries_of, is_idle, retired, build_pipelines,
  expire_table, expire_inline,
}
use metrics_agent.Keys.Table.{key_at, build_pipelines-Built}
use metrics_agent.Keys.Expiry.{expire_inline-some}
use metrics_agent.Lifecycle.{each_open}
use metrics_agent.Lifecycle.Heap.{pipe}
use metrics_agent.Lifecycle.Swaps.{close_all-Onward, close_input-Onward, replaced}
use metrics_agent.Lifecycle.Sound.{Sound}
use metrics_agent.Lifecycle.Expiring.{close_all-IsRouted}

-- Drains that come to a pipeline which is closed do not find all open.
each_open-closed :
    (i : ℕ) (is : List ℕ) (heap : List Pipeline)
    → among i is ≡ true
    → (pipe heap i).closed ≡ true
    → each_open is heap ≡ false
unfolding each_open
each_open-closed i [] heap h c = cc
each_open-closed i (d ∷ ds) heap h c = elim (Bool-cases (pipe heap d).closed) [
  | inl shut ↦ rw shut refl
  | inr open_one ↦
      let other : d ≢ i = λ z. cc (sym c ∙ ap (λ x. (pipe heap x).closed) (sym z) ∙ open_one) in
      let later : among i ds ≡ true = ground (arith, h, ==_iff d i, other) in
      rw open_one (
        each_open-closed i ds (close_input d heap) later
          (ap (λ o. (or_closed o).closed) (get_elem?-set_ne heap _ other) ∙ c))
]

close_all-among :
    (i : ℕ) (is : List ℕ) (heap : List Pipeline)
    → among i is ≡ true
    → i < length heap
    → (pipe (close_all is heap) i).closed ≡ true
close_all-among i [] heap h k = cc
close_all-among i (d ∷ ds) heap h k =
    let after = close_input d heap in
    let first = close_input-Onward d heap in
    elim (Bool-cases (d == i)) [
      | inl e ↦ ((close_all-Onward ds after).frozen i (omega (arith, first.longer))).stays (
          ap (λ x. (pipe (close_input x heap) i).closed) ((==_iff d i).0 e)
          ∙ ap (λ o. (or_closed o).closed) (get_elem?-set_self heap i _ k))
      | inr e ↦ close_all-among i ds after (ground (arith, h, e)) (omega (arith, first.longer))
    ]

replaced-among :
    (next es : List (Bytes × ℕ)) (name : Bytes) (i : ℕ)
    → find name es ≡ some i
    → find name next ≡ none
    → among i (replaced next es) ≡ true
unfolding replaced
replaced-among next [] name i f n = cc
replaced-among next ((m, j) ∷ es) name i f n = elim (Bool-cases (equal name m)) [
  | inl e ↦
      let same : j ≡ i = some-inj 0 (sym (rw e refl) ∙ f) in
      let gone : find m next ≡ none = ap (λ x. find x next) (sym ((equal_iff name m).0 e)) ∙ n in
      rw gone (ground (arith, (==_iff j i).1 same))
  | inr e ↦
      let rest = replaced-among next es name i (sym (rw e refl) ∙ f) n in
      if_both (λ (x : List ℕ). among i x ≡ true) (same_pointer (find m next) j) rest
        (ground (arith, rest))
]

retired-found :
    (cutoff : ℕ) (heap : List Pipeline) (es : List (Bytes × ℕ)) (name : Bytes) (i : ℕ)
    → find name es ≡ some i
    → is_idle cutoff (pipe heap i) ≡ true
    → among i (retired cutoff heap es) ≡ true
unfolding retired
retired-found cutoff heap [] name i f h = cc
retired-found cutoff heap ((m, j) ∷ es) name i f h = elim (Bool-cases (equal name m)) [
  | inl e ↦
      let same : j ≡ i = some-inj 0 (sym (rw e refl) ∙ f) in
      rw (ap (λ x. is_idle cutoff (pipe heap x)) same ∙ h) (ground (arith, (==_iff j i).1 same))
  | inr e ↦
      let rest = retired-found cutoff heap es name i (sym (rw e refl) ∙ f) h in
      if_both (λ (x : List ℕ). among i x ≡ true) (is_idle cutoff (pipe heap j))
        (ground (arith, rest)) rest
]

among-length : (i : ℕ) (ds : List ℕ) → among i ds ≡ true → (length ds == 0) ≡ false
among-length i [] h = cc
among-length i (d ∷ ds) h = ground arith

key_at-none : (heap : List Pipeline) (o : Option ℕ) → key_at heap o ≡ none → o ≡ none
key_at-none heap none h = refl
key_at-none heap (some i) h = cc

expired-heap :
    (cutoff : ℕ) (t : RoutingTable) (r : Registry) (i : ℕ)
    → among i (retired cutoff r.heap t.pipelines) ≡ true
    → (expire_table cutoff t r).0.heap ≡ close_all (retired cutoff r.heap t.pipelines) r.heap
unfolding expire_table
expired-heap cutoff t r i h = rw (among-length i (retired cutoff r.heap t.pipelines) h) refl

-- The drains of a reload that has loaded the table of `r`, when another step has left the heap so.
stale_drains-closed :
    (later : ℕ) (keys : Keys) (cur : Option RoutingTable) (heap : List Pipeline) (name : Bytes)
    (i : ℕ)
    → IsRouted cur heap
    → find name (entries_of cur) ≡ some i
    → i < length heap
    → (pipe heap i).closed ≡ true
    → find name keys ≡ none
    → each_open
        (replaced (build_pipelines later cur keys heap).0 (entries_of cur))
        (build_pipelines later cur keys heap).1
      ≡ false
stale_drains-closed later keys cur heap name i v f k c n =
    let b = build_pipelines-Built later cur keys heap v in
    let next = (build_pipelines later cur keys heap).0 in
    let heap2 = (build_pipelines later cur keys heap).1 in
    each_open-closed i (replaced next (entries_of cur)) heap2
      (replaced-among next (entries_of cur) name i f
        (key_at-none heap2 (find name next) (b.serves name ∙ n)))
      (ap (λ o. (or_closed o).closed) (b.same i k) ∙ c)

idle_now :
    (idle now : ℕ) (p : Pipeline)
    → p.inline ≡ true
    → p.last_seen + idle < now
    → is_idle (now - idle) p ≡ true
idle_now idle now p on old = ground (arith, on, old)

-- A reload and an expiry hold different locks. A reload that has loaded the table before an expiry,
-- and drains after it what its own new table lacks, comes to every inline pipeline that the expiry
-- has drained and the keys do not name: it closes that channel a second time.
pub reload-expiry :
    (later idle now : ℕ) (keys : Keys) (r : Registry) (name : Bytes) (i : ℕ)
    → Sound r
    → 0 < idle
    → find name (entries_of r.cur) ≡ some i
    → (pipe r.heap i).inline ≡ true
    → (pipe r.heap i).last_seen + idle < now
    → find name keys ≡ none
    → each_open
        (replaced
          (build_pipelines later r.cur keys (expire_inline idle now r).0.heap).0
          (entries_of r.cur))
        (build_pipelines later r.cur keys (expire_inline idle now r).0.heap).1
      ≡ false
reload-expiry later idle now keys r name i v window f on old n = elim (Option-cases r.cur) [
  | inl e ↦ absurd (cc (sym (ap (λ x. find name (entries_of x)) e) ∙ f))
  | inr (t, e) ↦
      let gone = retired (now - idle) r.heap t.pipelines in
      let there : find name t.pipelines ≡ some i = ap (λ x. find name (entries_of x)) (sym e) ∙ f in
      let dead =
        retired-found (now - idle) r.heap t.pipelines name i there
          (idle_now idle now (pipe r.heap i) on old) in
      let range : i < length r.heap = v.routes.in_range t name i e there in
      let shape : (expire_inline idle now r).0.heap ≡ close_all gone r.heap =
        ap (λ x. x.0.heap) (expire_inline-some idle now t r window e)
        ∙ expired-heap (now - idle) t r i dead in
      subst
        (λ h.
          each_open (replaced (build_pipelines later r.cur keys h).0 (entries_of r.cur))
            (build_pipelines later r.cur keys h).1
          ≡ false)
        (sym shape)
        (stale_drains-closed later keys r.cur (close_all gone r.heap) name i
          (close_all-IsRouted r.cur gone r.heap v.routes) f
          (omega (arith, range, (close_all-Onward gone r.heap).longer))
          (close_all-among i gone r.heap dead range) n)
]
