-- ===== src/Lifecycle/Expiring.antt =====
-- `expireInline`: what is left in the table is open, and the default project is never retired.
use metrics_agent.Prelude.{
  ℕ, ◌-◌, ◌<◌, ◌≡◌, ◌≢◌, refl, sym, ap, ◌∙◌, subst, true, false, List, [], ◌∷◌, Option, some, arith,
  leb, ◌==◌, length, Bytes, inl, inr, Bool-cases, Option-cases, if_both,
}
use metrics_agent.Data.{default_project}
use metrics_agent.Registry.{Registry, Pipeline, RoutingTable, find, is_some}
use metrics_agent.Registry.Routes.{IsRouted, store-IsRouted}
use metrics_agent.Registry.Registered.{some-inj}
use metrics_agent.Keys.{is_idle, retired, close_all, entries_of, expire_table, expire_inline}
use metrics_agent.Keys.Expiry.{
  live_entries, keep_live-retired, live_entries-find, live_entries-Live, expire_inline-some,
  expire_inline-none,
}
use metrics_agent.Lifecycle.Heap.{pipe, Onward}
use metrics_agent.Lifecycle.Entries.{Distinct, live_entries-Distinct, live_entries-found}
use metrics_agent.Lifecycle.Swaps.{close_all-Onward, retired-Opened}
use metrics_agent.Lifecycle.Sound.{DefaultKeyed, Sound, Good, Good-refl}

-- A pipeline with a key of its own is not inline, and is never idle.
keyed_live :
    (cutoff : ℕ) (cur : Option RoutingTable) (heap : List Pipeline) (i : ℕ)
    → IsRouted cur heap
    → (pipe heap i).api_key ≢ []
    → is_idle cutoff (pipe heap i) ≡ false
keyed_live cutoff cur heap i v key = elim (Bool-cases (pipe heap i).inline) [
  | inl on ↦ absurd (key (v.no_key i on))
  | inr off ↦ ground (arith, off)
]

pub close_all-IsRouted :
    (cur : Option RoutingTable) (is : List ℕ) (heap : List Pipeline)
    → IsRouted cur heap
    → IsRouted cur (close_all is heap)
close_all-IsRouted cur [] heap v = v
close_all-IsRouted cur (i ∷ is) heap v =
    close_all-IsRouted cur is _ (store-IsRouted cur heap i _ refl v)

expire_inline-off :
    (idle now : ℕ) (r : Registry) → leb idle 0 ≡ true → expire_inline idle now r ≡ (r, 0)
unfolding expire_inline
expire_inline-off idle now r off = rw off refl

module _ (cutoff : ℕ) (t : RoutingTable) (r : Registry) (same : r.cur ≡ some t) (v : Sound r) where
  abbrev left : List (Bytes × ℕ)
  left = live_entries cutoff r.heap t.pipelines

  abbrev closed_heap : List Pipeline
  closed_heap = close_all (retired cutoff r.heap t.pipelines) r.heap

  entries_same : entries_of r.cur ≡ t.pipelines
  entries_same = ap entries_of same

  was_there : (k : Bytes) (i : ℕ) → find k left ≡ some i → find k t.pipelines ≡ some i
  was_there k i f =
      live_entries-found cutoff r.heap k i t.pipelines (subst Distinct entries_same v.distinct) f

  expired-Onward : Onward r.heap closed_heap
  expired-Onward = close_all-Onward (retired cutoff r.heap t.pipelines) r.heap

  default_left : DefaultKeyed (some (record t { pipelines = left })) closed_heap
  default_left u c h =
      let it = some-inj t c in
      let (i, found, key) = v.default_keyed t same (ap (λ x. x.has_default) it ∙ h) in
      (
        i,
        ap (λ x. find default_project x.pipelines) (sym it)
            ∙ live_entries-find cutoff r.heap t.pipelines default_project i found
                (keyed_live cutoff r.cur r.heap i v.routes key),
        λ e. key (
            sym (
              ap (λ x. x.key)
                (expired-Onward.who i (v.routes.in_range t default_project i same found)))
            ∙ e),
      )

  -- The routes that are left, before anything is closed.
  left-IsRouted : IsRouted (some (record t { pipelines = left })) r.heap
  left-IsRouted = record {
    in_range = λ u k i c f.
        v.routes.in_range t k i same
          (was_there k i (ap (λ x. find k x.pipelines) (some-inj t c) ∙ f));
    named = λ u k i c f.
        v.routes.named t k i same (was_there k i (ap (λ x. find k x.pipelines) (some-inj t c) ∙ f));
    default_there = λ u c h. let (i, found, key) = default_left u c h in ap is_some found;
    default_inline = λ u i c h f.
        v.routes.default_inline t i same (ap (λ x. x.has_default) (some-inj t c) ∙ h) (
          was_there default_project i
            (ap (λ x. find default_project x.pipelines) (some-inj t c) ∙ f));
    no_key = v.routes.no_key;
  }

  expired-Good :
      (n : ℕ)
      → Good r (record r {
        cur = some (record t { pipelines = left });
        heap = closed_heap;
        inline_projects_expired = n;
      })
  expired-Good n = record {
    after = record {
      routes =
          close_all-IsRouted (some (record t { pipelines = left }))
            (retired cutoff r.heap t.pipelines) r.heap left-IsRouted;
      distinct =
          live_entries-Distinct cutoff r.heap t.pipelines (subst Distinct entries_same v.distinct);
      opened = retired-Opened cutoff r.heap t.pipelines left λ k i f. (
        live_entries-Live cutoff r.heap t.pipelines k i f,
        v.opened k i (ap (find k) entries_same ∙ was_there k i f),
      );
      default_keyed = default_left;
      capacity = v.capacity;
    };
    onward = expired-Onward;
  }

  expire_table-Good : Good r (expire_table cutoff t r).0
  unfolding expire_table
  expire_table-Good = rw (keep_live-retired cutoff r.heap t.pipelines) (
      if_both (λ (x : Registry × ℕ). Good r x.0) (length (retired cutoff r.heap t.pipelines) == 0)
        (Good-refl r v) (expired-Good _))

pub expire_inline-Good :
    (idle now : ℕ) (r : Registry) → Sound r → Good r (expire_inline idle now r).0
expire_inline-Good idle now r v = elim (Bool-cases (leb idle 0)) [
  | inl off ↦
      subst (λ (x : Registry × ℕ). Good r x.0) (sym (expire_inline-off idle now r off))
        (Good-refl r v)
  | inr on ↦
      let window : 0 < idle = ground arith in
      elim (Option-cases r.cur) [
        | inl e ↦
            subst (λ (x : Registry × ℕ). Good r x.0) (sym (expire_inline-none idle now r window e))
              (Good-refl r v)
        | inr (t, e) ↦
            subst (λ (x : Registry × ℕ). Good r x.0)
              (sym (expire_inline-some idle now t r window e))
              (expire_table-Good (now - idle) t r e v)
      ]
]
