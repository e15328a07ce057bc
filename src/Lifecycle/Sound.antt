-- ===== src/Lifecycle/Sound.antt =====
-- The invariant of the registry under all steps, and what a step keeps.
use metrics_agent.Prelude.{ℕ, ◌≤◌, ◌≡◌, ◌≢◌, sym, ap, ◌∙◌, true, Option, some, List, [], length}
use metrics_agent.Data.{default_project}
use metrics_agent.Stats.{SelfStats}
use metrics_agent.Registry.{Registry, Pipeline, RoutingTable, find, store, at_ptr}
use metrics_agent.Registry.Routes.{IsValid, identity, store-IsRouted, kept}
use metrics_agent.Keys.{entries_of}
use metrics_agent.Lifecycle.Heap.{pipe, Frozen, Onward, Onward-refl, Onward-trans, store-Onward}
use metrics_agent.Lifecycle.Entries.{Distinct}
use metrics_agent.Lifecycle.Swaps.{Opened}

-- The flag of the default project is set only with a pipeline that has a key of its own.
abbrev pub DefaultKeyed : Option RoutingTable → List Pipeline → Type 0
DefaultKeyed cur heap =
    (t : RoutingTable)
    → cur ≡ some t
    → t.has_default ≡ true
    → (i : ℕ) × (find default_project t.pipelines ≡ some i) × ((pipe heap i).api_key ≢ [])

pub record Sound (r : Registry) : Type 0 where
  pub routes : IsValid r
  -- No project has two entries.
  pub distinct : Distinct (entries_of r.cur)
  -- What can be looked up is open.
  pub opened : Opened (entries_of r.cur) r.heap
  pub default_keyed : DefaultKeyed r.cur r.heap
  pub capacity : length r.shared_raw_ch ≤ r.shared_cap

pub record Good (r s : Registry) : Type 0 where
  pub after : Sound s
  pub onward : Onward r.heap s.heap

pub Good-refl : (r : Registry) → Sound r → Good r r
Good-refl r v = record { after = v; onward = Onward-refl r.heap }

pub Good-trans : (r s t : Registry) → Good r s → Good s t → Good r t
Good-trans r s t a b = record {
  after = b.after;
  onward = Onward-trans r.heap s.heap t.heap a.onward b.onward;
}

-- A change of the counters.
pub count-Good : (r : Registry) (s : SelfStats) → Sound r → Good r (record r { self = s })
count-Good r s v = record {
  after = record {
    routes = v.routes;
    distinct = v.distinct;
    opened = v.opened;
    default_keyed = v.default_keyed;
    capacity = v.capacity;
  };
  onward = Onward-refl r.heap;
}

-- A change of a pipeline that leaves it as open as it was.
pub store-Good :
    (r : Registry) (i : ℕ) (q : Pipeline)
    → identity q ≡ identity (at_ptr r i)
    → q.closed ≡ (at_ptr r i).closed
    → Frozen (at_ptr r i) q
    → Sound r
    → Good r (store i q r)
store-Good r i q same open_as f v = record {
  after = record {
    routes = store-IsRouted r.cur r.heap i q same v.routes;
    distinct = v.distinct;
    opened = λ k j h. kept (λ p. p.closed) r.heap i q open_as j ∙ v.opened k j h;
    default_keyed = λ t c h.
        let (j, found, key) = v.default_keyed t c h in
        (j, found, λ e. key (sym (kept (λ p. p.api_key) r.heap i q (ap (λ x. x.key) same) j) ∙ e));
    capacity = v.capacity;
  };
  onward = store-Onward r.heap i q same f;
}
