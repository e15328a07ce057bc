-- ===== src/Lifecycle/Reached.antt =====
-- Every registry that the agent can reach, whatever the order of the goroutines' steps.
use metrics_agent.Prelude.{
  ℕ, ◌≡◌, refl, sym, ◌∙◌, subst, Bool, true, false, ◌&&◌, [], Option, none, some, arith, ltb,
  length, inl, inr, Bool-cases, if◌then◌else◌, Option-cases,
}
use metrics_agent.Data.{Config}
use metrics_agent.Stats.{SelfStats}
use metrics_agent.Registry.{Registry, new_registry, is_empty}
use metrics_agent.Registry.Registered.{some-inj}
use metrics_agent.Keys.{
  Keys, keys_good, load_keys_file, wanted_keys, drain_replaced, install_keys, install,
}
use metrics_agent.Lifecycle.{
  Step, resolves, sends, counts, dequeues, forwards, takes, reloads, expires, Reach, here, further,
}
use metrics_agent.Lifecycle.Heap.{Onward}
use metrics_agent.Lifecycle.Sound.{Sound, Good, Good-refl, Good-trans, count-Good}
use metrics_agent.Lifecycle.Quiet.{to_pipeline-Good, account-Good, dequeues-Good, takes-Good}
use metrics_agent.Lifecycle.Registering.{resolve-Good}
use metrics_agent.Lifecycle.Reloading.{
  wanted_keys-Distinct, wanted_keys-Keyed, swapped-Good, load_keys_file-good, reload-Good,
}
use metrics_agent.Lifecycle.Expiring.{expire_inline-Good}

pub Step-Good : (r s : Registry) → Step r s → Sound r → Good r s
Step-Good r _ (resolves now f) v = resolve-Good now f r v
Step-Good r _ (sends project dg i) v = to_pipeline-Good project dg i r v
Step-Good r _ (counts s) v = count-Good r s v
Step-Good r _ (dequeues {dg = dg} {dgs = dgs} e) v = dequeues-Good dg dgs r e v
Step-Good r _ (forwards dg i) v = account-Good dg i r v
Step-Good r _ (takes i {dg = dg} {dgs = dgs} e) v = takes-Good i dg dgs r e v
Step-Good r _ (reloads now unix a b) v = reload-Good now unix a b r v
Step-Good r _ (expires idle now) v = expire_inline-Good idle now r v

pub Reach-Good : (r s : Registry) → Reach r s → Sound r → Good r s
Reach-Good r _ here v = Good-refl r v
Reach-Good r s (further {r = m} steps last) v =
    let before = Reach-Good r m steps v in Good-trans r m s before (Step-Good m s last before.after)

new_registry-Sound : (cfg : Config) (self : SelfStats) → Sound (new_registry cfg self)
new_registry-Sound cfg self = record {
  routes = record {
    in_range = λ t k i c f. absurd (cc);
    named = λ t k i c f. absurd (cc);
    default_there = λ t c h. absurd (cc);
    default_inline = λ t i c h f. absurd (cc);
    no_key = λ i h. absurd (cc);
  };
  distinct = tt;
  opened = λ k i f. absurd (cc);
  default_keyed = λ t c h. absurd (cc);
  capacity = omega arith;
}

unless {ℓ} : {A : Type ℓ} (t : Bool) (x r : A) → (if t then none else some x) ≡ some r → x ≡ r
unless true x r h = cc
unless false x r h = some-inj x h

-- The first table is a swap without a table before it.
first-Sound :
    (now : ℕ) (ks : Keys) (cfg : Config) (self : SelfStats) (r : Registry)
    → keys_good ks ≡ true
    → install_keys now (wanted_keys cfg ks) (new_registry cfg self) ≡ some r
    → Sound r
unfolding install_keys drain_replaced
first-Sound now ks cfg self r g h =
    let keys = wanted_keys cfg ks in
    let good =
      swapped-Good now 0 keys (new_registry cfg self) (wanted_keys-Distinct cfg ks)
        (wanted_keys-Keyed cfg ks g) (new_registry-Sound cfg self) in
    subst Sound (unless (ltb 0 cfg.max_projects && ltb cfg.max_projects (length keys)) _ r h)
      good.after

no_keys-good : keys_good [] ≡ true
unfolding keys_good
no_keys-good = refl

install-Sound :
    (now : ℕ) (raw : Option Keys) (cfg : Config) (self : SelfStats) (r : Registry)
    → install now (load_keys_file raw) (new_registry cfg self) ≡ some r
    → Sound r
unfolding install
install-Sound now raw cfg self r h = elim (Bool-cases (is_empty cfg.keys_file)) [
  | inl unset ↦ first-Sound now [] cfg self r no_keys-good (sym (rw unset refl) ∙ h)
  | inr file ↦ elim (Option-cases (load_keys_file raw)) [
    | inl bad ↦ absurd (cc (sym (refused file bad) ∙ h))
    | inr (ks, read) ↦
        first-Sound now ks cfg self r (load_keys_file-good raw ks read)
          (sym (taken ks file read) ∙ h)
  ]
]
  where
    refused :
        is_empty cfg.keys_file ≡ false
        → load_keys_file raw ≡ none
        → install now (load_keys_file raw) (new_registry cfg self) ≡ none
    refused file bad = rw (file, bad) refl

    taken :
        (ks : Keys)
        → is_empty cfg.keys_file ≡ false
        → load_keys_file raw ≡ some ks
        → install now (load_keys_file raw) (new_registry cfg self)
          ≡ install_keys now (wanted_keys cfg ks) (new_registry cfg self)
    taken ks file read = rw (file, read) refl

module _ (now : ℕ) (raw : Option Keys) (cfg : Config) (self : SelfStats) (r : Registry) where
  -- From a start that succeeds, every order of steps keeps the registry sound: each entry points to
  -- the pipeline of its name, no name has two entries, what is looked up is open, the default project
  -- is there with a key while the flag says so, and the shared queue is within its capacity.
  pub Reach-Sound :
      (s : Registry)
      → install now (load_keys_file raw) (new_registry cfg self) ≡ some r
      → Reach r s
      → Sound s
  Reach-Sound s h steps = (Reach-Good r s steps (install-Sound now raw cfg self r h)).after

  -- From then on no pipeline changes its project, its key or its kind, and one that is closed stays
  -- closed and takes no datagram more.
  pub Reach-Onward :
      (s t : Registry)
      → install now (load_keys_file raw) (new_registry cfg self) ≡ some r
      → Reach r s
      → Reach s t
      → Onward s.heap t.heap
  Reach-Onward s t h before steps = (Reach-Good s t steps (Reach-Sound s h before)).onward
