-- ===== src/Lifecycle/Reloading.antt =====
-- `reload`: the new table is sound, whatever the file holds.
use metrics_agent.Prelude.{
  ℕ, ◌≡◌, ◌≢◌, refl, sym, ap, ◌∙◌, subst, true, false, ◌&&◌, List, [], ◌∷◌, Option, none, some,
  arith, ltb, length, Bytes, equal, equal_iff, inl, inr, Bool-cases, Option-cases, if_both,
  if◌then◌else◌,
}
use metrics_agent.Data.{Config, default_project}
use metrics_agent.Registry.{Registry, Pipeline, RoutingTable, find, put, is_empty, is_some}
use metrics_agent.Registry.Routes.{IsRouted, find-put_self, find-put_ne}
use metrics_agent.Registry.Registered.{some-inj}
use metrics_agent.Keys.{
  Keys, keys_good, load_keys_file, put_all, wanted_keys, build_pipelines, build_table,
  drain_replaced, entries_of, unchanged, reload_keys, retried, reload,
}
use metrics_agent.Keys.Table.{key_at, build_pipelines-Built}
use metrics_agent.Keys.Reload.{swapped, swapped-IsRouted}
use metrics_agent.Lifecycle.Heap.{pipe, Onward, Onward-refl, Onward-trans}
use metrics_agent.Lifecycle.Entries.{
  Distinct, Each-found, Distinct-put_all, build_pipelines-Distinct,
}
use metrics_agent.Lifecycle.Swaps.{
  Opened, close_all-Onward, replaced, drain_replaced-eq, drain_replaced-Opened,
  build_pipelines-Onward, build_pipelines-Opened, entry-project,
}
use metrics_agent.Lifecycle.Sound.{DefaultKeyed, Sound, Good, Good-refl}

-- No project has the empty key.
abbrev pub Keyed : Keys → Type 0
Keyed m = (n k : Bytes) → find n m ≡ some k → k ≢ []

Keyed-put : (n k : Bytes) (m : Keys) → k ≢ [] → Keyed m → Keyed (put n k m)
Keyed-put n k m ne h l w f = elim (Bool-cases (equal l n)) [
  | inl e ↦
      let same : k ≡ w = some-inj [] (
        sym (find-put_self n k m) ∙ ap (λ x. find x (put n k m)) (sym ((equal_iff l n).0 e)) ∙ f) in
      λ z. ne (same ∙ z)
  | inr e ↦ h l w (sym (find-put_ne n l k m e) ∙ f)
]

not_empty : (s : Bytes) → is_empty s ≡ false → s ≢ []
not_empty [] h e = cc
not_empty (c ∷ s) h e = cc

keys_good-cons :
    (name key : Bytes) (ks : Keys)
    → keys_good ((name, key) ∷ ks) ≡ true
    → (is_empty key ≡ false) × (keys_good ks ≡ true)
unfolding keys_good
keys_good-cons name key ks h = ground arith

Keyed-put_all : (ks m : Keys) → keys_good ks ≡ true → Keyed m → Keyed (put_all ks m)
Keyed-put_all [] m g h = h
Keyed-put_all ((n, k) ∷ ks) m g h =
    let split = keys_good-cons n k ks g in
    Keyed-put_all ks (put n k m) split.1 (Keyed-put n k m (not_empty k split.0) h)

-- The keys of the configuration, before the file's.
fallback-Keyed : (key : Bytes) → Keyed (if is_empty key then [] else (default_project, key) ∷ [])
fallback-Keyed [] = λ n k f. absurd (cc)
fallback-Keyed (c ∷ key) = Keyed-put default_project (c ∷ key) [] (λ e. cc) (λ n k f. absurd (cc))

pub wanted_keys-Keyed :
    (cfg : Config) (ks : Keys) → keys_good ks ≡ true → Keyed (wanted_keys cfg ks)
unfolding wanted_keys
wanted_keys-Keyed cfg ks g = Keyed-put_all ks _ g (fallback-Keyed cfg.api_key)

fallback-Distinct :
    (key : Bytes) → Distinct (if is_empty key then [] else (default_project, key) ∷ [])
fallback-Distinct [] = tt
fallback-Distinct (c ∷ key) = (refl, tt)

pub wanted_keys-Distinct : (cfg : Config) (ks : Keys) → Distinct (wanted_keys cfg ks)
unfolding wanted_keys
wanted_keys-Distinct cfg ks = Distinct-put_all ks _ (fallback-Distinct cfg.api_key)

module _ (now : ℕ) (keys : Keys) (prev : Option RoutingTable) (heap : List Pipeline)
    (v : IsRouted prev heap) where
  abbrev entries_now : List (Bytes × ℕ)
  entries_now = (build_pipelines now prev keys heap).0

  abbrev grown : List Pipeline
  grown = (build_pipelines now prev keys heap).1

  drained-Onward : Onward grown (drain_replaced entries_now (entries_of prev) grown)
  drained-Onward =
      subst (Onward grown) (sym (drain_replaced-eq entries_now (entries_of prev) grown))
        (close_all-Onward (replaced entries_now (entries_of prev)) grown)

  swapped-Onward : Onward heap (swapped now keys prev heap).1
  unfolding build_table
  swapped-Onward =
      Onward-trans heap grown _ (build_pipelines-Onward now prev keys heap) drained-Onward

  swapped-Opened :
      Distinct (entries_of prev)
      → Opened (entries_of prev) heap
      → Opened (entries_of (swapped now keys prev heap).0) (swapped now keys prev heap).1
  unfolding build_table
  swapped-Opened d opened =
      let b = build_pipelines-Built now prev keys heap v in
      drain_replaced-Opened entries_now (entries_of prev) grown b.named
        (Each-found (λ n i. (pipe grown i).project ≡ n) (entries_of prev) d
          (λ k i f. entry-project prev grown k i b.routes f))
        (build_pipelines-Opened now prev keys heap v opened)

  -- An entry of the default project stands for a key of the keys.
  default-Keyed :
      Keyed keys
      → (o : Option ℕ) → find default_project entries_now ≡ o
      → is_some o ≡ true
      → (i : ℕ) × (find default_project entries_now ≡ some i) × ((pipe grown i).api_key ≢ [])
  default-Keyed keyed none e h = absurd (cc)
  default-Keyed keyed (some i) e h =
      let b = build_pipelines-Built now prev keys heap v in
      (
        i,
        e,
        keyed default_project (pipe grown i).api_key
            (sym (b.serves default_project) ∙ ap (key_at grown) e),
      )

  swapped-DefaultKeyed :
      Keyed keys → DefaultKeyed (swapped now keys prev heap).0 (swapped now keys prev heap).1
  unfolding build_table
  swapped-DefaultKeyed keyed t c h =
      let same = some-inj t c in
      let (i, found, key) =
        default-Keyed keyed (find default_project entries_now) refl
          (ap (λ x. x.has_default) same ∙ h) in
      let b = build_pipelines-Built now prev keys heap v in
      (
        i,
        ap (λ x. find default_project x.pipelines) (sym same) ∙ found,
        λ e.
            key (
              sym (ap (λ x. x.key) (drained-Onward.who i (b.in_range default_project i found)))
              ∙ e),
      )

-- Only what `/stats` shows of reloads changes.
noted-Good :
    (failures unix : ℕ) (r : Registry)
    → Sound r
    → Good r (record r { keys_reload_failures = failures; last_keys_reload_unix = unix })
noted-Good failures unix r v = record {
  after = record {
    routes = v.routes;
    distinct = v.distinct;
    opened = v.opened;
    default_keyed = v.default_keyed;
    capacity = v.capacity;
  };
  onward = Onward-refl r.heap;
}

pub swapped-Good :
    (now unix : ℕ) (keys : Keys) (r : Registry)
    → Distinct keys
    → Keyed keys
    → Sound r
    → Good r (record r {
      cur = (swapped now keys r.cur r.heap).0;
      heap = (swapped now keys r.cur r.heap).1;
      last_keys_reload_unix = unix;
    })
unfolding build_table
swapped-Good now unix keys r d keyed v = record {
  after = record {
    routes = swapped-IsRouted now keys r.cur r.heap v.routes;
    distinct = build_pipelines-Distinct now r.cur keys r.heap d;
    opened = swapped-Opened now keys r.cur r.heap v.routes v.distinct v.opened;
    default_keyed = swapped-DefaultKeyed now keys r.cur r.heap v.routes keyed;
    capacity = v.capacity;
  };
  onward = swapped-Onward now keys r.cur r.heap v.routes;
}

reload_keys-Good :
    (now now_unix : ℕ) (ks : Keys) (r : Registry)
    → keys_good ks ≡ true
    → Sound r
    → Good r (reload_keys now now_unix ks r)
unfolding reload_keys
reload_keys-Good now now_unix ks r g v =
    let keys = wanted_keys r.cfg ks in
    if_both (Good r) (ltb 0 r.cfg.max_projects && ltb r.cfg.max_projects (length keys))
      (noted-Good _ _ r v)
      (if_both (Good r) (unchanged r.cur r.heap keys) (noted-Good _ _ r v) (
        swapped-Good now now_unix keys r (wanted_keys-Distinct r.cfg ks)
          (wanted_keys-Keyed r.cfg ks g) v))

pub load_keys_file-good :
    (raw : Option Keys) (ks : Keys) → load_keys_file raw ≡ some ks → keys_good ks ≡ true
unfolding load_keys_file
load_keys_file-good none ks h = cc
load_keys_file-good (some k) ks h = elim (Bool-cases (keys_good k)) [
  | inl good ↦ subst (λ x. keys_good x ≡ true) (some-inj [] (sym (rw good refl) ∙ h)) good
  | inr bad ↦ absurd (cc (sym (rejected bad) ∙ h))
]
  where
    rejected : keys_good k ≡ false → load_keys_file (some k) ≡ none
    rejected bad = rw bad refl

retried-good :
    (a b : Option Keys) (ks : Keys)
    → retried (load_keys_file a) (load_keys_file b) ≡ some ks
    → keys_good ks ≡ true
retried-good a b ks h = elim (Option-cases (load_keys_file a)) [
  | inl e ↦ load_keys_file-good b ks (sym (rw e refl) ∙ h)
  | inr (k, e) ↦ load_keys_file-good a ks (e ∙ sym (rw e refl) ∙ h)
]

pub reload-Good :
    (now now_unix : ℕ) (a b : Option Keys) (r : Registry)
    → Sound r
    → Good r (reload now now_unix (load_keys_file a) (load_keys_file b) r)
unfolding reload
reload-Good now now_unix a b r v = elim (Bool-cases (is_empty r.cfg.keys_file)) [
  | inl unset ↦ rw unset (Good-refl r v)
  | inr file ↦ elim (Option-cases (retried (load_keys_file a) (load_keys_file b))) [
    | inl bad ↦ rw (file, bad) (noted-Good _ _ r v)
    | inr (ks, read) ↦
        rw (file, read) (reload_keys-Good now now_unix ks r (retried-good a b ks read) v)
  ]
]
