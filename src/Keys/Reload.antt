-- ===== src/Keys/Reload.antt =====
-- `reload` and `install`: the table that is published serves the keys of the file.
use metrics_agent.Prelude.{
  ℕ, ◌≡◌, inl, inr, refl, sym, ap, ◌∙◌, false, ◌&&◌, List, [], ◌∷◌, Option, none, some, ltb,
  get_elem?, length, Bytes, Bool-cases, Option-cases, if_both,
}
use metrics_agent.Data.{default_project}
use metrics_agent.Registry.{Pipeline, Registry, RoutingTable, find, or_closed, is_some, is_empty}
use metrics_agent.Registry.Routes.{IsRouted, IsValid, kept, identity, store-IsRouted}
use metrics_agent.Registry.Registered.{some-inj}
use metrics_agent.Keys.{
  Keys, build_pipelines, build_table, drain_replaced, same_pointer, entries_of, wanted_keys,
  unchanged, install, install_keys, reload_keys, retried, reload,
}
use metrics_agent.Keys.Table.{key_at, build_pipelines-Built}

build_table-IsRouted :
    (now : ℕ) (keys : Keys) (prev : Option RoutingTable) (heap : List Pipeline)
    → IsRouted prev heap
    → IsRouted (some (build_table now keys prev heap).0) (build_table now keys prev heap).1
unfolding build_table
build_table-IsRouted now keys prev heap v =
    let b = build_pipelines-Built now prev keys heap v in
    let t = (build_table now keys prev heap).0 in
    record {
      in_range = λ u k i c f. b.in_range k i (ap (λ x. find k x.pipelines) (some-inj u c) ∙ f);
      named = λ u k i c f. b.named k i (ap (λ x. find k x.pipelines) (some-inj u c) ∙ f);
      default_there = λ u c h.
          ap (λ x. is_some (find default_project x.pipelines)) (sym (some-inj u c))
          ∙ ap (λ x. x.has_default) (some-inj u c)
          ∙ h;
      default_inline = λ u i c h f.
          let it = some-inj u c in
          absurd (
            cc (
              sym (ap is_some (ap (λ x. find default_project x.pipelines) it ∙ f))
              ∙ ap (λ x. x.has_default) it
              ∙ h));
      no_key = b.routes.no_key;
    }

drain_replaced-IsRouted :
    (cur : Option RoutingTable) (next old : List (Bytes × ℕ)) (heap : List Pipeline)
    → IsRouted cur heap
    → IsRouted cur (drain_replaced next old heap)
unfolding drain_replaced
drain_replaced-IsRouted cur next [] heap v = v
drain_replaced-IsRouted cur next ((n, i) ∷ old) heap v =
    drain_replaced-IsRouted cur next old _
      (if_both (IsRouted cur) (same_pointer (find n next) i) v (store-IsRouted cur heap i _ refl v))

-- A drain leaves the keys.
drain_replaced-key :
    (next old : List (Bytes × ℕ)) (heap : List Pipeline) (j : ℕ)
    → (or_closed (get_elem? (drain_replaced next old heap) j)).api_key
      ≡ (or_closed (get_elem? heap j)).api_key
unfolding drain_replaced
drain_replaced-key next [] heap j = refl
drain_replaced-key next ((n, i) ∷ old) heap j =
    drain_replaced-key next old _ j
    ∙ if_both
        (λ (h : List Pipeline).
          (or_closed (get_elem? h j)).api_key ≡ (or_closed (get_elem? heap j)).api_key)
        (same_pointer (find n next) i) refl (ap (λ x. x.key) (kept identity heap i _ refl j))

drain_replaced-key_at :
    (next old : List (Bytes × ℕ)) (heap : List Pipeline) (o : Option ℕ)
    → key_at (drain_replaced next old heap) o ≡ key_at heap o
drain_replaced-key_at next old heap none = refl
drain_replaced-key_at next old heap (some j) = ap some (drain_replaced-key next old heap j)

-- The new table and heap of a reload that changes the routes.
abbrev pub swapped :
    ℕ → Keys → Option RoutingTable → List Pipeline → Option RoutingTable × List Pipeline
swapped now keys prev heap =
    let built = build_table now keys prev heap in
    (some built.0, drain_replaced built.0.pipelines (entries_of prev) built.1)

pub swapped-IsRouted :
    (now : ℕ) (keys : Keys) (prev : Option RoutingTable) (heap : List Pipeline)
    → IsRouted prev heap
    → IsRouted (swapped now keys prev heap).0 (swapped now keys prev heap).1
swapped-IsRouted now keys prev heap v =
    let built = build_table now keys prev heap in
    drain_replaced-IsRouted (some built.0) built.0.pipelines (entries_of prev) built.1
      (build_table-IsRouted now keys prev heap v)

swapped-serves :
    (now : ℕ) (keys : Keys) (prev : Option RoutingTable) (heap : List Pipeline)
    → IsRouted prev heap
    → (name : Bytes)
    → key_at (swapped now keys prev heap).1 (find name (entries_of (swapped now keys prev heap).0))
      ≡ find name keys
unfolding build_table
swapped-serves now keys prev heap v name =
    let built = build_pipelines now prev keys heap in
    drain_replaced-key_at built.0 (entries_of prev) built.1 (find name built.0)
    ∙ (build_pipelines-Built now prev keys heap v).serves name

-- What a registry is after a reload: as valid as before.
reload_keys-IsValid :
    (now now_unix : ℕ) (file_keys : Keys) (r : Registry)
    → IsValid r
    → IsValid (reload_keys now now_unix file_keys r)
unfolding reload_keys
reload_keys-IsValid now now_unix file_keys r v =
    let keys = wanted_keys r.cfg file_keys in
    elim (Bool-cases (ltb 0 r.cfg.max_projects && ltb r.cfg.max_projects (length keys))) [
      | inl many ↦ rw many v
      | inr few ↦ elim (Bool-cases (unchanged r.cur r.heap keys)) [
        | inl quiet ↦ rw (few, quiet) v
        | inr other ↦ rw (few, other) (swapped-IsRouted now keys r.cur r.heap v)
      ]
    ]

-- Whatever the two readings of the keys file give, a reload keeps the routes valid: a bad file, a
-- file with too many projects, the same keys, or new ones.
pub reload-IsValid :
    (now now_unix : ℕ) (first second : Option Keys) (r : Registry)
    → IsValid r
    → IsValid (reload now now_unix first second r)
unfolding reload
reload-IsValid now now_unix first second r v = elim (Bool-cases (is_empty r.cfg.keys_file)) [
  | inl unset ↦ rw unset v
  | inr file ↦ elim (Option-cases (retried first second)) [
    | inl bad ↦ rw (file, bad) v
    | inr (ks, read) ↦ rw (file, read) (reload_keys-IsValid now now_unix ks r v)
  ]
]

-- A reload that is within the limit of projects and finds other keys publishes exactly these: a
-- name has a pipeline if and only if the keys have the name, and the pipeline holds its key.
pub reload_keys-serves :
    (now now_unix : ℕ) (file_keys : Keys) (r : Registry)
    → IsValid r
    → (ltb 0 r.cfg.max_projects && ltb r.cfg.max_projects (length (wanted_keys r.cfg file_keys)))
      ≡ false
    → unchanged r.cur r.heap (wanted_keys r.cfg file_keys) ≡ false
    → (name : Bytes)
    → key_at
        (reload_keys now now_unix file_keys r).heap
        (find name (entries_of (reload_keys now now_unix file_keys r).cur))
      ≡ find name (wanted_keys r.cfg file_keys)
unfolding reload_keys
reload_keys-serves now now_unix file_keys r v few other name =
    rw (few, other) (swapped-serves now (wanted_keys r.cfg file_keys) r.cur r.heap v name)

-- A heap without a table.
unpublished :
    (cur : Option RoutingTable) (heap : List Pipeline) → IsRouted cur heap → IsRouted none heap
unpublished cur heap v = record {
  in_range = λ t k i c f. absurd (cc);
  named = λ t k i c f. absurd (cc);
  default_there = λ t c h. absurd (cc);
  default_inline = λ t i c h f. absurd (cc);
  no_key = v.no_key;
}

-- What `install` publishes, or that it reports too many projects.
pub record Installed (keys : Keys) (o : Option Registry) : Type 0 where
  pub installed : Registry
  pub returns : o ≡ some installed
  pub valid : IsValid installed
  pub serves :
      (name : Bytes) → key_at installed.heap (find name (entries_of installed.cur)) ≡ find name keys

-- With a keys file that can be read and is within the limit of projects, the start succeeds, and
-- the first table serves exactly the wanted keys.
pub install-Installed :
    (now : ℕ) (file_keys : Keys) (r : Registry)
    → IsValid r
    → is_empty r.cfg.keys_file ≡ false
    → (ltb 0 r.cfg.max_projects && ltb r.cfg.max_projects (length (wanted_keys r.cfg file_keys)))
      ≡ false
    → Installed (wanted_keys r.cfg file_keys) (install now (some file_keys) r)
unfolding install install_keys build_table
install-Installed now file_keys r v file few =
    let keys = wanted_keys r.cfg file_keys in
    let fresh = unpublished r.cur r.heap v in
    record {
      installed = record r {
        cur = some (build_table now keys none r.heap).0;
        heap = (build_table now keys none r.heap).1;
      };
      returns = rw (file, few) refl;
      valid = build_table-IsRouted now keys none r.heap fresh;
      serves = (build_pipelines-Built now none keys r.heap fresh).serves;
    }
