-- ===== src/Keys.antt =====
-- How the routing table follows the keys file: `loadKeysFile` behind the reading of the file, and
-- `keysUnchanged`, `buildTable`, `reload`, `install` and `expireInline` of routing.go.
-- `now` is the time that the clock gives.
pub mod Table
pub mod Reload
pub mod Expiry
use metrics_agent.Prelude.{
  ℕ, suc, ◌+◌, ◌-◌, Bool, true, false, not, ◌&&◌, ◌||◌, List, [], ◌∷◌, ◌++◌, map, Option, none,
  some, ltb, leb, ◌==◌, if◌then◌else◌, length, get_elem?, set, Bytes, equal,
}
use metrics_agent.Data.{Config, default_project}
use metrics_agent.Stats.{add_u64}
use metrics_agent.Registry.{
  Pipeline, RoutingTable, Registry, new_pipeline, find, put, or_closed, at_ptr, store, is_empty,
  is_some, close_shared,
}

abbrev pub Keys : Type 0
Keys = List (Bytes × Bytes)

-- The first byte of a name is `_`.
abbrev pub is_reserved : Bytes → Bool
is_reserved [] = false
is_reserved (c ∷ s) = c == b'_'

-- The loop at the end of `loadKeysFile`.
unfoldable pub keys_good : Keys → Bool
keys_good [] = true
keys_good ((name, key) ∷ ks) =
    let rest = keys_good ks in
    if is_empty name
    then false
    else if is_reserved name
    then false
    else if is_empty key
    then false
    else rest

-- `loadKeysFile` behind `dec.Decode`: what the decoder gave, or an error.
unfoldable pub load_keys_file : Option Keys → Option Keys
load_keys_file raw = elim raw [ none ↦ none | some ks ↦ if keys_good ks then some ks else none ]

-- `for k, v := range fileKeys { newKeys[k] = v }`
abbrev pub put_all : Keys → Keys → Keys
put_all [] m = m
put_all ((k, v) ∷ ks) m = put_all ks (put k v m)

-- The keys that the table is to have.
unfoldable pub wanted_keys : Config → Keys → Keys
wanted_keys cfg file_keys =
    put_all file_keys (if is_empty cfg.api_key then [] else (default_project, cfg.api_key) ∷ [])

unfoldable pub has_key : List Pipeline → RoutingTable → Bytes → Bytes → Bool
has_key heap t name key = elim (find name t.pipelines) [
  | none ↦ false
  | some i ↦ equal (or_closed (get_elem? heap i)).api_key key
]

unfoldable pub all_keys : List Pipeline → RoutingTable → Keys → Bool
all_keys heap t [] = true
all_keys heap t ((name, key) ∷ ks) =
    let rest = all_keys heap t ks in if has_key heap t name key then rest else false

unfoldable pub keys_unchanged : List Pipeline → RoutingTable → Keys → Bool
unfolding all_keys has_key
keys_unchanged heap t keys =
    if not (length t.pipelines == length keys) then false else all_keys heap t keys

-- The pipeline of the previous table with this name and key.
unfoldable pub reusable : List Pipeline → Option RoutingTable → Bytes → Bytes → Option ℕ
reusable heap none name key = none
reusable heap (some t) name key = elim (find name t.pipelines) [
  | none ↦ none
  | some i ↦ if equal (or_closed (get_elem? heap i)).api_key key then some i else none
]

-- One turn of the loop of `buildTable`: the pipeline reused, or a new one on the heap.
unfoldable pub place : ℕ → Bytes → Bytes → List Pipeline → Option ℕ → ℕ × List Pipeline
place now name key heap (some i) = (i, heap)
place now name key heap none = (length heap, heap ++ new_pipeline name key now ∷ [])

unfoldable pub build_pipelines :
    ℕ → Option RoutingTable → Keys → List Pipeline → List (Bytes × ℕ) × List Pipeline
build_pipelines now prev [] heap = ([], heap)
build_pipelines now prev ((name, key) ∷ ks) heap =
    let here = place now name key heap (reusable heap prev name key) in
    let rest = build_pipelines now prev ks here.1 in ((name, here.0) ∷ rest.0, rest.1)

unfoldable pub build_table :
    ℕ → Keys → Option RoutingTable → List Pipeline → RoutingTable × List Pipeline
build_table now keys prev heap =
    let built = build_pipelines now prev keys heap in
    (record { pipelines = built.0; has_default = is_some (find default_project built.0) }, built.1)

-- `drain` up to the wait for the batcher: the input is closed.
abbrev pub close_input : ℕ → List Pipeline → List Pipeline
close_input i heap = set heap i (record (or_closed (get_elem? heap i)) { closed = true })

abbrev pub same_pointer : Option ℕ → ℕ → Bool
same_pointer none i = false
same_pointer (some j) i = j == i

-- The pipelines of the previous table that are gone or replaced are drained.
unfoldable pub drain_replaced : List (Bytes × ℕ) → List (Bytes × ℕ) → List Pipeline → List Pipeline
drain_replaced next [] heap = heap
drain_replaced next ((name, i) ∷ old) heap =
    let heap1 = if same_pointer (find name next) i then heap else close_input i heap in
    drain_replaced next old heap1

abbrev pub entries_of : Option RoutingTable → List (Bytes × ℕ)
entries_of none = []
entries_of (some t) = t.pipelines

unfoldable pub unchanged : Option RoutingTable → List Pipeline → Keys → Bool
unchanged none heap keys = false
unchanged (some t) heap keys = keys_unchanged heap t keys

-- `reload` from the moment that the file has been read.
unfoldable pub reload_keys : ℕ → ℕ → Keys → Registry → Registry
reload_keys now now_unix file_keys r =
    let keys = wanted_keys r.cfg file_keys in
    if ltb 0 r.cfg.max_projects && ltb r.cfg.max_projects (length keys)
    then record r { keys_reload_failures = add_u64 r.keys_reload_failures 1 }
    else if unchanged r.cur r.heap keys
    then record r { last_keys_reload_unix = now_unix }
    else let built = build_table now keys r.cur r.heap in
      record r {
        cur = some built.0;
        heap = drain_replaced built.0.pipelines (entries_of r.cur) built.1;
        last_keys_reload_unix = now_unix;
      }

-- What `loadKeysFile` gives at the first and at the second attempt.
abbrev pub retried : Option Keys → Option Keys → Option Keys
retried (some ks) again = some ks
retried none again = again

unfoldable pub reload : ℕ → ℕ → Option Keys → Option Keys → Registry → Registry
reload now now_unix first second r =
    if is_empty r.cfg.keys_file then r else elim (retried first second) [
      | none ↦ record r { keys_reload_failures = add_u64 r.keys_reload_failures 1 }
      | some ks ↦ reload_keys now now_unix ks r
    ]

-- `install`: the first table, or an error; the pipelines are started as they are made.
unfoldable pub install_keys : ℕ → Keys → Registry → Option Registry
install_keys now keys r =
    if ltb 0 r.cfg.max_projects && ltb r.cfg.max_projects (length keys)
    then none
    else let built = build_table now keys none r.heap in
      some (record r { cur = some built.0; heap = built.1 })

unfoldable pub install : ℕ → Option Keys → Registry → Option Registry
install now loaded r =
    if is_empty r.cfg.keys_file
    then install_keys now (wanted_keys r.cfg []) r
    else elim loaded [ none ↦ none | some ks ↦ install_keys now (wanted_keys r.cfg ks) r ]

-- `expireInline`: is this pipeline idle?
abbrev pub is_idle : ℕ → Pipeline → Bool
is_idle cutoff p = p.inline && ltb p.last_seen cutoff

unfoldable pub retired : ℕ → List Pipeline → List (Bytes × ℕ) → List ℕ
retired cutoff heap [] = []
retired cutoff heap ((name, i) ∷ es) =
    let rest = retired cutoff heap es in
    if is_idle cutoff (or_closed (get_elem? heap i)) then i ∷ rest else rest

-- Is this pointer one of the dead?
abbrev pub among : ℕ → List ℕ → Bool
among i [] = false
among i (dead ∷ ds) = dead == i || among i ds

unfoldable pub keep_live : List ℕ → List (Bytes × ℕ) → List (Bytes × ℕ)
keep_live dead [] = []
keep_live dead ((name, i) ∷ es) =
    let rest = keep_live dead es in if among i dead then rest else (name, i) ∷ rest

abbrev pub close_all : List ℕ → List Pipeline → List Pipeline
close_all [] heap = heap
close_all (i ∷ is) heap = close_all is (close_input i heap)

-- The swap of `expireInline` and the drains that follow it. A time before the clock's zero is 0.
unfoldable pub expire_table : ℕ → RoutingTable → Registry → Registry × ℕ
expire_table cutoff t r =
    let gone = retired cutoff r.heap t.pipelines in
    if length gone == 0 then (r, 0) else (
      record r {
        cur = some (record t { pipelines = keep_live gone t.pipelines });
        heap = close_all gone r.heap;
        inline_projects_expired = add_u64 r.inline_projects_expired (length gone);
      },
      length gone,
    )

unfoldable pub expire_inline : ℕ → ℕ → Registry → Registry × ℕ
expire_inline idle now r =
    if leb idle 0
    then (r, 0)
    else elim r.cur [ none ↦ (r, 0) | some t ↦ expire_table (now - idle) t r ]

-- `inlineLive`
unfoldable pub count_inline : List Pipeline → List (Bytes × ℕ) → ℕ
count_inline heap [] = 0
count_inline heap ((name, i) ∷ es) =
    let rest = count_inline heap es in
    if (or_closed (get_elem? heap i)).inline then suc rest else rest

unfoldable pub inline_live : Registry → ℕ
unfolding count_inline
inline_live r = count_inline r.heap (entries_of r.cur)
