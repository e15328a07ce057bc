-- ===== src/Lifecycle/Tests.antt =====
-- A start with two projects, a third that brings its token, and the shutdown.
use metrics_agent.Prelude.{
  ◌<◌, ◌+◌, arith, codes, ◌≡◌, ◌≢◌, ◌↔◌, refl, sym, ◌∙◌, true, false, [], ◌∷◌, none, some, equal,
}
use metrics_agent.Stats.{new_self_stats}
use metrics_agent.Registry.{
  find, Registry, RoutingTable, new_registry, lookup, lookup_in, register_new, register_inline,
  resolve, demux_step,
}
use metrics_agent.Registry.Demux.{demux}
use metrics_agent.Keys.{
  keys_good, load_keys_file, wanted_keys, reusable, place, build_pipelines, build_table, install,
  install_keys, entries_of, keys_unchanged, all_keys, has_key, retired, close_all, expire_inline,
}
use metrics_agent.RoutingTests.{cfg, file, fields}
use metrics_agent.Lifecycle.{Reach, here, further, resolves, shutdown, each_open, pointers}
use metrics_agent.Lifecycle.Heap.{pipe, Onward}
use metrics_agent.Lifecycle.Swaps.{replaced}
use metrics_agent.Lifecycle.Stale.{reload-expiry}
use metrics_agent.Lifecycle.Sound.{Sound}
use metrics_agent.Lifecycle.Entries.{Distinct}
use metrics_agent.Lifecycle.Reloading.{wanted_keys-Distinct}
use metrics_agent.Lifecycle.Unchanged.{Serves, keys_unchanged_iff}
use metrics_agent.Lifecycle.Drains.{DrainOnce}
use metrics_agent.Lifecycle.Closing.{Ended, shutdown-expiry}
use metrics_agent.Lifecycle.Reached.{Reach-Sound, Reach-Onward}
use metrics_agent.Lifecycle.Safe.{Reach-DrainOnce, Reach-Ended}

abbrev pub start : Registry
start =
    let built = build_table 7 (wanted_keys cfg file) none [] in
    record (new_registry cfg (new_self_stats 0)) { cur = some built.0; heap = built.1 }

start_ok : install 7 (load_keys_file (some file)) (new_registry cfg (new_self_stats 0)) ≡ some start
unfolding install install_keys load_keys_file keys_good wanted_keys equal
start_ok = refl

-- After the registration of `gamma`.
abbrev pub grown : Registry
grown = (resolve 9 fields start).0

steps : Reach start grown
steps = further here (resolves 9 fields)

pub grown-Sound : Sound grown
grown-Sound = Reach-Sound 7 (some file) cfg (new_self_stats 0) start grown start_ok steps

Reach-Sound_example : Sound grown
Reach-Sound_example = Reach-Sound 7 (some file) cfg (new_self_stats 0) start grown start_ok steps

Reach-Onward_example : Onward start.heap grown.heap
Reach-Onward_example =
    Reach-Onward 7 (some file) cfg (new_self_stats 0) start start grown start_ok here steps

Reach-DrainOnce_example : DrainOnce grown 10 100 []
Reach-DrainOnce_example =
    Reach-DrainOnce 7 (some file) cfg (new_self_stats 0) start grown 10 100 [] start_ok steps

Reach-Ended_example : Ended grown (shutdown grown)
Reach-Ended_example = Reach-Ended 7 (some file) cfg (new_self_stats 0) start grown start_ok steps

abbrev stopped : Registry
stopped = record grown {
  shared_closed = true;
  heap = close_all (pointers (entries_of grown.cur)) grown.heap;
}

stopped_ok : shutdown grown ≡ some stopped
unfolding shutdown demux demux_step resolve register_inline register_new lookup lookup_in
    build_table build_pipelines reusable place wanted_keys equal
stopped_ok = refl

gamma_retired : retired 100 stopped.heap (entries_of stopped.cur) ≡ 2 ∷ []
unfolding retired resolve register_inline register_new lookup lookup_in build_table build_pipelines
    reusable place wanted_keys equal
gamma_retired = refl

gamma_idle : retired 100 stopped.heap (entries_of stopped.cur) ≢ []
gamma_idle e = cc (sym gamma_retired ∙ e)

shutdown-expiry_example :
    each_open (retired 100 stopped.heap (entries_of stopped.cur)) stopped.heap ≡ false
shutdown-expiry_example = shutdown-expiry grown stopped 100 grown-Sound stopped_ok gamma_idle

gamma_found : find (codes "gamma") (entries_of grown.cur) ≡ some 2
unfolding resolve register_inline register_new lookup lookup_in build_table build_pipelines reusable
    place wanted_keys equal
gamma_found = refl

gamma_inline : (pipe grown.heap 2).inline ≡ true
unfolding resolve register_inline register_new lookup lookup_in build_table build_pipelines reusable
    place wanted_keys equal
gamma_inline = refl

gamma_old : (pipe grown.heap 2).last_seen + 5 < 100
unfolding resolve register_inline register_new lookup lookup_in build_table build_pipelines reusable
    place wanted_keys equal
gamma_old = omega arith

five_pos : 0 < 5
five_pos = omega arith

reload-expiry_example :
    each_open
      (replaced
        (build_pipelines 101 grown.cur [] (expire_inline 5 100 grown).0.heap).0
        (entries_of grown.cur))
      (build_pipelines 101 grown.cur [] (expire_inline 5 100 grown).0.heap).1
    ≡ false
reload-expiry_example =
    reload-expiry 101 5 100 [] grown (codes "gamma") 2 grown-Sound five_pos gamma_found gamma_inline
      gamma_old refl

abbrev table : RoutingTable
table = (build_table 7 (wanted_keys cfg file) none []).0

table-Distinct : Distinct table.pipelines
table-Distinct =
    (Reach-Sound 7 (some file) cfg (new_self_stats 0) start start start_ok here).distinct

keys_unchanged_iff_example :
    (keys_unchanged start.heap table (wanted_keys cfg file) ≡ true)
    ↔ Serves start.heap table (wanted_keys cfg file)
keys_unchanged_iff_example =
    keys_unchanged_iff start.heap table (wanted_keys cfg file) (wanted_keys-Distinct cfg file)
      table-Distinct

quiet : keys_unchanged start.heap table (wanted_keys cfg file) ≡ true
unfolding keys_unchanged all_keys has_key build_table build_pipelines reusable place wanted_keys
    equal
quiet = refl
