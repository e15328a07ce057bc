-- ===== src/Lifecycle.antt =====
-- The goroutines of the agent on one registry, interleaved. `dispatch` and `demux` are taken apart
-- where they let others run: a step of theirs may use a pipeline that it has looked up before the
-- table was swapped, so a pointer is arbitrary. The swap of a table, with the load before it, is one
-- step. `shutdown` of routing.go runs when the listener and the reloads have ended.
pub mod Heap
pub mod Entries
pub mod Swaps
pub mod Sound
mod Quiet
mod Registering
pub mod Reloading
pub mod Expiring
pub mod Reached
pub mod Drains
pub mod Closing
pub mod Safe
mod Stale
pub mod Unchanged
pub mod Tests
use metrics_agent.Prelude.{
  ℕ, suc, Bool, true, false, not, ◌&&◌, List, [], ◌∷◌, Option, none, some, ◌≡◌, map, length,
  get_elem?, if◌then◌else◌, Bytes,
}
use metrics_agent.Data.{RawDatagram}
use metrics_agent.Stats.{SelfStats}
use metrics_agent.Strip.{RoutingFields}
use metrics_agent.Registry.{
  Registry, Pipeline, or_closed, at_ptr, store, resolve, to_pipeline, try_send, account,
  close_shared,
}
use metrics_agent.Registry.Demux.{demux}
use metrics_agent.Keys.{
  Keys, entries_of, load_keys_file, reload, expire_inline, close_input, close_all,
}

pub data Step : Registry → Registry → Type 0 where
  -- `dispatch`: the lookup, with the registration of a new project; the sending; its counters.
  resolves : (now : ℕ) (f : RoutingFields) {r : Registry} → Step r (resolve now f r).0
  sends :
      (project : Bytes) (dg : RawDatagram) (i : ℕ) {r : Registry}
      → Step r (to_pipeline project dg i r).after
  counts : (s : SelfStats) {r : Registry} → Step r (record r { self = s })
  -- `demux`: a datagram from the shared queue, and its way to a pipeline.
  dequeues :
      {dg : RawDatagram} {dgs : List RawDatagram} {r : Registry}
      → r.shared_raw_ch ≡ dg ∷ dgs
      → Step r (record r { shared_raw_ch = dgs })
  forwards :
      (dg : RawDatagram) (i : ℕ) {r : Registry} → Step r (account i (try_send dg (at_ptr r i)) r)
  -- The batcher of a pipeline takes a datagram.
  takes :
      (i : ℕ) {dg : RawDatagram} {dgs : List RawDatagram} {r : Registry}
      → (at_ptr r i).raw_ch ≡ dg ∷ dgs
      → Step r (store i (record (at_ptr r i) { raw_ch = dgs }) r)
  reloads :
      (now now_unix : ℕ) (first second : Option Keys) {r : Registry}
      → Step r (reload now now_unix (load_keys_file first) (load_keys_file second) r)
  expires : (idle now : ℕ) {r : Registry} → Step r (expire_inline idle now r).0

-- Any number of steps.
pub data Reach (start : Registry) : Registry → Type 0 where
  here : Reach start start
  further : {r s : Registry} → Reach start r → Step r s → Reach start s

-- The pipelines that `shutdown` drains.
abbrev pub pointers : List (Bytes × ℕ) → List ℕ
pointers [] = []
pointers ((name, i) ∷ es) = i ∷ pointers es

-- `shutdown` without its waits: no send on the shared queue, the end of `demux`, and the closing of
-- the inputs of the published table.
unfoldable pub shutdown : Registry → Option Registry
shutdown r = elim (demux (suc (length r.shared_raw_ch)) (close_shared r)) [
  | none ↦ none
  | some s ↦ some (record s { heap = close_all (pointers (entries_of s.cur)) s.heap })
]

-- The drains one after the other: each finds its pipeline open. `close(p.rawCh)` on a channel that is
-- closed panics.
unfoldable pub each_open : List ℕ → List Pipeline → Bool
each_open [] heap = true
each_open (i ∷ is) heap =
    let rest = each_open is (close_input i heap) in
    if (or_closed (get_elem? heap i)).closed then false else rest
