-- ===== src/Listener.antt =====
-- The read loop of `listen` in listener.go: a datagram read is counted and dispatched, a failed
-- read is counted. The socket is what gives the sequence of reads.
mod Accounts
mod Tests
use metrics_agent.Prelude.{ℕ, Bool, false, true, if◌then◌else◌, List, [], ◌∷◌, Bytes}
use metrics_agent.Data.{RawDatagram}
use metrics_agent.Stats.{SelfStats, add_u64}
use metrics_agent.Strip.{Codec}
use metrics_agent.Registry.{Registry, Dispatched, count, dispatch}

-- What `ReadFrom` gives: the bytes read and the time, or an error.
pub data Read : Type 0 where
  read : Bytes → ℕ → Read
  read_error : Read

abbrev pub self_received : SelfStats → SelfStats
self_received s = record s { events_received = add_u64 s.events_received 1 }

abbrev pub self_queue_full : SelfStats → SelfStats
self_queue_full s = record s { drops_queue_full = add_u64 s.drops_queue_full 1 }

abbrev pub self_read_error : SelfStats → SelfStats
self_read_error s = record s { read_errors = add_u64 s.read_errors 1 }

abbrev pub datagram_of : Bytes → ℕ → RawDatagram
datagram_of b now = record { bytes = b; at = now; project = []; token = [] }

-- The test behind `dispatch`.
unfoldable pub after_dispatch : Dispatched → Registry
after_dispatch d = if d.queue_full then count self_queue_full d.after else d.after

-- One turn of the loop.
unfoldable pub turn : Codec → Read → Registry → Registry
turn codec (read b now) r =
    after_dispatch (dispatch codec now (datagram_of b now) (count self_received r))
turn codec read_error r = count self_read_error r

-- The loop, on the reads that the socket gives until it is closed.
unfoldable pub listen : Codec → List Read → Registry → Registry
listen codec [] r = r
listen codec (x ∷ xs) r = listen codec xs (turn codec x r)
