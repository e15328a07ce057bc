-- ===== src/Listener/Accounts.antt =====
-- The books of the listener: every datagram received is queued or counted as dropped.
use metrics_agent.Prelude.{
  ℕ, suc, ◌+◌, ◌^◌, ◌≤◌, ◌<◌, ◌≡◌, refl, List, [], ◌∷◌, Option, none, some, arith, length, Bytes,
}
use metrics_agent.Data.{RawDatagram}
use metrics_agent.Stats.{SelfStats}
use metrics_agent.Strip.{Codec, RoutingFields, extract_and_strip_routing}
use metrics_agent.Registry.{
  Registry, Dispatched, count, enqueue, touch, to_pipeline, resolve, deliver, stamped,
  dispatch_fields, dispatch,
}
use metrics_agent.Registry.Dispatch.{resolve-SameQueue, outcomes, pending, dispatch_fields-outcomes}
use metrics_agent.Listener.{
  Read, read, read_error, self_received, datagram_of, after_dispatch, turn, listen,
}

-- The counters that only the listener writes.
record SameReads (s t : SelfStats) : Type 0 where
  received_same : t.events_received ≡ s.events_received
  full_same : t.drops_queue_full ≡ s.drops_queue_full

enqueue-SameReads :
    (i : ℕ) (dg : RawDatagram) (r : Registry) → SameReads r.self (enqueue i dg r).after.self
unfolding enqueue
enqueue-SameReads i dg r = ground arith

to_pipeline-SameReads :
    (project : Bytes) (dg : RawDatagram) (i : ℕ) (r : Registry)
    → SameReads r.self (to_pipeline project dg i r).after.self
unfolding to_pipeline
to_pipeline-SameReads project dg i r =
    ground (arith, enqueue-SameReads i (record dg { project = project }) (touch i dg.at r))

deliver-SameReads :
    (project : Bytes) (dg : RawDatagram) (x : Registry × Option ℕ)
    → SameReads x.0.self (deliver project dg x).after.self
unfolding deliver
deliver-SameReads project dg (r, some i) = to_pipeline-SameReads project dg i r
deliver-SameReads project dg (r, none) = ground arith

dispatch_fields-SameReads :
    (now : ℕ) (f : RoutingFields) (dg : RawDatagram) (r : Registry)
    → SameReads r.self (dispatch_fields now f dg r).after.self
unfolding dispatch_fields
dispatch_fields-SameReads now f dg r = ground (
  arith,
  deliver-SameReads f.project (stamped r.cfg.inline_tokens f dg) (resolve now f r),
  (resolve-SameQueue now f r).self_same,
)

-- What became of the datagrams received.
abbrev pub booked : Registry → ℕ
booked r = pending r + r.self.drops_queue_full

-- What the counters can still take.
abbrev pub highest : Registry → ℕ
highest r = r.self.events_received + booked r

after_dispatch-booked :
    (n : ℕ) (d : Dispatched)
    → suc d.after.self.drops_queue_full < 2 ^ 64
    → outcomes d ≡ n
    → booked (after_dispatch d) ≡ n + d.after.self.drops_queue_full
unfolding after_dispatch
after_dispatch-booked n d h e = ground (arith, e)

after_dispatch-received :
    (d : Dispatched) → (after_dispatch d).self.events_received ≡ d.after.self.events_received
unfolding after_dispatch
after_dispatch-received d = ground arith

pub read-booked :
    (codec : Codec) (b : Bytes) (now : ℕ) (r : Registry)
    → suc (highest r) < 2 ^ 64
    → (booked (turn codec (read b now) r) ≡ suc (booked r))
      × ((turn codec (read b now) r).self.events_received ≡ suc r.self.events_received)
unfolding turn dispatch
read-booked codec b now r h =
    let f = extract_and_strip_routing codec b in
    let dg = datagram_of b now in
    let start = count self_received r in
    let d = dispatch_fields now f dg start in
    let same = dispatch_fields-SameReads now f dg start in
    let all = dispatch_fields-outcomes now f dg start (omega arith) in
    (
      omega (
        arith,
        after_dispatch-booked (suc (pending start)) d (omega (arith, same.full_same)) all,
        same.full_same,
      ),
      omega (arith, after_dispatch-received d, same.received_same),
    )

-- One turn moves both sides of the books alike, by one datagram at most.
record Balanced (r s : Registry) (reads : ℕ) : Type 0 where
  level : booked s + r.self.events_received ≡ booked r + s.self.events_received
  low : highest s ≤ highest r + (reads + reads)

turn-Balanced :
    (codec : Codec) (x : Read) (r : Registry)
    → suc (highest r) < 2 ^ 64
    → Balanced r (turn codec x r) 1
unfolding turn
turn-Balanced codec (read b now) r h =
    let k = read-booked codec b now r h in
    record { level = omega (arith, k.0, k.1); low = omega (arith, k.0, k.1) }
turn-Balanced codec read_error r h = record { level = omega arith; low = omega arith }

listen-Balanced :
    (codec : Codec) (xs : List Read) (r : Registry)
    → highest r + (length xs + length xs) < 2 ^ 64
    → Balanced r (listen codec xs r) (length xs)
unfolding listen
listen-Balanced codec [] r h = record { level = refl; low = omega arith }
listen-Balanced codec (x ∷ xs) r h =
    let first = turn-Balanced codec x r (omega arith) in
    let rest = listen-Balanced codec xs (turn codec x r) (omega (arith, first.low)) in
    record {
      level = omega (arith, first.level, rest.level);
      low = omega (arith, first.low, rest.low);
    }

-- However the socket's reads go, the datagrams received and what is booked of them, as queued, as
-- refused by the full queue or as another drop, grow by the same number: no datagram vanishes
-- between the socket and the shared queue without a counter. The counters are below their limit.
pub listen-booked :
    (codec : Codec) (xs : List Read) (r : Registry)
    → highest r + (length xs + length xs) < 2 ^ 64
    → booked (listen codec xs r) + r.self.events_received
      ≡ booked r + (listen codec xs r).self.events_received
listen-booked codec xs r h = (listen-Balanced codec xs r h).level
