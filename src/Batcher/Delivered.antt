-- ===== src/Batcher/Delivered.antt =====
-- `run` while all its sends succeed: what comes out is what came in.
use metrics_agent.Prelude.{
  ℕ, ◌≡◌, refl, sym, ap, ◌∙◌, Bool, true, List, [], ◌∷◌, ◌++◌, append-nil, append_assoc, Option,
  none, some, arith, Bytes, Each,
}
use metrics_agent.Data.{RawDatagram}
use metrics_agent.Stats.{SelfStats, PipelineStats}
use metrics_agent.Events.{
  Runtime, validate_event, ValidateReason, validate_ok, validate_oversize, validate_parse_error,
}
use metrics_agent.Events.Decoding.{Reading}
use metrics_agent.Events.Verdict.{validate_event-Verdict}
use metrics_agent.Batcher.{
  Batching, new_events_batcher, started, Input, datagram, window_end, flush, append_event,
  count_received, make_room, flush_full, accept, receive, window_ends, input_closed, turn, run,
}
use metrics_agent.Batcher.Invariant.{flush-cur}
use metrics_agent.Batcher.Stream.{events_of, taken, flush-taken, accept-taken, window_ends-taken}

-- No send of the input is interrupted.
abbrev pub Sends : Input → Type 0
Sends (datagram a b dg) = (a ≡ true) × (b ≡ true)
Sends (window_end sent) = sent ≡ true

-- The event of an answer of `validateEvent`, if there is one.
abbrev pub event_of : Option (Bytes × ValidateReason) → List Bytes
event_of none = []
event_of (some (ev, validate_ok)) = ev ∷ []
event_of (some (ev, validate_oversize)) = []
event_of (some (ev, validate_parse_error)) = []

module _ {D : Type 0} (rt : Runtime D) where
  -- The valid events of the inputs.
  abbrev pub events_in : ℕ → List Input → List Bytes
  events_in limit [] = []
  events_in limit (datagram a b dg ∷ is) =
      event_of (validate_event rt dg.bytes limit) ++ events_in limit is
  events_in limit (window_end sent ∷ is) = events_in limit is

-- The limit on an event is set once.
abbrev pub limit_of : Batching → ℕ
limit_of w = w.batcher.max_event_bytes

pub flush-limit : (sent : Bool) (w : Batching) → limit_of (flush sent w) ≡ limit_of w
unfolding flush
flush-limit sent w = ground arith

make_room-limit :
    (sent : Bool) (ev : Bytes) (w : Batching) → limit_of (make_room sent ev w) ≡ limit_of w
unfolding make_room
make_room-limit sent ev w = ground (arith, flush-limit sent w)

flush_full-limit : (sent : Bool) (w : Batching) → limit_of (flush_full sent w) ≡ limit_of w
unfolding flush_full
flush_full-limit sent w = ground (arith, flush-limit sent w)

append_event-limit :
    (dg : RawDatagram) (ev : Bytes) (w : Batching) → limit_of (append_event dg ev w) ≡ limit_of w
unfolding append_event
append_event-limit dg ev w = refl

accept-limit :
    (a b : Bool) (dg : RawDatagram) (ev : Bytes) (w : Batching)
    → limit_of (accept a b dg ev w) ≡ limit_of w
unfolding accept
accept-limit a b dg ev w =
    let room = make_room a ev (count_received w) in
    flush_full-limit b (append_event dg ev room)
    ∙ append_event-limit dg ev room
    ∙ make_room-limit a ev (count_received w)

pub receive-limit :
    (a b : Bool) (dg : RawDatagram) (r : Bytes × ValidateReason) (w : Batching)
    → limit_of (receive a b dg r w) ≡ limit_of w
unfolding receive
receive-limit a b dg (ev, validate_ok) w = accept-limit a b dg ev w
receive-limit a b dg (ev, validate_oversize) w = refl
receive-limit a b dg (ev, validate_parse_error) w = refl

receive-taken :
    (dg : RawDatagram) (r : Bytes × ValidateReason) (w : Batching)
    → taken (receive true true dg r w) ≡ taken w ++ event_of (some r)
unfolding receive
receive-taken dg (ev, validate_ok) w = accept-taken dg ev w
receive-taken dg (ev, validate_oversize) w = sym (append-nil (taken w))
receive-taken dg (ev, validate_parse_error) w = sym (append-nil (taken w))

module _ {D : Type 0} (rt : Runtime D) (law : Reading rt) where
  run-taken :
      (is : List Input) (w : Batching)
      → Each Sends is
      → (w2 : Batching) × (run rt true is w ≡ some w2)
        × (events_of w2.out ≡ taken w ++ events_in rt (limit_of w) is)
  unfolding run turn input_closed window_ends
  run-taken [] w h = (
    input_closed true w,
    refl,
    sym (append-nil (events_of (flush true w).out))
        ∙ ap (λ x. events_of (flush true w).out ++ x) (sym (flush-cur true w))
        ∙ flush-taken w
        ∙ sym (append-nil (taken w)),
  )
  run-taken (window_end sent ∷ is) w h =
      let (w2, e, f) = run-taken is (window_ends true w) h.1 in
      (
        w2,
        rw h.0 e,
        f
            ∙ ap (λ x. x ++ events_in rt (limit_of (window_ends true w)) is) (window_ends-taken w)
            ∙ ap (λ n. taken w ++ events_in rt n is) (flush-limit true w),
      )
  run-taken (datagram a b dg ∷ is) w h =
      let (r, e, verdict) = validate_event-Verdict rt dg.bytes (limit_of w) law in
      let (w2, f, g) = run-taken is (receive true true dg r w) h.1 in
      let next = receive true true dg r w in
      (
        w2,
        rw h.0.0 (rw h.0.1 (rw e f)),
        g
            ∙ ap (λ x. x ++ events_in rt (limit_of next) is) (receive-taken dg r w)
            ∙ ap (λ n. (taken w ++ event_of (some r)) ++ events_in rt n is)
                (receive-limit true true dg r w)
            ∙ append_assoc (taken w) (event_of (some r)) (events_in rt (limit_of w) is)
            ∙ ap (λ o. taken w ++ (event_of o ++ events_in rt (limit_of w) is)) (sym e),
      )

  -- While no send is interrupted, `run` on a new batcher comes to its end, and the batches it has sent
  -- hold the valid events of the datagrams, each once and in their order.
  pub run-delivers :
      (max_events max_event_bytes window : ℕ) (self : SelfStats) (stats : PipelineStats)
      (is : List Input)
      → Each Sends is
      → (w : Batching) × (run rt true is (started max_events max_event_bytes window self stats)
          ≡ some w)
        × (events_of w.out
            ≡ events_in rt
                (new_events_batcher max_events max_event_bytes window).max_event_bytes
                is)
  unfolding new_events_batcher
  run-delivers max_events max_event_bytes window self stats is h =
      run-taken is (started max_events max_event_bytes window self stats) h
