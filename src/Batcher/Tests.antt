-- ===== src/Batcher/Tests.antt =====
-- Runs of the batcher on concrete events.
use metrics_agent.Prelude.{
  suc, ◌+◌, ◌^◌, ◌<◌, ◌≡◌, refl, List, some, Each, equal, true, false, [], ◌∷◌, ◌++◌, arith, length,
  Bytes, codes,
}
use metrics_agent.Data.{RawDatagram}
use metrics_agent.Stats.{new_self_stats, new_pipeline_stats}
use metrics_agent.Scan.{
  scan_ws, is_json_space, scan_value, scan_container, container_loop, string_loop, after_quote,
}
use metrics_agent.Events.{
  validate_ok, validate_event, trimmed, in_braces, has_top_level_key, key_loop, with_timestamp,
  stamp, inject_top_level_field,
}
use metrics_agent.Events.Tests.{body, plain_runtime, plain-Reading}
use metrics_agent.Events.Tests.{event as stamped_event}
use metrics_agent.Batcher.{
  Batching, Input, window_end, started, run, new_events_batcher, accept, receive,
  encode_event_batch,
}
use metrics_agent.Batcher.Batched.{Batched}
use metrics_agent.Batcher.Delivered.{Sends, events_in, run-delivers}
use metrics_agent.Batcher.Invariant.{IsValid, size_of, new_events_batcher-IsValid, receive-IsValid}
use metrics_agent.Batcher.Stream.{
  events_of, taken, accounted, at_risk, accept-taken, accept-accounted,
}
use metrics_agent.Batcher.Decode.{IsEvent, decode_event_batch, decode-encode_event_batch}
use metrics_agent.Batcher.Encode.{length-encode_event_batch}

abbrev datagram : RawDatagram
datagram = record { bytes = codes "{\"a\":1}"; at = 5; project = codes "acme"; token = codes "t0" }

abbrev event : Bytes
event = codes "{\"timestamp\":\"now\",\"a\":1}"

abbrev idle : Batching
idle = record {
  batcher = new_events_batcher 2 1000 200;
  self = new_self_stats 0;
  stats = new_pipeline_stats;
  out = [];
}

abbrev one : Batching
one = accept true true datagram event idle

low : suc (at_risk idle) < 2 ^ 64
unfolding new_events_batcher
low = omega arith

receive-IsValid_example : IsValid (receive true false datagram (event, validate_ok) idle).batcher
receive-IsValid_example =
    receive-IsValid true false datagram event validate_ok idle
      (new_events_batcher-IsValid 2 1000 200)

accept-taken_example : taken (accept true true datagram event one) ≡ taken one ++ event ∷ []
accept-taken_example = accept-taken datagram event one

accept-accounted_example : accounted (accept false false datagram event idle) ≡ suc (accounted idle)
accept-accounted_example = accept-accounted false false datagram event idle low

length-encode_event_batch_example :
    length (encode_event_batch (record { events = event ∷ event ∷ []; started_at = 5; token = [] }))
    ≡ size_of (event ∷ event ∷ []) + 12
length-encode_event_batch_example =
    length-encode_event_batch event (event ∷ [])
      (record { events = event ∷ event ∷ []; started_at = 5; token = [] }) refl

-- A body that is accepted, one that is not, and the end of a window between them.
abbrev pub good : RawDatagram
good = record { bytes = body; at = 5; project = codes "acme"; token = codes "t0" }

abbrev pub inputs : List Input
inputs =
    Input.datagram true true good
    ∷ window_end true
    ∷ Input.datagram true true datagram
    ∷ Input.datagram true true good
    ∷ []

inputs_send : Each Sends inputs
inputs_send = ((refl, refl), (refl, ((refl, refl), ((refl, refl), tt))))

two_events : events_in plain_runtime 1_000 inputs ≡ stamped_event ∷ stamped_event ∷ []
unfolding validate_event trimmed in_braces has_top_level_key key_loop with_timestamp stamp
    inject_top_level_field scan_ws is_json_space equal
two_events = refl

run-delivers_example :
    (w : Batching) × (run plain_runtime true inputs
        (started 2 1_000 200 (new_self_stats 0) new_pipeline_stats)
      ≡ some w)
    × (events_of w.out
        ≡ events_in plain_runtime (new_events_batcher 2 1_000 200).max_event_bytes inputs)
run-delivers_example =
    run-delivers plain_runtime plain-Reading 2 1_000 200 (new_self_stats 0) new_pipeline_stats
      inputs inputs_send

abbrev small : Bytes
small = codes "{}"

small-IsEvent : IsEvent small
unfolding scan_value scan_container container_loop string_loop after_quote
small-IsEvent [] = refl
small-IsEvent (c ∷ r) = refl

decode-encode_event_batch_example :
    decode_event_batch
      (encode_event_batch (record { events = small ∷ small ∷ []; started_at = 5; token = [] }))
    ≡ some (small ∷ small ∷ [])
decode-encode_event_batch_example =
    decode-encode_event_batch small (small ∷ [])
      (record { events = small ∷ small ∷ []; started_at = 5; token = [] }) refl small-IsEvent
      (small-IsEvent, tt)
