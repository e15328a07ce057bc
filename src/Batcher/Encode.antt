-- ===== src/Batcher/Encode.antt =====
-- The size of the body that `encodeEventBatch` makes, against the size that the batcher counts.
use metrics_agent.Prelude.{
  ◌+◌, ◌≡◌, ap, List, [], ◌∷◌, ◌++◌, arith, length, length-append, Bytes, codes,
}
use metrics_agent.Data.{EventBatch}
use metrics_agent.Batcher.{join_events, encode_event_batch}
use metrics_agent.Batcher.Invariant.{size_of}

length-join_events :
    (e : Bytes) (es : List Bytes) → length (join_events (e ∷ es)) + 1 ≡ size_of (e ∷ es)
unfolding join_events
length-join_events e [] = omega arith
length-join_events e (f ∷ es) =
    omega (arith, length-append e (b',' ∷ join_events (f ∷ es)), length-join_events f es)

-- The body of a batch with events takes exactly twelve bytes more than the sum of the events'
-- lengths with one comma each: the envelope takes thirteen, and the last comma is not written.
pub length-encode_event_batch :
    (e : Bytes) (es : List Bytes) (batch : EventBatch)
    → batch.events ≡ e ∷ es
    → length (encode_event_batch batch) ≡ size_of (e ∷ es) + 12
unfolding encode_event_batch
length-encode_event_batch e es batch h = omega (
  arith,
  length-append (codes "{\"events\":[") (join_events batch.events ++ codes "]}"),
  length-append (join_events batch.events) (codes "]}"),
  ap (λ x. length (join_events x)) h,
  length-join_events e es,
)
