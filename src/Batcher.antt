-- ===== src/Batcher.antt =====
-- `eventsBatcher` of events.go: one batch in flight, sent on when it is full, when the next event
-- would make it too large, or when its window ends. `armed` is `timerC != nil`. The output channel
-- is the list of the batches sent; a send that `ctx.Done()` wins is a drop.
mod Invariant
mod Stream
pub mod Emitted
pub mod Finished
pub mod Delivered
pub mod Groups
pub mod Batched
mod Encode
mod Decode
pub mod Tests
use metrics_agent.Prelude.{
  ℕ, suc, ◌+◌, Bool, true, false, not, ◌&&◌, ◌||◌, List, [], ◌∷◌, ◌++◌, ltb, leb, ◌==◌,
  if◌then◌else◌, length, Bytes, codes, Option, none, some, ◌>>=◌,
}
use metrics_agent.Data.{
  RawDatagram, EventBatch, default_max_event_bytes, max_events_per_batch, max_batch_bytes,
}
use metrics_agent.Stats.{SelfStats, PipelineStats, add_u64}
use metrics_agent.Events.{
  Runtime, validate_event, ValidateReason, validate_ok, validate_oversize, validate_parse_error,
}

pub record Batcher : Type 0 where
  pub max_events : ℕ
  pub max_event_bytes : ℕ
  pub window : ℕ
  pub cur : List Bytes
  pub cur_bytes : ℕ
  pub cur_token : Bytes
  pub first_seen : ℕ
  pub armed : Bool

unfoldable pub new_events_batcher : ℕ → ℕ → ℕ → Batcher
new_events_batcher max_events max_event_bytes window = record {
  max_events =
      if leb max_events 0 || ltb max_events_per_batch max_events
      then max_events_per_batch
      else max_events;
  max_event_bytes = if leb max_event_bytes 0 then default_max_event_bytes else max_event_bytes;
  window = if leb window 0 then 200_000_000 else window;
  cur = [];
  cur_bytes = 0;
  cur_token = [];
  first_seen = 0;
  armed = false;
}

-- The batcher with what it writes to: the two records of counters and the output channel.
pub record Batching : Type 0 where
  pub batcher : Batcher
  pub self : SelfStats
  pub stats : PipelineStats
  pub out : List EventBatch

-- A new batcher, with nothing sent.
abbrev pub started : ℕ → ℕ → ℕ → SelfStats → PipelineStats → Batching
started max_events max_event_bytes window self stats = record {
  batcher = new_events_batcher max_events max_event_bytes window;
  self = self;
  stats = stats;
  out = [];
}

abbrev pub disarm_timer : Batching → Batching
disarm_timer w = record w { batcher = record (w.batcher) { armed = false } }

abbrev pub batch_of : Batcher → EventBatch
batch_of b = record { events = b.cur; started_at = b.first_seen; token = b.cur_token }

abbrev pub emptied : Batcher → Batcher
emptied b = record b { cur = []; cur_bytes = 0; cur_token = []; first_seen = 0 }

abbrev pub is_nil {ℓ} : {A : Type ℓ} → List A → Bool
is_nil [] = true
is_nil (x ∷ xs) = false

-- `flush`; `sent` tells which case of the `select` is taken.
unfoldable pub flush : Bool → Batching → Batching
flush sent w =
    if is_nil w.batcher.cur
    then w
    else if sent
    then record w { batcher = emptied w.batcher; out = w.out ++ batch_of w.batcher ∷ [] }
    else let n = length w.batcher.cur in
      record w {
        batcher = emptied w.batcher;
        self = record (w.self) { drops_shutdown = add_u64 w.self.drops_shutdown n };
        stats = record (w.stats) { drops_shutdown = add_u64 w.stats.drops_shutdown n };
      }

-- The event joins the batch, which it may begin.
unfoldable pub append_event : RawDatagram → Bytes → Batching → Batching
append_event dg ev w =
    let b = w.batcher in
    let first = is_nil b.cur in
    record w {
      batcher = record b {
        first_seen = if first then dg.at else b.first_seen;
        armed = if first then true else b.armed;
        cur = b.cur ++ ev ∷ [];
        cur_bytes = b.cur_bytes + (length ev + 1);
        cur_token = if not (is_nil dg.token) then dg.token else b.cur_token;
      };
    }

abbrev pub count_received : Batching → Batching
count_received w = record w {
  stats = record (w.stats) { events_received = add_u64 w.stats.events_received 1 };
}

-- The flush in front of an event that would make the body too large.
unfoldable pub make_room : Bool → Bytes → Batching → Batching
make_room sent ev w =
    if ltb 0 (length w.batcher.cur) && ltb max_batch_bytes (w.batcher.cur_bytes + length ev + 1)
    then disarm_timer (flush sent w)
    else w

unfoldable pub flush_full : Bool → Batching → Batching
flush_full sent w =
    if leb w.batcher.max_events (length w.batcher.cur) then disarm_timer (flush sent w) else w

-- The rest of the `case` on a datagram whose event is valid. The two flags are the outcomes of the
-- two sends that it may make.
unfoldable pub accept : Bool → Bool → RawDatagram → Bytes → Batching → Batching
accept sent_before sent_after dg ev w =
    flush_full sent_after (append_event dg ev (make_room sent_before ev (count_received w)))

-- The `case` on a datagram, with the result of `validateEvent`.
unfoldable pub receive : Bool → Bool → RawDatagram → Bytes × ValidateReason → Batching → Batching
receive a b dg (ev, validate_ok) w = accept a b dg ev w
receive a b dg (ev, validate_oversize) w = record w {
  self = record (w.self) { drops_oversize = add_u64 w.self.drops_oversize 1 };
  stats = record (w.stats) { drops_oversize = add_u64 w.stats.drops_oversize 1 };
}
receive a b dg (ev, validate_parse_error) w = record w {
  self = record (w.self) { drops_parse_error = add_u64 w.self.drops_parse_error 1 };
  stats = record (w.stats) { drops_parse_error = add_u64 w.stats.drops_parse_error 1 };
}

-- The `case` on the timer.
unfoldable pub window_ends : Bool → Batching → Batching
window_ends sent w = disarm_timer (flush sent w)

-- `case dg, ok := <-b.in` with `ok = false`: the input is closed, and `run` returns.
unfoldable pub input_closed : Bool → Batching → Batching
unfolding flush
input_closed sent w = flush sent w

-- What the `select` of `run` takes: a datagram, or the end of the window. With each, the outcomes of
-- the sends it may make.
pub data Input : Type 0 where
  datagram : Bool → Bool → RawDatagram → Input
  window_end : Bool → Input

-- One turn of the loop, and `run` itself until its input is closed; `closing` is the outcome of its
-- last send, and `none` a lack of fuel in `validateEvent`.
unfoldable pub turn : {D : Type 0} → Runtime D → Input → Batching → Option Batching
turn rt (datagram a b dg) w =
    validate_event rt dg.bytes w.batcher.max_event_bytes >>= λ r. some (receive a b dg r w)
turn rt (window_end sent) w = some (window_ends sent w)

unfoldable pub run : {D : Type 0} → Runtime D → Bool → List Input → Batching → Option Batching
unfolding turn
run rt closing [] w = some (input_closed closing w)
run rt closing (i ∷ is) w = turn rt i w >>= run rt closing is

-- `encodeEventBatch`
unfoldable pub join_events : List Bytes → Bytes
join_events [] = []
join_events (e ∷ []) = e
join_events (e ∷ f ∷ es) = e ++ b',' ∷ join_events (f ∷ es)

unfoldable pub encode_event_batch : EventBatch → Bytes
unfolding join_events
encode_event_batch batch = codes "{\"events\":[" ++ (join_events batch.events ++ codes "]}")
