-- ===== src/Batcher/Invariant.antt =====
-- The batch in flight stays within its bounds, and its timer runs exactly while it has events.
use metrics_agent.Prelude.{
  ℕ, ◌+◌, ◌≤◌, ◌<◌, ◌≡◌, ◌⊎◌, inl, inr, ap, Bool, false, not, List, [], ◌∷◌, ◌++◌, arith, length,
  length-append, Bytes,
}
use metrics_agent.Data.{RawDatagram, max_batch_bytes}
use metrics_agent.Events.{ValidateReason, validate_ok, validate_oversize, validate_parse_error}
use metrics_agent.Batcher.{
  Batcher, Batching, new_events_batcher, disarm_timer, emptied, is_nil, flush, append_event,
  count_received, make_room, flush_full, accept, receive, window_ends,
}

-- Every event counts its bytes and one comma.
abbrev pub size_of : List Bytes → ℕ
size_of [] = 0
size_of (e ∷ es) = length e + 1 + size_of es

pub size_of-append : (es fs : List Bytes) → size_of (es ++ fs) ≡ size_of es + size_of fs
size_of-append [] fs = omega arith
size_of-append (e ∷ es) fs = omega (arith, size_of-append es fs)

pub record IsValid (b : Batcher) : Type 0 where
  -- `cur_bytes` is what the events take.
  pub counted : b.cur_bytes ≡ size_of b.cur
  -- A full batch has been sent.
  pub not_full : length b.cur < b.max_events
  pub max_pos : 1 ≤ b.max_events
  -- More than one event fit the server's limit together.
  pub fits : (length b.cur ≤ 1) ⊎ (b.cur_bytes ≤ max_batch_bytes)
  pub timer : b.armed ≡ not (is_nil b.cur)

pub new_events_batcher-IsValid :
    (max_events max_event_bytes window : ℕ)
    → IsValid (new_events_batcher max_events max_event_bytes window)
unfolding new_events_batcher
new_events_batcher-IsValid m e w = ground arith

emptied-IsValid : (b : Batcher) → 1 ≤ b.max_events → IsValid (record (emptied b) { armed = false })
emptied-IsValid b h = ground arith

pub flush-max_events :
    (sent : Bool) (w : Batching) → (flush sent w).batcher.max_events ≡ w.batcher.max_events
unfolding flush
flush-max_events sent w = ground arith

-- After a flush nothing is left, whether the batch was sent or dropped.
pub flush-cur : (sent : Bool) (w : Batching) → (flush sent w).batcher.cur ≡ []
unfolding flush
flush-cur sent w = ground arith

flush-IsValid :
    (sent : Bool) (w : Batching)
    → 1 ≤ w.batcher.max_events
    → w.batcher.cur_bytes ≡ size_of w.batcher.cur
    → IsValid (disarm_timer (flush sent w)).batcher
unfolding flush
flush-IsValid sent w h c = ground arith

pub make_room-IsValid :
    (sent : Bool) (ev : Bytes) (w : Batching)
    → IsValid w.batcher
    → IsValid (make_room sent ev w).batcher
unfolding make_room
make_room-IsValid sent ev w v = ground (arith, flush-IsValid sent w)

-- Room for the event, or an empty batch.
pub make_room-room :
    (sent : Bool) (ev : Bytes) (w : Batching)
    → ((make_room sent ev w).batcher.cur ≡ [])
      ⊎ ((make_room sent ev w).batcher.cur_bytes + length ev + 1 ≤ max_batch_bytes)
unfolding make_room
make_room-room sent ev w = ground (arith, flush-cur sent w)

-- The batch before the last test of the loop's body.
pub record IsFilled (b : Batcher) : Type 0 where
  pub counted : b.cur_bytes ≡ size_of b.cur
  pub at_most_full : length b.cur ≤ b.max_events
  pub max_pos : 1 ≤ b.max_events
  pub fits : (length b.cur ≤ 1) ⊎ (b.cur_bytes ≤ max_batch_bytes)
  pub timer : b.armed ≡ not (is_nil b.cur)

pub append_event-IsFilled :
    (dg : RawDatagram) (ev : Bytes) (w : Batching)
    → IsValid w.batcher
    → (w.batcher.cur ≡ []) ⊎ (w.batcher.cur_bytes + length ev + 1 ≤ max_batch_bytes)
    → IsFilled (append_event dg ev w).batcher
unfolding append_event
append_event-IsFilled dg ev w v room = record {
  counted = omega (arith, size_of-append w.batcher.cur (ev ∷ []), v.counted);
  at_most_full = omega (arith, length-append w.batcher.cur (ev ∷ []), v.not_full);
  max_pos = v.max_pos;
  fits = elim room [
    | inl nothing ↦ inl (omega (arith, length-append w.batcher.cur (ev ∷ []), ap length nothing))
    | inr enough ↦ inr (omega arith)
  ];
  timer = ground (arith, v.timer);
}

flush_full-IsValid :
    (sent : Bool) (w : Batching) → IsFilled w.batcher → IsValid (flush_full sent w).batcher
unfolding flush_full
flush_full-IsValid sent w f = ground (arith, flush-IsValid sent w)

accept-IsValid :
    (a b : Bool) (dg : RawDatagram) (ev : Bytes) (w : Batching)
    → IsValid w.batcher
    → IsValid (accept a b dg ev w).batcher
unfolding accept
accept-IsValid a b dg ev w v =
    let room = make_room a ev (count_received w) in
    flush_full-IsValid b (append_event dg ev room) (
      append_event-IsFilled dg ev room (make_room-IsValid a ev (count_received w) v)
        (make_room-room a ev (count_received w)))

-- Each datagram keeps the batch within its bounds, whatever the validation said and whichever of
-- the sends succeeded.
pub receive-IsValid :
    (a b : Bool) (dg : RawDatagram) (ev : Bytes) (reason : ValidateReason) (w : Batching)
    → IsValid w.batcher
    → IsValid (receive a b dg (ev, reason) w).batcher
unfolding receive
receive-IsValid a b dg ev validate_ok w v = accept-IsValid a b dg ev w v
receive-IsValid a b dg ev validate_oversize w v = v
receive-IsValid a b dg ev validate_parse_error w v = v

pub window_ends-IsValid :
    (sent : Bool) (w : Batching) → IsValid w.batcher → IsValid (window_ends sent w).batcher
unfolding window_ends
window_ends-IsValid sent w v = flush-IsValid sent w v.max_pos v.counted
