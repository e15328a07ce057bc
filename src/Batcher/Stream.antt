-- ===== src/Batcher/Stream.antt =====
-- What becomes of the events: the batches sent, with the batch in flight, are the events taken.
use metrics_agent.Prelude.{
  ℕ, suc, ◌+◌, ◌^◌, ◌≤◌, ◌<◌, ◌≡◌, ◌⊎◌, inl, inr, refl, sym, ap, ◌∙◌, Bool, true, false, List, [],
  ◌∷◌, ◌++◌, append-nil, append_assoc, arith, length, length-append, Bytes,
}
use metrics_agent.Data.{RawDatagram, EventBatch}
use metrics_agent.Batcher.{
  Batching, batch_of, is_nil, flush, append_event, count_received, make_room, flush_full, accept,
  window_ends,
}

-- The events of the batches, in the order sent.
abbrev pub events_of : List EventBatch → List Bytes
events_of [] = []
events_of (b ∷ bs) = b.events ++ events_of bs

pub events_of-append :
    (xs ys : List EventBatch) → events_of (xs ++ ys) ≡ events_of xs ++ events_of ys
events_of-append [] ys = refl
events_of-append (a ∷ xs) ys =
    ap (λ x. a.events ++ x) (events_of-append xs ys)
    ∙ sym (append_assoc a.events (events_of xs) (events_of ys))

-- All that has been taken: sent, or waiting.
abbrev pub taken : Batching → List Bytes
taken w = events_of w.out ++ w.batcher.cur

snoc-taken :
    (out : List EventBatch) (b : EventBatch)
    → events_of (out ++ b ∷ []) ++ [] ≡ events_of out ++ b.events
snoc-taken out b =
    append-nil (events_of (out ++ b ∷ []))
    ∙ events_of-append out (b ∷ [])
    ∙ ap (λ x. events_of out ++ x) (append-nil b.events)

nil-cases : (es : List Bytes) → (is_nil es ≡ true) ⊎ (is_nil es ≡ false)
nil-cases [] = inl refl
nil-cases (e ∷ es) = inr refl

is_nil-eq : (es : List Bytes) → is_nil es ≡ true → es ≡ []
is_nil-eq [] h = refl
is_nil-eq (e ∷ es) h = cc

pub flush-taken : (w : Batching) → taken (flush true w) ≡ taken w
unfolding flush
flush-taken w = elim (nil-cases w.batcher.cur) [
  | inl empty ↦ rw empty refl
  | inr full ↦ rw full (snoc-taken w.out (batch_of w.batcher))
]

make_room-taken : (ev : Bytes) (w : Batching) → taken (make_room true ev w) ≡ taken w
unfolding make_room
make_room-taken ev w = ground (arith, flush-taken w)

flush_full-taken : (w : Batching) → taken (flush_full true w) ≡ taken w
unfolding flush_full
flush_full-taken w = ground (arith, flush-taken w)

append_event-taken :
    (dg : RawDatagram) (ev : Bytes) (w : Batching)
    → taken (append_event dg ev w) ≡ taken w ++ ev ∷ []
unfolding append_event
append_event-taken dg ev w = sym (append_assoc (events_of w.out) w.batcher.cur (ev ∷ []))

-- While no send is interrupted, a valid event is added at the end of the stream of events, and
-- the others stay as they are: nothing is lost, doubled or reordered by the flushes.
pub accept-taken :
    (dg : RawDatagram) (ev : Bytes) (w : Batching)
    → taken (accept true true dg ev w) ≡ taken w ++ ev ∷ []
unfolding accept
accept-taken dg ev w =
    let room = make_room true ev (count_received w) in
    flush_full-taken (append_event dg ev room)
    ∙ append_event-taken dg ev room
    ∙ ap (λ x. x ++ ev ∷ []) (make_room-taken ev (count_received w))

-- When the window ends, no event is lost either.
pub window_ends-taken : (w : Batching) → taken (window_ends true w) ≡ taken w
unfolding window_ends
window_ends-taken w = flush-taken w

-- The events sent, waiting, or dropped at shutdown.
abbrev pub accounted : Batching → ℕ
accounted w = length (events_of w.out) + length w.batcher.cur + w.stats.drops_shutdown

flush-accounted :
    (sent : Bool) (w : Batching)
    → w.stats.drops_shutdown + length w.batcher.cur < 2 ^ 64
    → accounted (flush sent w) ≡ accounted w
unfolding flush
flush-accounted false w h = ground arith
flush-accounted true w h = elim (nil-cases w.batcher.cur) [
  | inl empty ↦ rw empty refl
  | inr full ↦ rw full (
      omega (
        arith,
        ap length (snoc-taken w.out (batch_of w.batcher)),
        length-append (events_of (w.out ++ batch_of w.batcher ∷ [])) [],
        length-append (events_of w.out) w.batcher.cur,
      ))
]

-- The drops and the batch in flight, which a flush may turn into drops.
abbrev pub at_risk : Batching → ℕ
at_risk w = w.stats.drops_shutdown + length w.batcher.cur

flush-at_risk :
    (sent : Bool) (w : Batching) → at_risk w < 2 ^ 64 → at_risk (flush sent w) ≤ at_risk w
unfolding flush
flush-at_risk sent w h = ground arith

make_room-at_risk :
    (sent : Bool) (ev : Bytes) (w : Batching)
    → at_risk w < 2 ^ 64
    → at_risk (make_room sent ev w) ≤ at_risk w
unfolding make_room
make_room-at_risk sent ev w h = ground (arith, flush-at_risk sent w)

make_room-accounted :
    (sent : Bool) (ev : Bytes) (w : Batching)
    → at_risk w < 2 ^ 64
    → accounted (make_room sent ev w) ≡ accounted w
unfolding make_room
make_room-accounted sent ev w h = ground (arith, flush-accounted sent w)

flush_full-accounted :
    (sent : Bool) (w : Batching) → at_risk w < 2 ^ 64 → accounted (flush_full sent w) ≡ accounted w
unfolding flush_full
flush_full-accounted sent w h = ground (arith, flush-accounted sent w)

append_event-accounted :
    (dg : RawDatagram) (ev : Bytes) (w : Batching)
    → (accounted (append_event dg ev w) ≡ suc (accounted w))
      × (at_risk (append_event dg ev w) ≡ suc (at_risk w))
unfolding append_event
append_event-accounted dg ev w = (
  omega (arith, length-append w.batcher.cur (ev ∷ [])),
  omega (arith, length-append w.batcher.cur (ev ∷ [])),
)

-- Whichever sends succeed, a valid event is sent, waits, or is counted as dropped at shutdown, and
-- so are all the earlier ones; as long as the counter of drops, with the batch in flight and the
-- event added, does not wrap.
pub accept-accounted :
    (a b : Bool) (dg : RawDatagram) (ev : Bytes) (w : Batching)
    → suc (at_risk w) < 2 ^ 64
    → accounted (accept a b dg ev w) ≡ suc (accounted w)
unfolding accept
accept-accounted a b dg ev w h =
    let start = count_received w in
    let room = make_room a ev start in
    let added = append_event-accounted dg ev room in
    let low : at_risk (append_event dg ev room) < 2 ^ 64 =
      omega (arith, added.1, make_room-at_risk a ev start (omega arith)) in
    flush_full-accounted b (append_event dg ev room) low
    ∙ added.0
    ∙ ap suc (make_room-accounted a ev start (omega arith))
