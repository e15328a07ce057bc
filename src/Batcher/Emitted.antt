-- ===== src/Batcher/Emitted.antt =====
-- What one turn sends: every batch is within its bounds and carries a token of its datagrams.
use metrics_agent.Prelude.{
  ℕ, ◌≤◌, ◌≡◌, ◌≢◌, ◌⊎◌, inl, inr, refl, ◌∙◌, Bool, true, false, not, List, [], ◌∷◌, ◌++◌, arith,
  length, Bytes, Each, Each-snoc, if◌then◌else◌,
}
use metrics_agent.Data.{RawDatagram, EventBatch, max_batch_bytes}
use metrics_agent.Events.{ValidateReason, validate_ok, validate_oversize, validate_parse_error}
use metrics_agent.Batcher.{
  Batcher, Batching, disarm_timer, batch_of, is_nil, flush, append_event, count_received, make_room,
  flush_full, accept, receive,
}
use metrics_agent.Batcher.Invariant.{
  IsValid, IsFilled, size_of, flush-cur, flush-max_events, make_room-IsValid, make_room-room,
  append_event-IsFilled,
}

pub record Emitted (max : ℕ) (Q : Bytes → Type 0) (b : EventBatch) : Type 0 where
  pub some_events : 1 ≤ length b.events
  pub at_most : length b.events ≤ max
  pub body_fits : (length b.events ≤ 1) ⊎ (size_of b.events ≤ max_batch_bytes)
  pub token_of : Q b.token

-- The token of the batch in flight.
abbrev pub Held : (Bytes → Type 0) → Batcher → Type 0
Held Q b = ((b.cur ≡ []) × (b.cur_token ≡ [])) ⊎ ((b.cur ≢ []) × Q b.cur_token)

pub record Sound (max : ℕ) (Q : Bytes → Type 0) (w : Batching) : Type 0 where
  pub max_is : w.batcher.max_events ≡ max
  pub held : Held Q w.batcher
  pub emitted : Each (Emitted max Q) w.out

length-pos : (es : List Bytes) → es ≢ [] → 1 ≤ length es
length-pos [] h = absurd (h refl)
length-pos (e ∷ es) h = omega arith

nil-cases : (es : List Bytes) → (es ≡ []) ⊎ ((es ≢ []) × (is_nil es ≡ false))
nil-cases [] = inl refl
nil-cases (e ∷ es) = inr (λ h. cc, refl)

snoc-ne-nil : (es : List Bytes) (e : Bytes) → es ++ e ∷ [] ≢ []
snoc-ne-nil [] e h = cc
snoc-ne-nil (x ∷ es) e h = cc

pub full_valid : (b : Batcher) → IsValid b → IsFilled b
full_valid b v = record {
  counted = v.counted;
  at_most_full = omega (arith, v.not_full);
  max_pos = v.max_pos;
  fits = v.fits;
  timer = v.timer;
}

module _ (max : ℕ) (Q : Bytes → Type 0) where
  batch-Emitted :
      (b : Batcher)
      → b.max_events ≡ max
      → Held Q b
      → b.cur ≢ []
      → IsFilled b
      → Emitted max Q (batch_of b)
  batch-Emitted b m (inl (e, t)) ne f = absurd (ne e)
  batch-Emitted b m (inr (ne1, q)) ne f = record {
    some_events = length-pos b.cur ne;
    at_most = omega (arith, f.at_most_full, m);
    body_fits = ground (arith, f.fits, f.counted);
    token_of = q;
  }

  flush-cur_token :
      (sent : Bool) (w : Batching) → Held Q w.batcher → (flush sent w).batcher.cur_token ≡ []
  unfolding flush
  flush-cur_token sent w (inl (e, t)) = ground (arith, t)
  flush-cur_token sent w (inr (ne, q)) = elim (nil-cases w.batcher.cur) [
    | inl nothing ↦ absurd (ne nothing)
    | inr (ne1, full) ↦ ground (arith, full)
  ]

  flush-out_dropped : (w : Batching) → (flush false w).out ≡ w.out
  unfolding flush
  flush-out_dropped w = ground arith

  pub flush-Emitted :
      (sent : Bool) (w : Batching)
      → Sound max Q w
      → IsFilled w.batcher
      → Each (Emitted max Q) (flush sent w).out
  unfolding flush
  flush-Emitted false w s f = rw (flush-out_dropped w) s.emitted
  flush-Emitted true w s f = elim (nil-cases w.batcher.cur) [
    | inl nothing ↦ rw nothing s.emitted
    | inr (ne, full) ↦ rw full (
        Each-snoc (Emitted max Q) w.out (batch_of w.batcher) s.emitted
          (batch-Emitted w.batcher s.max_is s.held ne f))
  ]

  pub flush-Sound :
      (sent : Bool) (w : Batching) → Sound max Q w → IsFilled w.batcher → Sound max Q (flush sent w)
  flush-Sound sent w s f = record {
    max_is = flush-max_events sent w ∙ s.max_is;
    held = inl (flush-cur sent w, flush-cur_token sent w s.held);
    emitted = flush-Emitted sent w s f;
  }

  -- Disarming the timer touches nothing of this.
  pub disarmed : (w : Batching) → Sound max Q w → Sound max Q (disarm_timer w)
  disarmed w s = record { max_is = s.max_is; held = s.held; emitted = s.emitted }

  either :
      (t : Bool) (w v : Batching) → Sound max Q w → Sound max Q v → Sound max Q (if t then w else v)
  either true w v a b = a
  either false w v a b = b

  make_room-Sound :
      (sent : Bool) (ev : Bytes) (w : Batching)
      → IsValid w.batcher
      → Sound max Q w
      → Sound max Q (make_room sent ev w)
  unfolding make_room
  make_room-Sound sent ev w v s =
      either _ _ _ (disarmed (flush sent w) (flush-Sound sent w s (full_valid w.batcher v))) s

  flush_full-Sound :
      (sent : Bool) (w : Batching)
      → IsFilled w.batcher
      → Sound max Q w
      → Sound max Q (flush_full sent w)
  unfolding flush_full
  flush_full-Sound sent w f s = either _ _ _ (disarmed (flush sent w) (flush-Sound sent w s f)) s

  token_choice :
      (es : List Bytes) (new old : Bytes)
      → Q new
      → ((es ≡ []) × (old ≡ [])) ⊎ ((es ≢ []) × Q old)
      → Q (if not (is_nil new) then new else old)
  token_choice es [] old q (inl (e, t)) = rw t q
  token_choice es [] old q (inr (ne, h)) = h
  token_choice es (c ∷ new) old q h = q

  append_event-Sound :
      (dg : RawDatagram) (ev : Bytes) (w : Batching)
      → Q dg.token
      → Sound max Q w
      → Sound max Q (append_event dg ev w)
  unfolding append_event
  append_event-Sound dg ev w q s = record {
    max_is = s.max_is;
    held = inr (
      snoc-ne-nil w.batcher.cur ev,
      token_choice w.batcher.cur dg.token w.batcher.cur_token q s.held,
    );
    emitted = s.emitted;
  }

  accept-Sound :
      (a b : Bool) (dg : RawDatagram) (ev : Bytes) (w : Batching)
      → Q dg.token
      → IsValid w.batcher
      → Sound max Q w
      → Sound max Q (accept a b dg ev w)
  unfolding accept
  accept-Sound a b dg ev w q v s =
      let start = count_received w in
      let room = make_room a ev start in
      let counted : Sound max Q start = record {
        max_is = s.max_is;
        held = s.held;
        emitted = s.emitted;
      } in
      flush_full-Sound b (append_event dg ev room)
        (append_event-IsFilled dg ev room (make_room-IsValid a ev start v)
          (make_room-room a ev start))
        (append_event-Sound dg ev room q (make_room-Sound a ev start v counted))

  pub receive-Sound :
      (a b : Bool) (dg : RawDatagram) (r : Bytes × ValidateReason) (w : Batching)
      → Q dg.token
      → IsValid w.batcher
      → Sound max Q w
      → Sound max Q (receive a b dg r w)
  unfolding receive
  receive-Sound a b dg (ev, validate_ok) w q v s = accept-Sound a b dg ev w q v s
  receive-Sound a b dg (ev, validate_oversize) w q v s = record {
    max_is = s.max_is;
    held = s.held;
    emitted = s.emitted;
  }
  receive-Sound a b dg (ev, validate_parse_error) w q v s = record {
    max_is = s.max_is;
    held = s.held;
    emitted = s.emitted;
  }
