-- ===== src/Batcher/Finished.antt =====
-- What `run` sends, from a new batcher to the end of its input.
use metrics_agent.Prelude.{ℕ, ◌≡◌, inl, refl, Bool, List, [], ◌∷◌, some, Bytes, Each}
use metrics_agent.Stats.{SelfStats, PipelineStats}
use metrics_agent.Events.{Runtime}
use metrics_agent.Events.Decoding.{Reading}
use metrics_agent.Events.Verdict.{validate_event-Verdict}
use metrics_agent.Batcher.{
  Batching, new_events_batcher, started, Input, datagram, window_end, flush, receive, window_ends,
  input_closed, turn, run,
}
use metrics_agent.Batcher.Invariant.{
  IsValid, new_events_batcher-IsValid, flush-cur, receive-IsValid, window_ends-IsValid,
}
use metrics_agent.Batcher.Emitted.{
  Emitted, Sound, full_valid, flush-Emitted, flush-Sound, disarmed, receive-Sound,
}

-- The property of an input's token, if it has one.
abbrev pub TokenOf : (Bytes → Type 0) → Input → Type 0
TokenOf Q (datagram a b dg) = Q dg.token
TokenOf Q (window_end sent) = Unit

-- The end of `run`.
pub record Finished (max : ℕ) (Q : Bytes → Type 0) (w : Batching) : Type 0 where
  pub nothing_left : w.batcher.cur ≡ []
  pub sent : Each (Emitted max Q) w.out

module _ {D : Type 0} (rt : Runtime D) (law : Reading rt) (max : ℕ) (Q : Bytes → Type 0) where
  -- A turn comes to an end and keeps all this.
  turn-Sound :
      (i : Input) (w : Batching)
      → TokenOf Q i
      → IsValid w.batcher
      → Sound max Q w
      → (w2 : Batching) × (turn rt i w ≡ some w2) × IsValid w2.batcher × Sound max Q w2
  unfolding turn window_ends
  turn-Sound (window_end sent) w q v s = (
    window_ends sent w,
    refl,
    window_ends-IsValid sent w v,
    disarmed max Q (flush sent w) (flush-Sound max Q sent w s (full_valid w.batcher v)),
  )
  turn-Sound (datagram a b dg) w q v s =
      let (r, e, verdict) = validate_event-Verdict rt dg.bytes w.batcher.max_event_bytes law in
      (
        receive a b dg r w,
        rw e refl,
        receive-IsValid a b dg r.0 r.1 w v,
        receive-Sound max Q a b dg r w q v s,
      )

  run-Sound :
      (closing : Bool) (is : List Input) (w : Batching)
      → Each (TokenOf Q) is
      → IsValid w.batcher
      → Sound max Q w
      → (w2 : Batching) × (run rt closing is w ≡ some w2) × Finished max Q w2
  unfolding run input_closed
  run-Sound closing [] w q v s = (
    input_closed closing w,
    refl,
    record {
      nothing_left = flush-cur closing w;
      sent = flush-Emitted max Q closing w s (full_valid w.batcher v);
    },
  )
  run-Sound closing (i ∷ is) w q v s =
      let (next, e, v2, s2) = turn-Sound i w q.0 v s in
      let (end, f, done) = run-Sound closing is next q.1 v2 s2 in (end, rw e f, done)

module _ {D : Type 0} (rt : Runtime D) (law : Reading rt) (Q : Bytes → Type 0) where
  started-Sound :
      (max_events max_event_bytes window : ℕ) (self : SelfStats) (stats : PipelineStats)
      → Sound
          (new_events_batcher max_events max_event_bytes window).max_events
          Q
          (started max_events max_event_bytes window self stats)
  unfolding new_events_batcher
  started-Sound max_events max_event_bytes window self stats = record {
    max_is = refl;
    held = inl (refl, refl);
    emitted = tt;
  }

  -- However the datagrams come, the windows end and the sends go, `run` on a new batcher comes to its
  -- end with an empty batch. Each batch that it has sent has at least one event and at most the number
  -- set, fits the server's limit unless it is a single event, and has every property that all tokens
  -- of the datagrams have.
  pub run-Finished :
      (max_events max_event_bytes window : ℕ) (self : SelfStats) (stats : PipelineStats)
      (closing : Bool) (is : List Input)
      → Each (TokenOf Q) is
      → (w : Batching) × (run rt closing is (started max_events max_event_bytes window self stats)
          ≡ some w)
        × Finished (new_events_batcher max_events max_event_bytes window).max_events Q w
  run-Finished max_events max_event_bytes window self stats closing is q =
      run-Sound rt law (new_events_batcher max_events max_event_bytes window).max_events Q closing
        is (started max_events max_event_bytes window self stats) q
        (new_events_batcher-IsValid max_events max_event_bytes window)
        (started-Sound max_events max_event_bytes window self stats)
