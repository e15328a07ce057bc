-- ===== src/Flusher/Keyed.antt =====
-- The keys under which the batches of a pipeline are posted.
use metrics_agent.Prelude.{
  ℕ, ◌≡◌, ◌≢◌, ◌⊎◌, inl, inr, refl, Bool, List, [], ◌∷◌, some, Bytes, Each, if◌then◌else◌,
}
use metrics_agent.Data.{EventBatch}
use metrics_agent.Stats.{SelfStats, PipelineStats}
use metrics_agent.Registry.{is_empty}
use metrics_agent.Events.{Runtime}
use metrics_agent.Events.Decoding.{Reading}
use metrics_agent.Batcher.{Batching, Input, datagram, window_end, new_events_batcher, started, run}
use metrics_agent.Batcher.Emitted.{Emitted}
use metrics_agent.Batcher.Finished.{TokenOf, run-Finished}
use metrics_agent.Flusher.{key_of}

-- The token gives a key, or the pipeline has one.
abbrev pub Usable : Bytes → Bytes → Type 0
Usable api_key token = (if is_empty token then api_key else token) ≢ []

Usable-cases : (api_key token : Bytes) → (api_key ≢ []) ⊎ (token ≢ []) → Usable api_key token
Usable-cases key [] (inl k) = k
Usable-cases key [] (inr t) = absurd (t refl)
Usable-cases key (c ∷ token) h = λ e. cc

-- A datagram that this pipeline may take: the pipeline has a key, or the datagram a token.
abbrev pub Credited : Bytes → Input → Type 0
Credited api_key i = (api_key ≢ []) ⊎ TokenOf (λ t. t ≢ []) i

Credited-TokenOf : (api_key : Bytes) (i : Input) → Credited api_key i → TokenOf (Usable api_key) i
Credited-TokenOf key (datagram a b dg) h = Usable-cases key dg.token h
Credited-TokenOf key (window_end sent) h = tt

Each-Credited :
    (api_key : Bytes) (is : List Input)
    → Each (Credited api_key) is
    → Each (TokenOf (Usable api_key)) is
Each-Credited key [] h = tt
Each-Credited key (i ∷ is) h = (Credited-TokenOf key i h.0, Each-Credited key is h.1)

Emitted-keyed :
    (api_key : Bytes) (max : ℕ) (bs : List EventBatch)
    → Each (Emitted max (Usable api_key)) bs
    → Each (λ b. key_of api_key b ≢ []) bs
Emitted-keyed key max [] h = tt
Emitted-keyed key max (b ∷ bs) h = (h.0.token_of, Emitted-keyed key max bs h.1)

-- A pipeline whose datagrams all bring a token, where it has no key of its own, posts no batch under
-- the empty key, whatever the order of its inputs and the outcomes of its sends.
pub run-keyed :
    {D : Type 0} (rt : Runtime D) (api_key : Bytes) (max_events max_event_bytes window : ℕ)
    (self : SelfStats) (stats : PipelineStats) (closing : Bool) (is : List Input)
    → Reading rt
    → Each (Credited api_key) is
    → (w : Batching) × (run rt closing is (started max_events max_event_bytes window self stats)
        ≡ some w)
      × Each (λ b. key_of api_key b ≢ []) w.out
run-keyed rt key max_events max_event_bytes window self stats closing is law h =
    let (w, e, done) =
      run-Finished rt law (Usable key) max_events max_event_bytes window self stats closing is
        (Each-Credited key is h) in
    (
      w,
      e,
      Emitted-keyed key (new_events_batcher max_events max_event_bytes window).max_events w.out
          done.sent,
    )
