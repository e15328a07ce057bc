-- ===== src/Flusher/Tests.antt =====
-- Runs of the flusher against concrete answers.
use metrics_agent.Prelude.{
  ℕ, zero, suc, ◌+◌, ◌^◌, ◌<◌, ◌≡◌, ◌≢◌, inr, refl, some, Each, Bool, false, [], ◌∷◌, arith, length,
  codes,
}
use metrics_agent.Data.{EventBatch}
use metrics_agent.Stats.{new_self_stats, new_pipeline_stats}
use metrics_agent.Events.Tests.{plain_runtime, plain-Reading}
use metrics_agent.Batcher.{Batching, started, run}
use metrics_agent.Batcher.Tests.{inputs}
use metrics_agent.Flusher.{
  key_of, Response, status, network_error, flushed, after_post, post_json, send_loop, send,
  Counters,
}
use metrics_agent.Flusher.Keyed.{Credited, run-keyed}
use metrics_agent.Flusher.Attempts.{Explained, settled, send_loop-Explained, send-settled}

-- No answer, then an overloaded gateway, then a good one.
abbrev answers : ℕ → Response
answers zero = network_error
answers (suc zero) = status 503
answers (suc (suc n)) = status 202

abbrev calm : ℕ → Bool
calm n = false

third : send_loop calm answers 5 0 ≡ flushed 3
unfolding send_loop after_post post_json
third = refl

abbrev batch : EventBatch
batch = record { events = codes "{}" ∷ codes "{}" ∷ []; started_at = 1; token = codes "t0" }

abbrev zeros : Counters
zeros = record { self = new_self_stats 0; stats = new_pipeline_stats }

low : settled zeros.stats + length batch.events < 2 ^ 64
low = omega arith

send_loop-Explained_example : Explained calm answers 5 (send_loop calm answers 5 0)
send_loop-Explained_example = send_loop-Explained calm answers 4

send-settled_example :
    settled (send calm (λ key. answers) 9 (codes "k1") 4 batch zeros).stats
    ≡ settled zeros.stats + length batch.events
send-settled_example = send-settled calm (λ key. answers) 9 (codes "k1") 4 batch zeros low

inputs-Credited : Each (Credited []) inputs
inputs-Credited = (inr (λ e. cc), (inr tt, (inr (λ e. cc), (inr (λ e. cc), tt))))

run-keyed_example :
    (w : Batching) × (run plain_runtime false inputs
        (started 2 1_000 200 (new_self_stats 0) new_pipeline_stats)
      ≡ some w)
    × Each (λ b. key_of [] b ≢ []) w.out
run-keyed_example =
    run-keyed plain_runtime [] 2 1_000 200 (new_self_stats 0) new_pipeline_stats false inputs
      plain-Reading inputs-Credited
