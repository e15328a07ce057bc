-- ===== src/Flusher.antt =====
-- `postJSON` and `eventsFlusher` of flusher.go. The length of the waits is left out. What the
-- network does is a parameter: `outcome key attempt` is what the attempt under a key
-- gives, `interrupted attempt` tells whether the wait before it ends by `ctx.Done()`.
mod Attempts
mod Keyed
mod Tests
use metrics_agent.Prelude.{
  ℕ, zero, suc, ◌+◌, ◌-◌, ◌*◌, ◌^◌, Bool, true, false, ◌&&◌, ◌||◌, List, [], ◌∷◌, ltb, leb, ◌==◌,
  if◌then◌else◌, length, Bytes,
}
use metrics_agent.Data.{EventBatch}
use metrics_agent.Stats.{SelfStats, PipelineStats, add_u64}
use metrics_agent.Registry.{is_empty}

-- What an attempt gives: no request for this URL, an error of `client.Do`, which a cancelled
-- context may be, or a status code.
pub data Response : Type 0 where
  bad_request network_error context_canceled : Response
  status : ℕ → Response

-- What `postJSON` returns.
pub data Posted : Type 0 where
  post_ok post_canceled post_retryable post_failed : Posted

unfoldable pub post_json : Response → Posted
post_json bad_request = post_failed
post_json network_error = post_retryable
post_json context_canceled = post_canceled
post_json (status code) =
    if leb 200 code && ltb code 300
    then post_ok
    else if leb 500 code || code == 408 || code == 429
    then post_retryable
    else post_failed

-- How `send` ends, with the number of requests made.
pub data Ending : Type 0 where
  flushed cancelled given_up : ℕ → Ending

-- What follows an attempt: `more` is what the next turn of the loop gives.
unfoldable pub after_post : ℕ → Posted → Ending → Ending
after_post made post_ok more = flushed made
after_post made post_canceled more = cancelled made
after_post made post_retryable more = more
after_post made post_failed more = given_up made

-- The loop of `send`: `left` attempts are left, `attempt` requests have been made.
unfoldable pub send_loop : (ℕ → Bool) → (ℕ → Response) → ℕ → ℕ → Ending
send_loop interrupted outcome zero attempt = given_up attempt
send_loop interrupted outcome (suc left) attempt =
    let more = send_loop interrupted outcome left (suc attempt) in
    if ltb 0 attempt && interrupted attempt
    then cancelled attempt
    else after_post (suc attempt) (post_json (outcome attempt)) more

-- The key of a batch: its own credential when it carries one.
abbrev pub key_of : Bytes → EventBatch → Bytes
key_of api_key batch = if is_empty batch.token then api_key else batch.token

pub record Counters : Type 0 where
  pub self : SelfStats
  pub stats : PipelineStats

unfoldable pub count_ending : ℕ → ℕ → Ending → Counters → Counters
count_ending now_ms n (flushed made) c = record {
  self = record (c.self) {
    batches_sent = add_u64 c.self.batches_sent 1;
    events_sent = add_u64 c.self.events_sent n;
    last_event_flush_ms = now_ms;
  };
  stats = record (c.stats) {
    batches_sent = add_u64 c.stats.batches_sent 1;
    events_sent = add_u64 c.stats.events_sent n;
    last_event_flush_ms = now_ms;
  };
}
count_ending now_ms n (cancelled made) c = record {
  self = record (c.self) { drops_shutdown = add_u64 c.self.drops_shutdown n };
  stats = record (c.stats) { drops_shutdown = add_u64 c.stats.drops_shutdown n };
}
count_ending now_ms n (given_up made) c = record {
  self = record (c.self) { drops_flush_failed = add_u64 c.self.drops_flush_failed n };
  stats = record (c.stats) { drops_flush_failed = add_u64 c.stats.drops_flush_failed n };
}

-- `send`
unfoldable pub send :
    (ℕ → Bool) → (Bytes → ℕ → Response) → ℕ → Bytes → ℕ → EventBatch → Counters → Counters
send interrupted outcome now_ms api_key max_retries batch c =
    count_ending now_ms (length batch.events)
      (send_loop interrupted (outcome (key_of api_key batch)) (suc max_retries) 0) c

-- `run`: the batches of the channel, one after the other; the network may answer each differently.
unfoldable pub run :
    (ℕ → ℕ → Bool)
    → (ℕ → Bytes → ℕ → Response)
    → ℕ
    → Bytes
    → ℕ
    → List EventBatch
    → ℕ
    → Counters
    → Counters
run interrupted outcome now_ms api_key max_retries [] turn c = c
run interrupted outcome now_ms api_key max_retries (batch ∷ batches) turn c =
    run interrupted outcome now_ms api_key max_retries batches (suc turn)
      (send (interrupted turn) (outcome turn) now_ms api_key max_retries batch c)
