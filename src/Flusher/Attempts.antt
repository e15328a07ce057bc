-- ===== src/Flusher/Attempts.antt =====
-- How often `send` posts a batch, and where its events are counted.
use metrics_agent.Prelude.{
  ℕ, zero, suc, ◌+◌, ◌^◌, ◌≤◌, ◌<◌, ◌≡◌, ◌⊎◌, inl, inr, refl, sym, subst, false, Bool, true, ◌&&◌,
  arith, ltb, Bool-cases, length, Bytes,
}
use metrics_agent.Data.{EventBatch}
use metrics_agent.Stats.{PipelineStats}
use metrics_agent.Flusher.{
  Response, Posted, post_ok, post_canceled, post_retryable, post_failed, post_json, Ending, flushed,
  cancelled, given_up, after_post, send_loop, key_of, Counters, count_ending, send,
}

lt-cases : (k n : ℕ) → k < suc n → (k < n) ⊎ (k ≡ n)
lt-cases k n h = ground (arith, h)

-- Before the first request there is no wait.
first-cases : (n : ℕ) (b : Bool) → (ltb 0 n && b) ≡ false → (n ≡ 0) ⊎ (b ≡ false)
first-cases n b h = ground (arith, h)

-- The requests before this one were all made after a wait that was not interrupted, and all were
-- answered in a way that asks for another attempt.
abbrev pub Retried : (ℕ → Bool) → (ℕ → Response) → ℕ → Type 0
Retried interrupted outcome made =
    (k : ℕ)
    → k < made
    → (post_json (outcome k) ≡ post_retryable) × ((k ≡ 0) ⊎ (interrupted k ≡ false))

-- Why the loop has ended, with at most `most` requests made.
pub Explained : (ℕ → Bool) → (ℕ → Response) → ℕ → Ending → Type 0
Explained interrupted outcome most (flushed made) =
    (made ≤ most)
    × ((k : ℕ) × ((made ≡ suc k)
          × ((post_json (outcome k) ≡ post_ok) × Retried interrupted outcome k)))
Explained interrupted outcome most (cancelled made) =
    (made ≤ most)
    × (((interrupted made ≡ true) × Retried interrupted outcome made)
        ⊎ ((k : ℕ) × ((made ≡ suc k)
              × ((post_json (outcome k) ≡ post_canceled) × Retried interrupted outcome k))))
Explained interrupted outcome most (given_up made) =
    ((made ≡ most) × Retried interrupted outcome made)
    ⊎ ((made ≤ most)
        × ((k : ℕ) × ((made ≡ suc k)
              × ((post_json (outcome k) ≡ post_failed) × Retried interrupted outcome k))))

module _ (interrupted : ℕ → Bool) (outcome : ℕ → Response) where
  after_post-Explained :
      (most attempt : ℕ) (p : Posted) (more : Ending)
      → suc attempt ≤ most
      → post_json (outcome attempt) ≡ p
      → Retried interrupted outcome attempt
      → (p ≡ post_retryable → Explained interrupted outcome most more)
      → Explained interrupted outcome most (after_post (suc attempt) p more)
  unfolding after_post Explained
  after_post-Explained most attempt post_ok more h e b x = (h, (attempt, (refl, (e, b))))
  after_post-Explained most attempt post_canceled more h e b x = (h, inr (attempt, (refl, (e, b))))
  after_post-Explained most attempt post_retryable more h e b x = x refl
  after_post-Explained most attempt post_failed more h e b x = inr (h, (attempt, (refl, (e, b))))

  cancelled-Explained :
      (most attempt : ℕ)
      → attempt ≤ most
      → interrupted attempt ≡ true
      → Retried interrupted outcome attempt
      → Explained interrupted outcome most (cancelled attempt)
  unfolding Explained
  cancelled-Explained most attempt h e b = (h, inl (e, b))

  Retried-suc :
      (attempt : ℕ)
      → Retried interrupted outcome attempt
      → (ltb 0 attempt && interrupted attempt) ≡ false
      → post_json (outcome attempt) ≡ post_retryable
      → Retried interrupted outcome (suc attempt)
  Retried-suc attempt b calm e k h = elim (lt-cases k attempt h) [
    | inl before ↦ b k before
    | inr here ↦
        subst (λ n. (post_json (outcome n) ≡ post_retryable) × ((n ≡ 0) ⊎ (interrupted n ≡ false)))
          (sym here) (e, first-cases attempt (interrupted attempt) calm)
  ]

  attempts-Explained :
      (left attempt most : ℕ)
      → left + attempt ≡ most
      → Retried interrupted outcome attempt
      → Explained interrupted outcome most (send_loop interrupted outcome left attempt)
  unfolding send_loop Explained
  attempts-Explained zero attempt most m b = inl (omega (arith, m), b)
  attempts-Explained (suc left) attempt most m b =
      elim (Bool-cases (ltb 0 attempt && interrupted attempt)) [
        | inl stop ↦
            rw stop (cancelled-Explained most attempt (omega (arith, m)) (ground (arith, stop)) b)
        | inr go_on ↦ rw go_on (
            after_post-Explained most attempt (post_json (outcome attempt))
              (send_loop interrupted outcome left (suc attempt)) (omega (arith, m)) refl b
              (λ e.
                attempts-Explained left (suc attempt) most (omega (arith, m))
                  (Retried-suc attempt b go_on e)))
      ]

  -- The loop ends by the first answer that does not ask for another attempt: accepted, cancelled or
  -- finally refused; or at the first wait that is interrupted; or, with every answer asking for
  -- another attempt, when all `max_retries + 1` requests are made.
  pub send_loop-Explained :
      (max_retries : ℕ)
      → Explained interrupted outcome
          (suc max_retries)
          (send_loop interrupted outcome (suc max_retries) 0)
  send_loop-Explained max_retries =
      attempts-Explained (suc max_retries) 0 (suc max_retries) (omega arith)
        (λ k h. absurd (omega (arith, h)))

-- The events that have left the agent or been counted as lost.
abbrev pub settled : PipelineStats → ℕ
settled s = s.events_sent + s.drops_shutdown + s.drops_flush_failed

count_ending-settled :
    (e : Ending) (n now_ms : ℕ) (c : Counters)
    → settled c.stats + n < 2 ^ 64
    → settled (count_ending now_ms n e c).stats ≡ settled c.stats + n
unfolding count_ending
count_ending-settled (flushed made) n now_ms c h = omega arith
count_ending-settled (cancelled made) n now_ms c h = omega arith
count_ending-settled (given_up made) n now_ms c h = omega arith

-- A batch is settled once: each of its events is counted as sent, as dropped at shutdown or as
-- failed, and in one way only. The counters are below their limit.
pub send-settled :
    (interrupted : ℕ → Bool) (outcome : Bytes → ℕ → Response) (now_ms : ℕ) (api_key : Bytes)
    (max_retries : ℕ) (batch : EventBatch) (c : Counters)
    → settled c.stats + length batch.events < 2 ^ 64
    → settled (send interrupted outcome now_ms api_key max_retries batch c).stats
      ≡ settled c.stats + length batch.events
unfolding send
send-settled interrupted outcome now_ms api_key max_retries batch c h =
    count_ending-settled
      (send_loop interrupted (outcome (key_of api_key batch)) (suc max_retries) 0)
      (length batch.events) now_ms c h
