-- ===== src/Batcher/Batched.antt =====
-- `run` from a new batcher to its end, as a grouping of its datagrams.
use metrics_agent.Prelude.{ℕ, ◌≡◌, List, [], Each}
use metrics_agent.Batcher.{Batching}
use metrics_agent.Batcher.Emitted.{Emitted}
use metrics_agent.Batcher.Finished.{Finished}
use metrics_agent.Batcher.Groups.{Member, Group, sent_batches, all_members}

-- The end of `run`.
pub record Batched (max : ℕ) (valid : List Member) (w : Batching) : Type 0 where
  pub nothing_left : w.batcher.cur ≡ []
  -- Each batch has its bounds.
  pub bounded : Each (Emitted max (λ t. Unit)) w.out
  -- Each valid datagram is in one group, in their order, and the batches are those of the groups
  -- that were sent.
  pub groups : List Group
  pub members_are : all_members groups ≡ valid
  pub out_is : w.out ≡ sent_batches groups
