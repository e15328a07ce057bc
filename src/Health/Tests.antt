-- ===== src/Health/Tests.antt =====
-- The answer to `/stats` for three projects, one of them inline.
use metrics_agent.Health.Shown.{Shown}
