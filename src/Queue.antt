-- ===== src/Queue.antt =====
-- src/prooflens/queue: the job queue of the webhook worker.
pub mod Backoff
pub mod Jobs
pub mod Budget
pub mod Order
pub mod Claim
pub mod Kept
pub mod Sound
pub mod Idempotent
mod Tests
pub mod Retries
