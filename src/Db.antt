-- ===== src/Db.antt =====
-- src/prooflens/db: the adapters to Postgres.
pub mod HashStore
pub mod Columns
pub mod Repo
pub mod Reviews
pub mod Organisation
pub mod JobQueue
mod Tests
