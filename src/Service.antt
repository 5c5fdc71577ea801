-- ===== src/Service.antt =====
-- src/prooflens/service: what the API and the worker share.
pub mod Ids
pub mod Casings
pub mod Hierarchy
pub mod Bulk
pub mod Repo
pub mod Nodes
pub mod Organisation
pub mod ApiKeys
pub mod Keys
pub mod Tenants
pub mod MemoryQueue
pub mod Processor
pub mod Worker
mod Tests
