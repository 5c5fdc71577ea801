-- ===== src/Api.antt =====
-- src/prooflens/api: what stands between a request and the services.
pub mod RateLimit
pub mod Auth
pub mod DateRange
pub mod Analytics
pub mod Scoring
pub mod Results
pub mod Dse
pub mod Webhook
pub mod HierarchyCsv
mod Tests
