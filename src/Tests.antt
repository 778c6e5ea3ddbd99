-- ===== src/Tests.antt =====
-- Evaluations of the model at small inputs.
pub mod Session
pub mod Exchanges
pub mod Filters
pub mod Transfers
mod Parties
pub mod Queues
pub mod Offline
pub mod Files
pub mod Messages
pub mod Start
pub mod Processes
pub mod Direction
pub mod Arrivals
