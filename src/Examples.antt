-- ===== src/Examples.antt =====
-- The theorems of the library applied to concrete workflows, stores, caches, locks and breakers.
pub mod Samples
pub mod Graphs
pub mod Runs
pub mod Stores
pub mod Guards
pub mod Outcomes
pub mod Caches
pub mod Codes
pub mod Rooms
pub mod Sessions
pub mod Migrations
pub mod Numbers
pub mod Schedules
pub mod Services
pub mod Wiring
pub mod CommandLines
