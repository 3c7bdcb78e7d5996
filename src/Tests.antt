-- ===== src/Tests.antt =====
-- Runs of the model, and the theorems at concrete inputs.
mod Fixtures
mod History
mod Server
mod Snapshots
mod Session
mod Queries
mod Selects
mod Stores
mod Indexes
mod Documents
mod Sql
mod Log
