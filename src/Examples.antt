-- ===== src/Examples.antt =====
-- Concrete storages, values and runs for the theorems of the library.
mod Storage
mod Tables
mod Ledger
mod Values
mod Aggregates
mod Events
mod Verification
mod Dates
mod Messages
mod Loads
mod Goroutines
mod Pools
mod Services
mod Deliveries
mod Environments
mod Passed
mod Pipelines
