-- ===== src/Tests.antt =====
-- Runs of the model on small data, and the theorems at concrete inputs.
mod Samples
mod Core
mod Planning
mod Listings
mod Settings
mod Locks
mod Runs
mod Daemons
mod Mirrors
mod Replicas
mod Adapters
mod Drives
mod Stores
mod Tools
mod Logs
mod Messages
mod Tokens
