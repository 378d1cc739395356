-- ===== src/Tests.antt =====
-- Runs of the model, and the theorems at concrete inputs.
mod Market
mod Examples
mod Dispatch
mod Services
mod Traffic
mod Outbox
mod Queries
mod Users
mod Frontend
mod Gateway
mod Handover
mod Seed
mod Config
mod Browser
mod Api
