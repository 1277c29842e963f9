-- ===== src/Tests.antt =====
-- Sample runs, and the theorems at concrete inputs.
mod Samples
mod Pricing
mod Preflight
mod Filler
mod Process
mod Service
mod Startup
mod Shutdown
mod Run
mod Cycle
mod History
mod Repository
