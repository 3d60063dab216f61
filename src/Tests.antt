-- ===== src/Tests.antt =====
-- Runs of the development at concrete inputs.
mod Fixtures
mod Jobs
mod Rounds
mod Stores
mod Requests
mod Settings
mod Files
mod Startup
