-- ===== src/Tests.antt =====
-- Each theorem at a concrete input, on the platform of lists.
mod Base
mod Gateway
mod Service
mod Http
mod Isolation
mod Jobs
mod Races
mod System
