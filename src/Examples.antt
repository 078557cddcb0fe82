-- ===== src/Examples.antt =====
-- Tests, and the theorems at concrete inputs.
mod Rational
mod Devices
mod Core
mod Planning
mod Members
mod Watching
mod Pooled
mod Measuring
mod Orders
mod Monitoring
mod Wiring
mod Floats
mod Pipelining
mod Relaying
