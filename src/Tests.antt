-- ===== src/Tests.antt =====
-- Runs of the models at concrete inputs, and the theorems applied to them.
pub mod Arrivals
pub mod Packets
pub mod Words
pub mod Drops
pub mod Log
pub mod Peers
pub mod Readers
pub mod Knobs
pub mod Learning
pub mod Scenarios
pub mod Tables
