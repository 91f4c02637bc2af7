-- ===== src/Bench.antt =====
-- bench/: the in-memory peripheral, the measures, and runs of the client against the peripheral.
pub mod Peripheral
mod Runs
pub mod Micro
pub mod Runner
pub mod Scenario
pub mod Stream
pub mod Tree
