-- ===== src/Measure.antt =====
-- bench/measure: percentiles, recorders, and the arithmetic on what /proc says.
pub mod Clock
pub mod Order
pub mod Extremes
pub mod Mean
pub mod Laws
pub mod Summaries
pub mod Recorder
pub mod Rates
pub mod Cpu
pub mod Stat
mod Tests
