-- ===== src/Att.antt =====
-- bluek/_att.py: the ATT client and GATT discovery, one module for each part of it.
pub mod Codes
pub mod Gatt
pub mod State
pub mod Request
pub mod Reading
pub mod Discovery
pub mod Services
pub mod Database
pub mod Fuel
pub mod Session
pub mod Lock
mod Tests
