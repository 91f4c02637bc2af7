-- ===== src/Client.antt =====
-- bluek/client.py: how `BleakClient.connect` finds the peer.
pub mod Connect
pub mod Attempts
pub mod Gatt
pub mod Guards
pub mod Prescan
pub mod Lifecycle
pub mod Teardown
mod GattTests
mod LifecycleTests
mod Tests
