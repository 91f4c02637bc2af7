-- ===== src/Mgmt.antt =====
-- bluek/_mgmt.py: the management socket.
pub mod Utf8
pub mod Codec
pub mod Eir
pub mod Socket
pub mod Link
mod Tests
