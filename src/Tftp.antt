-- ===== src/Tftp.antt =====
-- The TFTP server, components/internals/esp32/tftp_server.c.
pub mod Wire
pub mod Machine
pub mod Data
pub mod Write
pub mod Read
pub mod Request
pub mod RoundTrip
pub mod Service
pub mod Session
pub mod Task
