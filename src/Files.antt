-- ===== src/Files.antt =====
-- The files of the firmware: components/internals/esp32/littlefs.c and
-- components/berry/port/be_port.c.
pub mod LittleFs
pub mod Streams
pub mod Port
pub mod Mounted
pub mod Open
pub mod Served
