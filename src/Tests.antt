-- ===== src/Tests.antt =====
-- Runs at concrete inputs, and the theorems at inputs that meet their hypotheses.
mod BinSearch
mod Callbacks
mod ClassWrapper
mod Closures
mod Console
mod ConstMembers
mod Ctypes
mod Events
mod Files
mod Mapping
mod Tftp
mod Wifi
