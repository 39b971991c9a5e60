-- ===== src/ClassWrapper.antt =====
-- The calls of C functions from Berry, components/berry/berry_mapping/src/be_class_wrapper.c.
pub mod Machine
pub mod Find
pub mod Convert
pub mod Args
pub mod Call
pub mod Ends
pub mod Bounds
pub mod Signature
pub mod ReadBack
pub mod Letters
pub mod Callback
