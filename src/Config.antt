-- ===== src/Config.antt =====
-- The configuration store, src/config.c and include/config.h: tagged values in a buffer of 128
-- bytes with a header and a checksum, saved under one identifier of the flash file system.
pub mod Platform
pub mod State
pub mod Tlv
pub mod Save
pub mod Init
pub mod Api
pub mod Interface
