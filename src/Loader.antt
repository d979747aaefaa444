-- ===== src/Loader.antt =====
-- core/loader.c: modules and bundles read from a buffer, and the sections that atomixc writes.
pub mod Bytes
pub mod Code
pub mod Files
pub mod Keeps
pub mod Safe
pub mod Strings
pub mod Trip
pub mod Write
