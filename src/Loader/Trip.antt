-- ===== src/Loader/Trip.antt =====
-- What the loader makes of the files that atomixc writes.
pub mod Holds
pub mod Code
pub mod Data
pub mod Table
pub mod Strings
pub mod Header
pub mod Module
pub mod Modules
pub mod Bundle
pub mod Errors
