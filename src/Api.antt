-- ===== src/Api.antt =====
-- src/lib.rs: the C interface of the library.
pub mod Context
pub mod Session
pub mod Life
pub mod Capability
pub mod Objects
pub mod Config
pub mod Casts
pub mod Accessors
pub mod Tablet
