-- ===== src/Backend.antt =====
-- src/backend.rs: the evdev backend of the shared library.
pub mod Tracked
pub mod Keyboard
pub mod Relative
pub mod Touchpad
pub mod Batch
pub mod World
pub mod Open
pub mod Drain
