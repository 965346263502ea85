-- ===== src/Daemon.antt =====
-- The stand-alone daemon: src/config.rs, src/virtual_device.rs, src/device.rs, src/event_loop.rs
-- and src/main.rs.
pub mod Config
pub mod Wrapper
pub mod Process
pub mod Batch
pub mod Open
pub mod Loop
pub mod Main
