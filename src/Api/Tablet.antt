-- ===== src/Api/Tablet.antt =====
-- src/lib.rs: the functions for tablets, of which the library opens none: no event of a tablet is
-- ever reported, and no tool or group is handed out.
pub mod PadEvents
pub mod ToolEvents
pub mod Tools
pub mod Groups
