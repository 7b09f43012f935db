-- ===== src/Adb.antt =====
-- The handling of Android devices over adb (rust/phonecam-desktop/src-tauri/src/adb.rs).
pub mod Map
pub mod Devices
pub mod Binary
pub mod Manager
pub mod Monitor
