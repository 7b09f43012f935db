-- ===== src/Output.antt =====
-- rust/phonecam-desktop/src-tauri/src/output.rs: the output device of Linux, and the format events of
-- the other drivers.
pub mod Device
pub mod FormatEvent
pub mod Wrapper
pub mod Packed
