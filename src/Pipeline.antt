-- ===== src/Pipeline.antt =====
-- rust/phonecam-desktop/src-tauri/src/pipeline.rs: the desktop's streaming session.
pub mod Profiles
pub mod Session
pub mod Results
pub mod Step
pub mod Invariant
pub mod History
pub mod Replies
pub mod Switch
pub mod Manager
