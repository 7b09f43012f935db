-- ===== src/Mobile.antt =====
-- rust/phonecam-mobile-core: the state behind the phone's C interface and the calls on it.
pub mod State
pub mod Setup
pub mod Stream
pub mod Control
pub mod Invariant
pub mod Atomic
pub mod Answers
pub mod Run
pub mod History
pub mod Stuck
