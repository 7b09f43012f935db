-- ===== src/Discovery.antt =====
-- The crate rust/phonecam-discovery (src/lib.rs), and the calls of rust/phonecam-mobile-core that use
-- it.
pub mod QrCode
pub mod Label
pub mod Services
