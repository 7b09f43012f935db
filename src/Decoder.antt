-- ===== src/Decoder.antt =====
-- rust/phonecam-desktop/src-tauri/src/decode.rs: the decoder thread and what it feeds its decoders.
pub mod AnnexB
pub mod Backends
pub mod Worker
pub mod Runs
pub mod Quiet
pub mod ParameterSets
pub mod Pictures
