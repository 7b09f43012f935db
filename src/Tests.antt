-- ===== src/Tests.antt =====
-- Concrete inputs for the theorems: a small encoding in bincode's place, and runs of each part.
pub mod Toy
mod Protocol
mod Transport
mod Mobile
mod Video
mod Pipeline
mod Output
mod Decoder
mod Adb
mod Discovery
mod Manager
mod Wrapper
mod Shell
