-- ===== src/Video.antt =====
-- rust/phonecam-desktop/src-tauri/src: the layouts of decoded frames (decode.rs, convert.rs,
-- output.rs), without the decoders.
pub mod Planes
pub mod Convert
pub mod Rows
pub mod Pixels
pub mod Pack
pub mod Picture
