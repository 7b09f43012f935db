-- ===== src/Transport.antt =====
-- rust/phonecam-transport: messages over a byte stream, the reader and writer tasks, and the
-- handshake that opens a connection.
pub mod Wire
pub mod Loops
pub mod Connect
