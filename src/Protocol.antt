-- ===== src/Protocol.antt =====
-- rust/phonecam-protocol: the messages of the wire protocol, their validation and their framing.
pub mod Profile
pub mod Handshake
pub mod Message
pub mod Frame
