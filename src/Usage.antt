-- ===== src/Usage.antt =====
-- vusaged: what the usage daemon reads from its clients. Usage.Grow is its buffer, Usage.Packet the
-- division of the buffer into packets.
pub mod Grow
pub mod Packet
pub mod Framing
pub mod Queue
mod Tests
