-- ===== src/Bytes.antt =====
-- bytebuffer/mangosByteBuffer: the byte buffer of the messages, and the packets that carry them.
pub mod Buffer
pub mod Value
pub mod Message
pub mod Parcel
pub mod Packet
mod Examples
