-- ===== src/Tcp.antt =====
-- The TCP of src/net/tcp.rs over the loopback interface, with the IPv4 header of src/net/ip.rs.
-- A `u8`, `u16` or `u32` is a number below 2 ^ 8, 2 ^ 16 or 2 ^ 32.
pub mod Segment
pub mod Endpoint
pub mod Input
pub mod Sequence
pub mod Table
pub mod Wire
pub mod Emit
pub mod Calls
pub mod Retransmit
pub mod Stream
mod Tests
