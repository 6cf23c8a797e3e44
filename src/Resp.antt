-- ===== src/Resp.antt =====
-- The RESP reply decoder of the Redis driver: redis/src/protocol and its child `parser`.
pub mod Types
pub mod Body
pub mod Limit
pub mod Node
pub mod Pool
pub mod Tape
pub mod Region
pub mod Gate
pub mod Builder
pub mod Number
pub mod Interface
pub mod Mode
pub mod Settle
pub mod Capacity
pub mod Digits
pub mod Encode
pub mod State
pub mod Decode
pub mod Init
pub mod Tests
