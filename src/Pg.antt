-- ===== src/Pg.antt =====
-- The PostgreSQL driver's wire protocol: pg/src/protocol.
pub mod Reason
pub mod Wire
pub mod Scram
pub mod Codec
pub mod Pool
pub mod Tests
