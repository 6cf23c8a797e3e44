-- ===== src/Pg/Pool.antt =====
-- The connection pool of the PostgreSQL driver: pg/src/port/pool and pg/src/protocol/runtime/ready. Here the
-- words that its parts share, from pg/src/port/mod.rs and pg/src/error.rs. Connections, wake targets and
-- the causes of failures are opaque.
pub mod Sync
pub mod Phases
pub mod Slot
pub mod Life
pub mod Turns
pub mod Owes
pub mod Uses
pub mod Once
pub mod Closings
pub mod Pending
pub mod Ready
mod Tests
use cartel.Base.{ℕ, Bool}

-- what the pool uses of `conn::Id` of the dope crate: `index` and `==`
pub record Ids (K : Type 0) : Type 0 where
  pub index : K → ℕ
  pub equal : K → K → Bool

-- `port::Disposition`
pub data Disposition : Type 0 where
  reconnect permanent : Disposition

-- `port::Retirement`
pub data Retirement : Type 0 where
  handshaking shared reserved held finalizing draining : Retirement

-- `requests::Boundary`
pub data Boundary : Type 0 where
  close begin commit group opening external : Boundary

-- `crate::Error`, as far as the slots of the pool report it
pub data Error : Type 0 where
  closed copy_finish_without_start : Error
  retirement : (slot : ℕ) → Retirement → Error
  request_depth_overflow group_open request_close_during_copy request_open_during_copy :
      (depth : ℕ) → Error
  copy_during_pipeline copy_already_open copy_finish_during_pipeline : (depth : ℕ) → Error
