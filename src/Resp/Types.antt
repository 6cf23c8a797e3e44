-- ===== src/Resp/Types.antt =====
-- redis/src/protocol/mod.rs: the closed error vocabulary of the decoder.
use cartel.Base.{List, ℕ}
use cartel.Base.Int.{ℤ}

abbrev pub Bytes : Type 0
Bytes = List ℕ

-- `protocol::Line`: what a type marker announces
pub data Line : Type 0 where
  status server integer bulk array : Line

-- `protocol::Number`; each case starts with its offset in the frame
pub data NumberError : Type 0 where
  empty missing overflow : ℕ → NumberError
  byte : (offset actual : ℕ) → NumberError

-- `protocol::Truncated`
pub data Truncated : Type 0 where
  value : (offset depth remaining : ℕ) → Truncated
  line : (kind : Line) (start actual : ℕ) → Truncated
  bulk : (actual required : ℕ) → Truncated

-- `protocol::Error`
pub data Error : Type 0 where
  number : Line → NumberError → Error
  length : Line → ℤ → Error
  marker : (offset actual : ℕ) → Error
  depth : (actual maximum declared : ℕ) → Error
  terminator : (offset expected actual : ℕ) → Error
  values : (remaining : ℕ) → Error
  unparsed : (actual : ℕ) → Error
  truncated : Truncated → Error
