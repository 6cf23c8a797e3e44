-- ===== src/Pg/Reason.antt =====
-- pg/src/protocol/mod.rs: the errors that the SCRAM parser and the frame codec report. A `Length` and
-- an `Offset` are their numbers.
use cartel.Base.{ℕ}

-- `protocol::Number`
pub data Number : Type 0 where
  empty zero : Number
  leading_zero : (offset : ℕ) → Number
  invalid overflow : (offset byte : ℕ) → Number

-- `protocol::Reason`, as far as these two use it, and the model's own case for a loop out of fuel
pub data Reason : Type 0 where
  out_of_fuel missing_result : Reason
  attribute_equals attribute_name : (offset actual : ℕ) → Reason
  attribute_order : (actual expected : ℕ) → Reason
  attribute_truncated : (offset actual : ℕ) → Reason
  duplicate_attribute empty_attribute standard_extension : (name offset : ℕ) → Reason
  extension trailing_comma : (offset : ℕ) → Reason
  extension_value : (name offset byte : ℕ) → Reason
  final_attribute : (actual : ℕ) → Reason
  final_value nonce_char : (offset byte : ℕ) → Reason
  iteration : Number → Reason
  missing_attribute : (expected : ℕ) → Reason
  frame_capacity : (declared capacity : ℕ) → Reason
  frame_length : (declared minimum : ℕ) → Reason
  frame_truncated : (actual required : ℕ) → Reason
  wire_length : (actual : ℕ) → Reason
