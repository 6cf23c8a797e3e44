-- ===== src/Resp/Encode.antt =====
-- redis/src/request/encode/mod.rs: a command as an array of bulks, and the length that is reserved for
-- it before it is written.
pub mod Exact
use cartel.Base.{
  List, Option, Result, [], and_then, checked_add, err, i64_max, if◌then◌else◌, length, ltb, none,
  ok, one_plus_u64, some, suc, u64_max, zero, ℕ, ◌++◌, ◌+◌, ◌/◌, ◌==◌, ◌>>=◌, ◌∷◌,
}
use cartel.Resp.Types.{Bytes}
use cartel.Resp.Digits.{format_header}

-- the cases of `request::Error` that the encoder of a command reports by itself
pub data RequestError : Type 0 where
  too_long : (actual maximum : ℕ) → RequestError
  add_overflow : (left right : ℕ) → RequestError

-- `Number::new`
unfoldable pub number_new : ℕ → Result RequestError ℕ
number_new value = if ltb i64_max value then err (RequestError.too_long value i64_max) else ok value

-- `checked_ilog10().unwrap_or(0) + 1`, of a value with at most `room` digits
unfoldable pub digits_in : (room value : ℕ) → ℕ
digits_in zero value = 0
digits_in (suc room) value =
    let rest = digits_in room (value / 10) in if value / 10 == 0 then 1 else suc rest

-- `Number::digits`
abbrev pub digits : ℕ → ℕ
digits value = digits_in 20 value

-- `Length::add` and `add_count`
unfoldable pub length_add : (left right : ℕ) → Result RequestError ℕ
length_add left right = elim (checked_add u64_max left right) [
  | none ↦ err (RequestError.add_overflow left right)
  | some sum ↦ ok sum
]

-- `Length::array`
unfoldable pub length_array : (count : ℕ) → Result RequestError ℕ
length_array count = do number ← number_new count; ok (one_plus_u64 (2 + digits number))

-- `Length::bulk`
unfoldable pub length_bulk : (total len : ℕ) → Result RequestError ℕ
length_bulk total len = do
  number ← number_new len
  framed ← length_add total 5
  headed ← length_add framed (digits number)
  length_add headed len

-- the loop of `Encoder::encode` over its arguments
unfoldable pub length_bulks : (total : ℕ) → List Bytes → Result RequestError ℕ
length_bulks total [] = ok total
length_bulks total (argument ∷ rest) = do
  next ← length_bulk total (length argument)
  length_bulks next rest

-- the length that `Encoder::encode` reserves
unfoldable pub reserved_length : (prefix tail : List Bytes) → Result RequestError ℕ
reserved_length prefix tail = do
  count ← length_add (length prefix) (length tail)
  total ← length_array count
  length_bulks total (prefix ++ tail)

-- `Writer::bulk` of a payload in one chunk
unfoldable pub bulk_bytes : Bytes → Option Bytes
bulk_bytes payload =
    and_then (format_header b'$' (length payload))
      (λ header. some (header ++ (payload ++ b'\r' ∷ b'\n' ∷ [])))

unfoldable pub bulks_bytes : List Bytes → Option Bytes
bulks_bytes [] = some []
bulks_bytes (argument ∷ rest) =
    let behind = bulks_bytes rest in
    and_then (bulk_bytes argument) (λ first. and_then behind (λ others. some (first ++ others)))

-- what the closure of `Encoder::encode` writes: `Writer::array`, then a bulk for each argument
unfoldable pub command_bytes : (prefix tail : List Bytes) → Option Bytes
command_bytes prefix tail =
    and_then (format_header b'*' (length prefix + length tail))
      (λ header. and_then (bulks_bytes (prefix ++ tail)) (λ bulks. some (header ++ bulks)))
