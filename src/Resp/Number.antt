-- ===== src/Resp/Number.antt =====
-- redis/src/protocol/parser/number.rs: the decimal numbers of integer lines and of lengths.
pub mod Decimal
use cartel.Base.{
  Bool, Option, Result, [], add_u32, and_then, as_u32, checked_add, checked_mul, err, false,
  i64_max, if◌then◌else◌, is_empty, leb, ltb, none, not, ok, some, u64_max, ℕ, ◌%◌, ◌+◌, ◌-◌, ◌==◌,
  ◌||◌, ◌∷◌,
}
use cartel.Base.Int.{ℤ, pos, negsuc, ◌+ℤ◌, ◌-ℤ◌, ◌*ℤ◌}
use cartel.Resp.Types.{Bytes, Line, Error, NumberError}
use cartel.Resp.Body

-- `Length`
pub data Length : Type 0 where
  nil : Length
  count : ℕ → Length

-- `Number::offset`
unfoldable pub offset : (body relative : ℕ) → ℕ
offset body relative = add_u32 (Body.start body) (as_u32 relative)

-- `byte.wrapping_sub(b'0')`
abbrev pub digit_of : ℕ → ℕ
digit_of byte = (byte + 256 - b'0') % 256

-- the values of an i64, and its checked arithmetic
abbrev pub is_i64 : ℤ → Bool
is_i64 (pos n) = leb n i64_max
is_i64 (negsuc n) = leb n i64_max

abbrev pub checked_i64 : ℤ → Option ℤ
checked_i64 z = if is_i64 z then some z else none

-- the next value of the loop of `Number::signed`
unfoldable pub next_signed : (negative : Bool) → ℤ → (digit : ℕ) → Option ℤ
next_signed negative value digit =
    and_then (checked_i64 (value *ℤ pos 10))
      (λ scaled. checked_i64 (if negative then scaled -ℤ pos digit else scaled +ℤ pos digit))

-- the loop of `Number::signed`, over the bytes from `cursor` on
unfoldable pub signed_from :
    (negative : Bool) → ℤ → (body cursor : ℕ) → Bytes → Result NumberError ℤ
unfolding next_signed offset
signed_from negative value body cursor [] = ok value
signed_from negative value body cursor (byte ∷ rest) =
    if ltb 9 (digit_of byte)
    then err (NumberError.byte (offset body cursor) byte)
    else elim (next_signed negative value (digit_of byte)) [
      | none ↦ err (NumberError.overflow (offset body cursor))
      | some next ↦ signed_from negative next body (cursor + 1) rest
    ]

-- `Number::signed`
unfoldable pub signed : Bytes → (body : ℕ) → Result NumberError ℤ
unfolding signed_from
signed [] body = err (NumberError.empty (offset body 0))
signed (first ∷ rest) body =
    let negative = first == b'-' in
    if negative || first == b'+'
    then (if is_empty rest
        then err (NumberError.missing (offset body 1))
        else signed_from negative (pos 0) body 1 rest)
    else signed_from negative (pos 0) body 0 (first ∷ rest)

-- the loop of `Number::unsigned`
unfoldable pub unsigned_from : ℕ → (body index : ℕ) → Bytes → Result NumberError ℕ
unfolding offset
unsigned_from value body index [] = ok value
unsigned_from value body index (byte ∷ rest) =
    if ltb 9 (digit_of byte)
    then err (NumberError.byte (offset body index) byte)
    else elim (and_then (checked_mul u64_max value 10)
        (λ v. checked_add u64_max v (digit_of byte))) [
          | none ↦ err (NumberError.overflow (offset body index))
          | some next ↦ unsigned_from next body (index + 1) rest
        ]

-- `Number::unsigned`
unfoldable pub unsigned : Bytes → (body : ℕ) → Result NumberError ℕ
unfolding unsigned_from
unsigned [] body = err (NumberError.empty (offset body 0))
unsigned (byte ∷ rest) body = unsigned_from 0 body 0 (byte ∷ rest)

-- the branch of `Number::length` behind a minus sign
unfoldable pub length_of_signed : Line → Result NumberError ℤ → Result Error Length
length_of_signed line (err cause) = err (Error.number line cause)
length_of_signed line (ok (pos n)) = ok (Length.count n)
length_of_signed line (ok (negsuc n)) =
    if n == 0 then ok Length.nil else err (Error.length line (negsuc n))

abbrev pub starts_with : ℕ → Bytes → Bool
starts_with b [] = false
starts_with b (c ∷ _) = c == b

-- `Number::length`
unfoldable pub number_length : Bytes → (body : ℕ) → Line → Result Error Length
unfolding length_of_signed
number_length bytes body line =
    if not (starts_with b'-' bytes)
    then elim (unsigned bytes body) [
      | ok value ↦ ok (Length.count value)
      | err cause ↦ err (Error.number line cause)
    ]
    else length_of_signed line (signed bytes body)
