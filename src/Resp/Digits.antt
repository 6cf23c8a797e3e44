-- ===== src/Resp/Digits.antt =====
-- core/src/lib.rs: `write_digits`, and the header of redis/src/request/encode/mod.rs that it writes.
use cartel.Base.{
  Bool-cases, Option, [], and_then, ap, arith, if◌then◌else◌, inl, inr, length, none, ok, refl,
  some, suc, u64_max, zero, ℕ, ◌%◌, ◌*◌, ◌++◌, ◌+◌, ◌/◌, ◌<◌, ◌==◌, ◌∙◌, ◌∷◌, ◌≡◌, ◌≢◌, ◌≤◌,
}
use cartel.Resp.Types.{Bytes}
use cartel.Resp.Number.{unsigned}
use cartel.Resp.Number.Decimal.{decimal_from, AllDigits, unsigned-decimal}

-- the loop of `write_digits`, into the suffix `behind` of a buffer with `room` bytes before it; an index
-- below the buffer is `none`
unfoldable pub digits_from : (room value : ℕ) → (behind : Bytes) → Option Bytes
digits_from zero value behind = none
digits_from (suc room) value behind =
    let rest = digits_from room (value / 10) ((b'0' + value % 10) ∷ behind) in
    if value / 10 == 0 then some ((b'0' + value % 10) ∷ behind) else rest

-- `write_digits`: the suffix of the buffer that it writes
unfoldable pub write_digits : (value : ℕ) → Option Bytes
unfolding digits_from
write_digits value = digits_from 20 value []

-- `format_header_into`
abbrev pub format_header : (marker value : ℕ) → Option Bytes
format_header marker value =
    and_then (write_digits value) (λ ds. some (marker ∷ (ds ++ b'\r' ∷ b'\n' ∷ [])))

pow10 : ℕ → ℕ
pow10 zero = 1
pow10 (suc n) = 10 * pow10 n

-- digits for `value` before the digits `behind`
record Writes (value : ℕ) (behind : Bytes) (r : Option Bytes) : Type 0 where
  digits : Bytes
  written : r ≡ some digits
  all_digits : AllDigits digits
  some_digit : 0 < length digits
  reads : decimal_from 0 digits ≡ decimal_from value behind

some_room : (room value : ℕ) → value < pow10 (suc room) → value / 10 ≢ 0 → 0 < room
unfolding pow10
some_room zero value h more = absurd (more (omega arith))
some_room (suc room) value h more = omega arith

digits_from-Writes :
    (room value : ℕ) (behind : Bytes)
    → AllDigits behind
    → value < pow10 room
    → 0 < room
    → Writes value behind (digits_from room value behind)
unfolding digits_from pow10 AllDigits decimal_from
digits_from-Writes zero value behind all h pos = absurd (omega arith)
digits_from-Writes (suc room) value behind all h pos = elim (Bool-cases (value / 10 == 0)) [
  | inl last ↦ rw last (record {
    digits = (b'0' + value % 10) ∷ behind;
    written = refl;
    all_digits = ((omega arith, omega arith), all);
    some_digit = omega arith;
    reads = ap (λ v. decimal_from v behind) (ground arith);
  })
  | inr more ↦ rw more (
      go (
        digits_from-Writes room (value / 10) ((b'0' + value % 10) ∷ behind)
          ((omega arith, omega arith), all) (omega arith)
          (some_room room value h (λ z. ground arith))))
]
  where
    go :
        {r : Option Bytes}
        → Writes (value / 10) ((b'0' + value % 10) ∷ behind) r
        → Writes value behind r
    go w = record {
      digits = w.digits;
      written = w.written;
      all_digits = w.all_digits;
      some_digit = w.some_digit;
      reads = w.reads ∙ ap (λ v. decimal_from v behind) (omega arith);
    }

-- Of a u64: its digits fit in the buffer of twenty bytes, and `Number::unsigned` reads the value back
-- from them.
pub unsigned-write_digits :
    (value body : ℕ)
    → value ≤ u64_max
    → (ds : Bytes) × (write_digits value ≡ some ds) × (unsigned ds body ≡ ok value)
unfolding write_digits pow10 decimal_from AllDigits
unsigned-write_digits value body h =
    let w = digits_from-Writes 20 value [] tt (omega arith) (omega arith) in
    (
      w.digits,
      w.written,
      unsigned-decimal w.digits body w.all_digits w.some_digit (omega (arith, w.reads))
          ∙ ap ok w.reads,
    )
