-- ===== src/Resp/Encode/Exact.antt =====
-- redis/src/request/encode/mod.rs: the reserved length is the length of what is written.
use cartel.Base.{
  Bool-cases, List, Option, Result, [], and_then, arith, err, i64_max, inl, inr, length,
  length-append, none, ok, refl, some, suc, u64_max, zero, ℕ, ◌%◌, ◌++◌, ◌+◌, ◌/◌, ◌==◌, ◌>>=◌, ◌∷◌,
  ◌≡◌, ◌≤◌,
}
use cartel.Resp.Types.{Bytes}
use cartel.Resp.Digits.{format_header, write_digits, digits_from, unsigned-write_digits}
use cartel.Resp.Encode.{
  digits_in, digits, RequestError, bulk_bytes, bulks_bytes, command_bytes, length_add, length_array,
  length_bulk, length_bulks, number_new, reserved_length,
}

digits_from-length :
    (room value : ℕ) (behind : Bytes) {ds : Bytes}
    → digits_from room value behind ≡ some ds
    → length ds ≡ digits_in room value + length behind
unfolding digits_from digits_in
digits_from-length zero value behind e = absurd (cc)
digits_from-length (suc room) value behind {ds} e = elim (Bool-cases (value / 10 == 0)) [
  | inl last ↦ ground arith
  | inr more ↦
      let ih = digits_from-length room (value / 10) ((b'0' + value % 10) ∷ behind) {ds = ds} in
      ground arith
]

-- bytes of a length, which are there
pub HasLength : ℕ → Option Bytes → Type 0
HasLength n none = ⊥
HasLength n (some bs) = length bs ≡ n

format_header-HasLength :
    (marker value : ℕ) → value ≤ u64_max → HasLength (3 + digits value) (format_header marker value)
unfolding write_digits HasLength
format_header-HasLength marker value h =
    let (ds, written, _) = unsigned-write_digits value 0 h in
    rw written
      (omega (arith, digits_from-length 20 value [] written, length-append ds (b'\r' ∷ b'\n' ∷ [])))

HasLength-and_then :
    {n : ℕ} (m : ℕ) (o : Option Bytes) (f : Bytes → Option Bytes)
    → HasLength n o
    → ((bs : Bytes) → length bs ≡ n → HasLength m (f bs))
    → HasLength m (and_then o f)
unfolding HasLength
HasLength-and_then m none f h next = absurd h
HasLength-and_then m (some bs) f h next = next bs h

digits_in-le : (room value : ℕ) → digits_in room value ≤ room
unfolding digits_in
digits_in-le zero value = omega arith
digits_in-le (suc room) value = ground (arith, digits_in-le room (value / 10))

length_bulk-sum :
    (total len : ℕ) {sum : ℕ}
    → length_bulk total len ≡ ok sum
    → (sum ≡ total + (5 + digits len + len)) × (len ≤ i64_max)
unfolding length_bulk length_add number_new
length_bulk-sum total len {sum} e = ground arith

bulk_bytes-HasLength :
    (payload : Bytes)
    → length payload ≤ i64_max
    → HasLength (5 + digits (length payload) + length payload) (bulk_bytes payload)
unfolding bulk_bytes HasLength
bulk_bytes-HasLength payload h =
    HasLength-and_then _ (format_header b'$' (length payload)) _
      (format_header-HasLength b'$' (length payload) (omega arith))
      (λ header size. omega (
        arith,
        size,
        length-append header (payload ++ b'\r' ∷ b'\n' ∷ []),
        length-append payload (b'\r' ∷ b'\n' ∷ []),
      ))

length_bulks-HasLength :
    (total : ℕ) (arguments : List Bytes) {sum : ℕ}
    → length_bulks total arguments ≡ ok sum
    → (n : ℕ) × (sum ≡ total + n) × HasLength n (bulks_bytes arguments)
unfolding length_bulks bulks_bytes HasLength
length_bulks-HasLength total [] e = (0, ground arith, refl)
length_bulks-HasLength total (argument ∷ rest) {sum} e =
    at (λ next. length_bulks-HasLength next rest) (length_bulk total (length argument)) refl e
  where
    at :
        ((next : ℕ)
          → length_bulks next rest ≡ ok sum
          → (n : ℕ) × (sum ≡ next + n) × HasLength n (bulks_bytes rest))
        → (r : Result RequestError ℕ) → length_bulk total (length argument) ≡ r
        → (r >>= λ next. length_bulks next rest) ≡ ok sum
        → (n : ℕ) × (sum ≡ total + n) × HasLength n (bulks_bytes (argument ∷ rest))
    at ih (err reason) l e = absurd (cc)
    at ih (ok next) l e =
        let (first, small) = length_bulk-sum total (length argument) l in
        let (m, is, others) = ih next e in
        (
          5 + digits (length argument) + length argument + m,
          omega (arith, first, is),
          HasLength-and_then _ (bulk_bytes argument) _ (bulk_bytes-HasLength argument small)
              (λ bs size.
                HasLength-and_then _ (bulks_bytes rest) _ others
                  (λ more sizes. omega (arith, size, sizes, length-append bs more))),
        )

-- If a length is reserved for a command, then the command is written, and has this length.
pub reserved_length-HasLength :
    (prefix tail : List Bytes) {total : ℕ}
    → reserved_length prefix tail ≡ ok total
    → HasLength total (command_bytes prefix tail)
unfolding reserved_length length_array length_add number_new command_bytes HasLength
reserved_length-HasLength prefix tail {total} e =
    let count = length prefix + length tail in
    let (fits, body) = split in
    let (n, is, bulks) = length_bulks-HasLength (3 + digits count) (prefix ++ tail) body in
    HasLength-and_then _ (format_header b'*' count) _
      (format_header-HasLength b'*' count (omega arith))
      (λ header size.
        HasLength-and_then _ (bulks_bytes (prefix ++ tail)) _ bulks
          (λ more sizes. omega (arith, is, size, sizes, length-append header more)))
  where
    split :
        (length prefix + length tail ≤ i64_max)
        × (length_bulks (3 + digits (length prefix + length tail)) (prefix ++ tail) ≡ ok total)
    split = ground (arith, digits_in-le 20 (length prefix + length tail))
