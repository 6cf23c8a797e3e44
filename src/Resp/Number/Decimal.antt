-- ===== src/Resp/Number/Decimal.antt =====
-- redis/src/protocol/parser/number.rs: the unsigned numbers, against their decimal value.
use native.Mathlib.Decide.{dec_lt}
use cartel.Base.{
  Bool-cases, [], arith, err, inl, inr, leb, leb→le, length, ltb, ok, refl, u64_max, ℕ, ◌*◌, ◌+◌,
  ◌-◌, ◌<◌, ◌∷◌, ◌≡◌, ◌≤◌, ◌↔◌, ◌∙◌, ap, sym,
}
use cartel.Resp.Number.{unsigned_from, digit_of, offset, unsigned}
use cartel.Resp.Types.{Bytes, NumberError}

-- the value that `digits` have behind a prefix of value `value`
unfoldable pub decimal_from : (value : ℕ) → Bytes → ℕ
decimal_from value [] = value
decimal_from value (d ∷ ds) = decimal_from (value * 10 + (d - b'0')) ds

-- digits, and nothing else
unfoldable pub AllDigits : Bytes → Type 0
AllDigits [] = Unit
AllDigits (d ∷ ds) = ((b'0' ≤ d) × (d ≤ b'9')) × AllDigits ds

-- bytes
unfoldable pub AllBytes : Bytes → Type 0
AllBytes [] = Unit
AllBytes (d ∷ ds) = (d < 256) × AllBytes ds

pub decimal_from-grows : (value : ℕ) (ds : Bytes) → value ≤ decimal_from value ds
unfolding decimal_from
decimal_from-grows value [] = omega arith
decimal_from-grows value (d ∷ ds) =
    let more = decimal_from-grows (value * 10 + (d - b'0')) ds in omega arith

unsigned_from-reads :
    (value body index : ℕ) (ds : Bytes)
    → AllDigits ds
    → decimal_from value ds ≤ u64_max
    → unsigned_from value body index ds ≡ ok (decimal_from value ds)
unfolding decimal_from AllDigits unsigned_from
unsigned_from-reads value body index [] all h = refl
unsigned_from-reads value body index (d ∷ ds) all h =
    let more = decimal_from-grows (value * 10 + (d - b'0')) ds in
    let ih = unsigned_from-reads (value * 10 + (d - b'0')) body (index + 1) ds all.1 h in
    ground arith

-- a number that is too large stops at the digit where its value leaves the range
unsigned_from-overflows :
    (value body index : ℕ) (ds : Bytes)
    → AllDigits ds
    → value ≤ u64_max
    → u64_max < decimal_from value ds
    → (at : ℕ) × (unsigned_from value body index ds ≡ err (NumberError.overflow at))
unfolding decimal_from AllDigits unsigned_from
unsigned_from-overflows value body index [] all le h = absurd (omega arith)
unsigned_from-overflows value body index (d ∷ ds) all le h =
    elim (Bool-cases (leb (value * 10 + (d - b'0')) u64_max)) [
      | inl fits ↦
          let (at, ih) =
            unsigned_from-overflows (value * 10 + (d - b'0')) body (index + 1) ds all.1
              (omega (arith, leb→le (value * 10 + (d - b'0')) u64_max fits)) h in
          (at, ground arith)
      | inr over ↦ (offset body index, ground arith)
    ]

-- the converse: what `unsigned_from` accepts is all digits
unsigned_from_sound :
    (value body index : ℕ) (ds : Bytes) {n : ℕ}
    → AllBytes ds
    → unsigned_from value body index ds ≡ ok n
    → AllDigits ds × (n ≡ decimal_from value ds)
unfolding decimal_from AllDigits unsigned_from AllBytes
unsigned_from_sound value body index [] bytes e = (tt, ground arith)
unsigned_from_sound value body index (d ∷ ds) {n} bytes e = elim (Bool-cases (ltb 9 (digit_of d))) [
  | inl bad ↦ absurd (ground arith)
  | inr digit ↦ elim (Bool-cases (leb (value * 10 + (d - b'0')) u64_max)) [
    | inl fits ↦
        let ih =
          unsigned_from_sound (value * 10 + (d - b'0')) body (index + 1) ds {n = n} bytes.1 in
        ground arith
    | inr over ↦ absurd (ground arith)
  ]
]

-- a number that is read
unsigned_sound :
    (ds : Bytes) (body : ℕ) {n : ℕ}
    → AllBytes ds
    → unsigned ds body ≡ ok n
    → (0 < length ds) × AllDigits ds × (n ≡ decimal_from 0 ds)
unfolding unsigned
unsigned_sound [] body bytes e = absurd (cc)
unsigned_sound (d ∷ ds) body bytes e =
    let (all, value) = unsigned_from_sound 0 body 0 (d ∷ ds) bytes e in (omega arith, all, value)

-- digits that are read; the builder of numbers uses it too
pub unsigned-decimal :
    (ds : Bytes) (body : ℕ)
    → AllDigits ds
    → 0 < length ds
    → decimal_from 0 ds ≤ u64_max
    → unsigned ds body ≡ ok (decimal_from 0 ds)
unfolding unsigned
unsigned-decimal [] body all some_digit h = absurd (omega arith)
unsigned-decimal (d ∷ ds) body all some_digit h = unsigned_from-reads 0 body 0 (d ∷ ds) all h

-- digits that are too many
unsigned-overflows :
    (ds : Bytes) (body : ℕ)
    → AllDigits ds
    → 0 < length ds
    → u64_max < decimal_from 0 ds
    → (at : ℕ) × (unsigned ds body ≡ err (NumberError.overflow at))
unfolding unsigned
unsigned-overflows [] body all some_digit h = absurd (omega arith)
unsigned-overflows (d ∷ ds) body all some_digit h =
    unsigned_from-overflows 0 body 0 (d ∷ ds) all (omega arith) h

-- Of any line of bytes: a number is read exactly if the line is one digit or more, the number is their
-- decimal value, and a u64 can hold it.
pub unsigned_exact :
    (ds : Bytes) (body : ℕ) {n : ℕ}
    → AllBytes ds
    → (unsigned ds body ≡ ok n)
      ↔ ((0 < length ds) × AllDigits ds × (n ≡ decimal_from 0 ds) × (n ≤ u64_max))
unsigned_exact ds body {n = n} bytes = (to, from)
  where
    to :
        unsigned ds body ≡ ok n
        → (0 < length ds) × AllDigits ds × (n ≡ decimal_from 0 ds) × (n ≤ u64_max)
    to e =
        let (some_digit, all, value) = unsigned_sound ds body bytes e in
        (
          some_digit,
          all,
          value,
          elim (dec_lt u64_max n) [
            | yes large ↦
                let (at, over) =
                  unsigned-overflows ds body all some_digit (omega (arith, large, value)) in
                absurd (cc)
            | no fits ↦ omega arith
          ],
        )

    from :
        (0 < length ds) × AllDigits ds × (n ≡ decimal_from 0 ds) × (n ≤ u64_max)
        → unsigned ds body ≡ ok n
    from (some_digit, all, value, fits) =
        unsigned-decimal ds body all some_digit (omega (arith, value, fits)) ∙ ap ok (sym value)
