-- ===== src/Pg/Scram/Positive.antt =====
-- pg/src/protocol/scram/parser.rs: `positive_u32` reads a canonical decimal number.
use cartel.Base.{
  Bool-cases, [], arith, inl, inr, leb, leb→le, ok, u32_max, ℕ, ◌*◌, ◌+◌, ◌-◌, ◌<◌, ◌==◌, ◌∷◌, ◌≡◌,
  ◌≢◌, ◌≤◌, ◌↔◌, ◌∙◌, ap, sym,
}
use cartel.Pg.Wire.{Wire}
use cartel.Pg.Scram.Messages.{positive_u32, positive_from, is_digit}
use cartel.Resp.Number.Decimal.{decimal_from, AllDigits, decimal_from-grows}

-- a canonical number: digits, of which the first is not zero
unfoldable pub Canonical : Wire → Type 0
Canonical [] = ⊥
Canonical (b ∷ bs) = (b ≢ b'0') × AllDigits (b ∷ bs)

positive_from_sound :
    (value start relative : ℕ) (ds : Wire) {n : ℕ}
    → value ≤ u32_max
    → positive_from value start relative ds ≡ ok n
    → AllDigits ds × (n ≡ decimal_from value ds) × (0 < n) × (n ≤ u32_max)
unfolding positive_from decimal_from AllDigits
positive_from_sound value start relative [] le e = (tt, ground arith, ground arith, ground arith)
positive_from_sound value start relative (d ∷ ds) {n} le e = elim (Bool-cases (is_digit d)) [
  | inr bad ↦ absurd (ground arith)
  | inl digit ↦ elim (Bool-cases (leb (value * 10 + (d - b'0')) u32_max)) [
    | inr over ↦ absurd (ground arith)
    | inl fits ↦
        let (all, is, pos, top) =
          positive_from_sound (value * 10 + (d - b'0')) start (relative + 1) ds {n = n}
            (omega (arith, leb→le (value * 10 + (d - b'0')) u32_max fits)) (ground arith) in
        (((ground arith, ground arith), all), is, pos, top)
  ]
]

-- a number that is read
positive_u32_sound :
    (ds : Wire) (start : ℕ) {n : ℕ}
    → positive_u32 ds start ≡ ok n
    → Canonical ds × (n ≡ decimal_from 0 ds) × (0 < n) × (n ≤ u32_max)
unfolding positive_u32 Canonical
positive_u32_sound [] start e = absurd (cc)
positive_u32_sound (d ∷ ds) start {n} e = elim (Bool-cases (d == b'0')) [
  | inl zeros ↦ absurd (ground arith)
  | inr other ↦
      let (all, is, pos, top) =
        positive_from_sound 0 start 0 (d ∷ ds) {n = n} (omega arith) (ground arith) in
      ((λ z. ground arith, all), is, pos, top)
]

positive_from_reads :
    (value start relative : ℕ) (ds : Wire)
    → AllDigits ds
    → 0 < decimal_from value ds
    → decimal_from value ds ≤ u32_max
    → positive_from value start relative ds ≡ ok (decimal_from value ds)
unfolding positive_from decimal_from AllDigits
positive_from_reads value start relative [] all pos le = ground arith
positive_from_reads value start relative (d ∷ ds) all pos le =
    let more = decimal_from-grows (value * 10 + (d - b'0')) ds in
    let ih = positive_from_reads (value * 10 + (d - b'0')) start (relative + 1) ds all.1 pos le in
    ground arith

-- digits that are read
positive_u32_reads :
    (ds : Wire) (start : ℕ)
    → Canonical ds
    → decimal_from 0 ds ≤ u32_max
    → positive_u32 ds start ≡ ok (decimal_from 0 ds)
unfolding positive_u32 Canonical decimal_from AllDigits
positive_u32_reads [] start h le = absurd h
positive_u32_reads (d ∷ ds) start h le =
    let more = decimal_from-grows (0 * 10 + (d - b'0')) ds in
    let read = positive_from_reads 0 start 0 (d ∷ ds) h.1 (omega (arith, h.0, h.1.0.0)) le in
    ground arith

-- A SCRAM iteration count is read exactly if the bytes are a canonical decimal number that a u32 can hold,
-- and then it is their value.
pub positive_u32_exact :
    (ds : Wire) (start : ℕ) {n : ℕ}
    → (positive_u32 ds start ≡ ok n) ↔ (Canonical ds × (n ≡ decimal_from 0 ds) × (n ≤ u32_max))
positive_u32_exact ds start {n = n} = (to, from)
  where
    to : positive_u32 ds start ≡ ok n → Canonical ds × (n ≡ decimal_from 0 ds) × (n ≤ u32_max)
    to e = let (form, value, above, fits) = positive_u32_sound ds start e in (form, value, fits)

    from : Canonical ds × (n ≡ decimal_from 0 ds) × (n ≤ u32_max) → positive_u32 ds start ≡ ok n
    from (form, value, fits) =
        positive_u32_reads ds start form (omega (arith, value, fits)) ∙ ap ok (sym value)
