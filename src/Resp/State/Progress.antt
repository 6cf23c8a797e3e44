-- ===== src/Resp/State/Progress.antt =====
-- A round of the scanner moves its cursor on, inside the buffer, or returns; and it waits in a
-- marker or in a bulk only with nothing changed.
use cartel.Base.{
  Bool-cases, Option, Result, arith, err, inl, inr, length, none, not, ok, refl, some, ℕ, ◌+◌, ◌-◌,
  ◌<◌, ◌==◌, ◌≡◌, ◌≤◌,
}
use cartel.Base.Int.{ℤ}
use cartel.Resp.Number.{number_length, Length, signed}
use cartel.Resp.State.{admit_line, bad_line, scan_value, close_bulk}
use cartel.Resp.Interface.{Pushed}
use cartel.Resp.Limit.{
  frame_body, Brand, Exceeded, Found, found_stop, frame_line, frame_next, value_array,
  bound_consumed, end_consumed,
}
use cartel.Resp.Limit.Bounds.{IsBound, frame_body-bounds, frame_line-bounds}
use cartel.Resp.Node.{Kind}
use cartel.Resp.Limit.Resume.{resume_at}
use cartel.Resp.Mode.{Round, Scan, State, Mode, Restore, cursor, in_mode}
use cartel.Resp.Settle.{
  complete_reply, Setting, admit_bulk, open_array, push, push_line, settle, admit_array, reject,
  scan_integer, scan_length,
}
use cartel.Resp.Body
use cartel.Resp.Types.{Bytes, Line, Error, NumberError}

-- what a mode promises of the buffer `p` that it was left with
abbrev pub ModeFits : {E F S : Type 0} → Setting E F S → Bytes → (scan : ℕ) → Mode → Type 0
ModeFits c p scan Mode.start = Unit
ModeFits c p scan (Mode.marker end) = Unit
ModeFits c p scan (Mode.line kind start slot) = scan ≤ resume_at p start
ModeFits c p scan (Mode.bulk body slot) =
    (Body.start body ≤ Body.stop body) × (Body.stop body + 2 ≤ c.byte_max.value)

pub record Fits {E F S : Type 0} (c : Setting E F S) (p : Bytes) (s : State) : Type 0 where
  pub cursor_in : cursor s.mode ≤ length p
  pub scan_in : s.scan ≤ length p
  pub mode_fits : ModeFits c p s.scan s.mode

-- the outcome of a round from a cursor at `lo`
abbrev pub Proceeds : {E F S : Type 0} → Setting E F S → Bytes → (lo : ℕ) → Round E F S → Type 0
Proceeds c p lo (Round.again s b) = (lo < cursor s.mode) × Fits c p s
Proceeds c p lo (Round.return Scan.pending s b) = ⊥
Proceeds c p lo (Round.return Scan.out_of_fuel s b) = ⊥
Proceeds c p lo (Round.return _ s b) = Unit

module _ {E F S : Type 0} (c : Setting E F S) (p : Bytes) (lo end : ℕ) (s : State) (on : lo < end)
    (inside : end ≤ length p) (scanned : s.scan ≤ length p) where
  Proceeds-settle : (b : S) (count : ℕ) → Proceeds c p lo (settle c p s b end count)
  unfolding settle complete_reply
  Proceeds-settle b count = ground arith

  Proceeds-push :
      (b : S) (slot : ℕ) (kind : Kind) (restore : Restore) (next : S → Round E F S)
      → ((b' : S) → Proceeds c p lo (next b'))
      → Proceeds c p lo (push c p s b slot kind restore next)
  unfolding push
  Proceeds-push b slot kind restore next h = at (c.store.try_push b slot kind) refl
    where
      at :
          (r : Pushed S)
          → c.store.try_push b slot kind ≡ r
          → Proceeds c p lo (push c p s b slot kind restore next)
      at (Pushed.stored b') e = rw (e, push) (h b')
      at (Pushed.blocked n b') e = rw (e, push) tt
      at (Pushed.full n b') e = rw (e, push) tt

module _ {E F S : Type 0} (c : Setting E F S) (p : Bytes) (lo : ℕ) (s : State) (b : S) where
  pub Proceeds-invalid :
      (amount : ℕ) (error : Error) → Proceeds c p lo (reject c p s b amount (Scan.invalid error))
  Proceeds-invalid amount error = at (c.input.try_consumed p amount) refl
    where
      at :
          (o : Option E)
          → c.input.try_consumed p amount ≡ o
          → Proceeds c p lo (reject c p s b amount (Scan.invalid error))
      at none e = rw (e, Proceeds) tt
      at (some cause) e = rw (e, Proceeds) tt

  pub Proceeds-frame_capacity :
      (amount : ℕ) (error : Exceeded Brand.frame)
      → Proceeds c p lo (reject c p s b amount (Scan.frame_capacity error))
  Proceeds-frame_capacity amount error = at (c.input.try_consumed p amount) refl
    where
      at :
          (o : Option E)
          → c.input.try_consumed p amount ≡ o
          → Proceeds c p lo (reject c p s b amount (Scan.frame_capacity error))
      at none e = rw (e, Proceeds) tt
      at (some cause) e = rw (e, Proceeds) tt

  pub Proceeds-value_capacity :
      (amount : ℕ) (error : Exceeded Brand.value)
      → Proceeds c p lo (reject c p s b amount (Scan.value_capacity error))
  Proceeds-value_capacity amount error = at (c.input.try_consumed p amount) refl
    where
      at :
          (o : Option E)
          → c.input.try_consumed p amount ≡ o
          → Proceeds c p lo (reject c p s b amount (Scan.value_capacity error))
      at none e = rw (e, Proceeds) tt
      at (some cause) e = rw (e, Proceeds) tt

module _ {E F S : Type 0} (c : Setting E F S) (p : Bytes) (lo end : ℕ) (s : State) (on : lo < end)
    (inside : end ≤ length p) (scanned : s.scan ≤ length p) where
  Proceeds-push_line :
      (b : S) (kind : Line) (start slot : ℕ) (value : Kind)
      → Proceeds c p lo (push_line c p s b kind start slot end value)
  unfolding push_line
  Proceeds-push_line b kind start slot value =
      Proceeds-push c p lo end s on inside scanned b slot value _ _
        (λ b'. Proceeds-settle c p lo end (in_mode s Mode.start) on inside scanned b' _)

  Proceeds-open_array :
      (b : S) (start slot count : ℕ) → Proceeds c p lo (open_array c p s b start slot end count)
  unfolding open_array
  Proceeds-open_array b start slot count = elim (Bool-cases (count == 0)) [
    | inl z ↦ rw z (
        Proceeds-push c p lo end s on inside scanned b slot _ _ _
          (λ b'. Proceeds-settle c p lo end (in_mode s Mode.start) on inside scanned b' _))
    | inr nz ↦ rw nz (elim (Bool-cases (c.input.vacancy s.left)) [
      | inl room ↦ rw room (
          Proceeds-push c p lo end s on inside scanned b slot _ _ _
            (λ b'. (on, record { cursor_in = inside; scan_in = scanned; mode_fits = tt })))
      | inr deep ↦ rw deep (Proceeds-invalid c p lo s b _ _)
    ])
  ]

  Proceeds-admit_array :
      (b : S) (start slot : ℕ) (r : Result (Exceeded Brand.value) ℕ)
      → Proceeds c p lo (admit_array c p s b start slot end r)
  unfolding admit_array
  Proceeds-admit_array b start slot (ok count) = Proceeds-open_array b start slot count
  Proceeds-admit_array b start slot (err error) = Proceeds-value_capacity c p lo s b _ error

  Proceeds-admit_bulk :
      IsBound c.byte_max
      → end ≤ c.byte_max.value
      → (b : S) (slot n : ℕ)
      → Proceeds c p lo (admit_bulk c p s b slot end (frame_body c.byte_max end n))
  unfolding admit_bulk
  Proceeds-admit_bulk v le b slot n = at (frame_body c.byte_max end n) refl
    where
      at :
          (r : Result (Exceeded Brand.frame) ℕ)
          → frame_body c.byte_max end n ≡ r
          → Proceeds c p lo (admit_bulk c p s b slot end r)
      at (err error) e = Proceeds-frame_capacity c p lo s b _ error
      at (ok body) e =
          let (starts, stops, fits) = frame_body-bounds v end n le e in
          (
            omega arith,
            record { cursor_in = omega arith; scan_in = scanned; mode_fits = (omega arith, fits) },
          )

  module _ (v : IsBound c.byte_max) (le : end ≤ c.byte_max.value) where
    Proceeds-scan_length :
        (b : S) (kind : Line) (start slot : ℕ) (n : Result Error Length)
        → Proceeds c p lo (scan_length c p s b kind start slot end n)
    unfolding scan_length
    Proceeds-scan_length b kind start slot (err error) = Proceeds-invalid c p lo s b _ error
    Proceeds-scan_length b kind start slot (ok Length.nil) =
        Proceeds-push_line b kind start slot Kind.nil
    Proceeds-scan_length b Line.bulk start slot (ok (Length.count n)) =
        Proceeds-admit_bulk v le b slot n
    Proceeds-scan_length b _ start slot (ok (Length.count n)) =
        Proceeds-admit_array b start slot (value_array c.node_max (c.store.len b) n)

    Proceeds-scan_integer :
        (b : S) (start slot : ℕ) (r : Result NumberError ℤ)
        → Proceeds c p lo (scan_integer c p s b start slot end r)
    unfolding scan_integer
    Proceeds-scan_integer b start slot (err cause) = Proceeds-invalid c p lo s b _ _
    Proceeds-scan_integer b start slot (ok integer) =
        Proceeds-push_line b Line.integer start slot (Kind.integer integer)

    Proceeds-scan_value :
        (b : S) (kind : Line) (start slot body : ℕ) (value : Bytes)
        → Proceeds c p lo (scan_value c p s b kind start slot end body value)
    unfolding scan_value
    Proceeds-scan_value b Line.status start slot body value =
        Proceeds-push_line b Line.status start slot _
    Proceeds-scan_value b Line.server start slot body value =
        Proceeds-push_line b Line.server start slot _
    Proceeds-scan_value b Line.integer start slot body value =
        Proceeds-scan_integer b start slot (signed value body)
    Proceeds-scan_value b kind start slot body value =
        Proceeds-scan_length b kind start slot (number_length value body kind)

module _ {E F S : Type 0} (c : Setting E F S) (v : IsBound c.byte_max) (p : Bytes) (s : State)
    (f : Fits c p s) (b : S) where
  -- a line that has its CRLF
  pub Proceeds-admit_line :
      (kind : Line) (start slot : ℕ) (found : Found)
      → start ≤ found_stop found
      → found_stop found + 2 ≤ length p
      → Proceeds c p start
          (admit_line c p s b kind start slot found.value (frame_line c.byte_max found))
  unfolding admit_line
  Proceeds-admit_line kind start slot found le inside = at (frame_line c.byte_max found) refl
    where
      at :
          (r : Result (Exceeded Brand.frame) (ℕ × ℕ))
          → frame_line c.byte_max found ≡ r
          → Proceeds c p start (admit_line c p s b kind start slot found.value r)
      at (err error) e = Proceeds-frame_capacity c p start s b _ error
      at (ok (end, body)) e =
          let (ends, fits, _, _) = frame_line-bounds v found e in
          Proceeds-scan_value c p start end s (omega arith) (omega arith) f.scan_in v fits b kind
            start slot body found.value

  pub Proceeds-stray :
      (lo offset expected actual : ℕ)
      → Proceeds c p lo (bad_line c p s b (offset, expected, actual))
  unfolding bad_line
  Proceeds-stray lo offset expected actual = at (frame_next c.byte_max offset) refl
    where
      at :
          (r : Result (Exceeded Brand.frame) ℕ)
          → frame_next c.byte_max offset ≡ r
          → Proceeds c p lo (bad_line c p s b (offset, expected, actual))
      at (ok end) e =
          rw (e, bad_line)
            (Proceeds-invalid c p lo s b (end_consumed end)
              (Error.terminator (end - 1) expected actual))
      at (err error) e =
          rw (e, bad_line) (Proceeds-frame_capacity c p lo s b (bound_consumed c.byte_max) error)

  pub Proceeds-close_bulk :
      (body slot cr lf : ℕ)
      → (Body.start body ≤ Body.stop body) × (Body.stop body + 2 ≤ c.byte_max.value)
      → Body.stop body + 2 ≤ length p
      → Proceeds c p (Body.start body) (close_bulk c p s b body slot cr lf)
  unfolding close_bulk
  Proceeds-close_bulk body slot cr lf (ordered, fits) inside =
      elim (Bool-cases (not (cr == b'\r'))) [
        | inl bad ↦ rw bad (Proceeds-invalid c p (Body.start body) s b _ _)
        | inr good ↦ rw good (elim (Bool-cases (not (lf == b'\n'))) [
          | inl bad ↦ rw bad (Proceeds-invalid c p (Body.start body) s b _ _)
          | inr good ↦ rw good (
              Proceeds-push c p (Body.start body) (Body.end body) s (omega (arith, v.fits))
                (omega (arith, v.fits)) f.scan_in b slot _ _ _
                (λ b'.
                  Proceeds-settle c p (Body.start body) (Body.end body) (in_mode s Mode.start)
                    (omega (arith, v.fits)) (omega (arith, v.fits)) f.scan_in b' _))
        ])
      ]
