-- ===== src/Resp/State/Waiting.antt =====
-- The three ways that a round ends: it goes on further to the right, it waits for more bytes, or it
-- reports.
use cartel.Base.{
  Option, Result, ap, arith, drop, err, get_elem?, length, length-drop, lt_of_get_elem?, none, ok,
  refl, some, ℕ, ◌+◌, ◌-◌, ◌<◌, ◌∷◌, ◌≡◌, ◌≤◌,
}
use cartel.Resp.Limit.{
  find, Found, BadBreak, Brand, Exceeded, bound_consumed, frame_check, end_consumed, frame_next,
  frame_line,
}
use cartel.Resp.Limit.Bounds.{IsBound, find-bounds, frame_next-bounds}
use cartel.Resp.Limit.Resume.{resume_at}
use cartel.Resp.Mode.{Mode, cursor, Round, State, Scan, in_mode}
use cartel.Resp.Settle.{Setting, reject}
use cartel.Resp.State.{
  scan_bulk, found_line, scan_marker, bulk_tail, marker_kind, scan_line, wait_line, admit_marker,
  admit_slot, line_of_marker, round, round_in, admit_line, bad_line, close_bulk,
}
use cartel.Resp.State.Erase.{at_scan}
use cartel.Resp.State.Progress.{
  Fits, Proceeds-admit_line, Proceeds-stray, Proceeds, Proceeds-close_bulk, Proceeds-frame_capacity,
  Proceeds-value_capacity, Proceeds-invalid,
}
use cartel.Resp.Body
use cartel.Resp.Types.{Bytes, Line, Error}

-- a wait leaves all as it was, but for the mark of a line with no CRLF
pub data Waits {E F S : Type 0} (c : Setting E F S) (p : Bytes) (s : State) (b : S) (s' : State)
    (b' : S) : Type 0 where
  same : s' ≡ s → b' ≡ b → Waits c p s b s' b'
  open_line :
      (kind : Line) (start slot : ℕ)
      → s.mode ≡ Mode.line kind start slot
      → find p start s.scan kind ≡ ok none
      → s' ≡ at_scan s (resume_at p start)
      → b' ≡ b
      → Waits c p s b s' b'

-- what a round does, from a cursor at `lo`
abbrev pub Ends :
    {E F S : Type 0} → Setting E F S → Bytes → State → S → (lo : ℕ) → Round E F S → Type 0
Ends c p s b lo (Round.again s' b') = (lo < cursor s'.mode) × Fits c p s'
Ends c p s b lo (Round.return Scan.pending s' b') = Waits c p s b s' b'
Ends c p s b lo (Round.return Scan.out_of_fuel s' b') = ⊥
Ends c p s b lo (Round.return _ s' b') = Unit

module _ {E F S : Type 0} (c : Setting E F S) (v : IsBound c.byte_max) (p : Bytes) (s : State)
    (f : Fits c p s) (b : S) where
  Ends-Proceeds : (lo : ℕ) (r : Round E F S) → Proceeds c p lo r → Ends c p s b lo r
  Ends-Proceeds lo (Round.again s' b') h = h
  Ends-Proceeds lo (Round.return Scan.pending s' b') h = absurd h
  Ends-Proceeds lo (Round.return Scan.out_of_fuel s' b') h = h
  Ends-Proceeds lo (Round.return _ s' b') h = tt

  Ends-reject_invalid :
      (lo : ℕ) (t : State) (n : ℕ) (error : Error)
      → Ends c p s b lo (reject c p t b n (Scan.invalid error))
  Ends-reject_invalid lo t n error =
      Ends-Proceeds lo (reject c p t b n (Scan.invalid error)) (Proceeds-invalid c p lo t b n error)

  Ends-reject_bytes :
      (lo : ℕ) (t : State) (n : ℕ) (error : Exceeded Brand.frame)
      → Ends c p s b lo (reject c p t b n (Scan.frame_capacity error))
  Ends-reject_bytes lo t n error =
      Ends-Proceeds lo (reject c p t b n (Scan.frame_capacity error))
        (Proceeds-frame_capacity c p lo t b n error)

  Ends-reject_value :
      (lo : ℕ) (t : State) (n : ℕ) (error : Exceeded Brand.value)
      → Ends c p s b lo (reject c p t b n (Scan.value_capacity error))
  Ends-reject_value lo t n error =
      Ends-Proceeds lo (reject c p t b n (Scan.value_capacity error))
        (Proceeds-value_capacity c p lo t b n error)

  Ends-marker_kind :
      (end slot m : ℕ)
      → end + 1 ≤ length p
      → Ends c p s b end (
          marker_kind c p
            (record s { scan = end + 1; mode = Mode.marker (end + 1) })
            b
            m
            (end + 1)
            slot)
  unfolding marker_kind
  Ends-marker_kind end slot m inside = at (line_of_marker m)
    where
      t : State
      t = record s { scan = end + 1; mode = Mode.marker (end + 1) }

      at :
          (o : Option Line)
          → Ends c p s b end (elim o [
            | some kind ↦ Round.again (in_mode t (Mode.line kind (end + 1) slot)) b
            | none ↦
                reject c p t b
                  (end_consumed (end + 1))
                  (Scan.invalid (Error.marker (end + 1 - 1) m))
          ])
      at none = Ends-reject_invalid end t (end_consumed (end + 1)) (Error.marker (end + 1 - 1) m)
      at (some kind) =
          (omega arith, record { cursor_in = inside; scan_in = inside; mode_fits = omega arith })

  Ends-admit_slot :
      (end m : ℕ) (r : Result (Exceeded Brand.value) ℕ)
      → end + 1 ≤ length p
      → Ends c p s b end (admit_slot c p s b m (end + 1) r)
  unfolding admit_slot
  Ends-admit_slot end m (ok slot) inside = Ends-marker_kind end slot m inside
  Ends-admit_slot end m (err error) inside = Ends-reject_value end s (end_consumed (end + 1)) error

  Ends-scan_marker : (end : ℕ) → Ends c p s b end (scan_marker c p s b end)
  unfolding scan_marker admit_marker
  Ends-scan_marker end = at (get_elem? p end) refl
    where
      next :
          (m : ℕ) (r : Result (Exceeded Brand.frame) ℕ)
          → end < length p
          → frame_next c.byte_max end ≡ r
          → Ends c p s b end (admit_marker c p s b m r)
      next m (ok e) inside h =
          rw ((frame_next-bounds v end h).0) (Ends-admit_slot end m _ (omega arith))
      next m (err error) inside h = Ends-reject_bytes end s (bound_consumed c.byte_max) error

      at : (o : Option ℕ) → get_elem? p end ≡ o → Ends c p s b end (scan_marker c p s b end)
      at none e = rw (e, scan_marker) (Waits.same refl refl)
      at (some m) e =
          rw (e, scan_marker) (next m (frame_next c.byte_max end) (lt_of_get_elem? end p e) refl)

  Ends-scan_line :
      (kind : Line) (start slot : ℕ)
      → s.mode ≡ Mode.line kind start slot
      → Ends c p s b start (scan_line c p s b kind start slot)
  unfolding scan_line found_line wait_line
  Ends-scan_line kind start slot m = at (find p start s.scan kind) refl
    where
      waits :
          (o : Option (Exceeded Brand.frame))
          → frame_check c.byte_max (length p) ≡ o
          → find p start s.scan kind ≡ ok none
          → Ends c p s b start (wait_line c p s b start)
      waits none o e = rw (o, wait_line) (Waits.open_line kind start slot m e refl refl)
      waits (some error) o e =
          rw (o, wait_line)
            (Ends-reject_bytes start (at_scan s (resume_at p start)) (bound_consumed c.byte_max)
              error)

      at :
          (r : Result BadBreak (Option Found))
          → find p start s.scan kind ≡ r
          → Ends c p s b start (found_line c p s b kind start slot r)
      at (ok (some found)) e =
          let (starts, inside) = find-bounds kind p start s.scan e in
          Ends-Proceeds start
            (admit_line c p s b kind start slot found.value (frame_line c.byte_max found))
            (Proceeds-admit_line c v p s f b kind start slot found (omega arith) inside)
      at (ok none) e = waits (frame_check c.byte_max (length p)) refl e
      at (err (offset, expected, actual)) e =
          Ends-Proceeds start (bad_line c p s b (offset, expected, actual))
            (Proceeds-stray c v p s f b start offset expected actual)

  Ends-scan_bulk :
      (body slot : ℕ)
      → s.mode ≡ Mode.bulk body slot
      → Ends c p s b (Body.start body) (scan_bulk c p s b body slot)
  unfolding scan_bulk
  Ends-scan_bulk body slot m = at (drop (Body.stop body) p) refl
    where
      at :
          (tail : Bytes)
          → drop (Body.stop body) p ≡ tail
          → Ends c p s b (Body.start body) (bulk_tail c p s b body slot tail)
      at (cr ∷ lf ∷ rest) e =
          unfold bulk_tail in
          Ends-Proceeds (Body.start body) (close_bulk c p s b body slot cr lf) (
            Proceeds-close_bulk c v p s f b body slot cr lf (rw m at f.mode_fits)
              (omega (arith, length-drop (Body.stop body) p, ap length e)))
      at _ e = unfold bulk_tail in Waits.same refl refl

  -- Every round ends in one of the three ways.
  pub Ends-round : Ends c p s b (cursor s.mode) (round c p s b)
  unfolding round_in
  Ends-round = at s.mode refl
    where
      at : (m : Mode) → s.mode ≡ m → Ends c p s b (cursor m) (round_in c p m s b)
      at Mode.start e = Ends-scan_marker 0
      at (Mode.marker end) e = Ends-scan_marker end
      at (Mode.line kind start slot) e = Ends-scan_line kind start slot e
      at (Mode.bulk body slot) e = Ends-scan_bulk body slot e
