-- ===== src/Resp/State/Bounded.antt =====
-- The bound on open arrays, over a round, the loop and a whole scan.
use cartel.Base.{
  ℕ, zero, suc, none, some, ok, err, [], inl, inr, Option, Bool-cases, ◌∷◌, Result, drop, ◌-◌, ◌==◌,
  get_elem?, ltb, length, ◌||◌, ◌+◌,
}
use cartel.Resp.Body
use cartel.Resp.Interface.{IsLawful}
use cartel.Resp.Limit.{Brand, Exceeded, end_consumed, find, frame_next, value_next}
use cartel.Resp.Mode.{Mode, Restore, Round, Scan, State, cursor, in_mode, initial}
use cartel.Resp.Node.{Kind}
use cartel.Resp.Settle.{Setting, reject}
use cartel.Resp.State.{
  admit_marker, admit_slot, bulk_tail, close_bulk, line_of_marker, marker_kind, round, round_in,
  scan, scan_bulk, scan_line, scan_loop, scan_marker,
}
use cartel.Resp.State.Depth.{
  IsShallow, Keeps, Settles, initial-IsShallow, mode-IsShallow, push-Keeps, settle-Keeps,
}
use cartel.Resp.State.Shallow.{found_line-Keeps, reject_bound, reject_invalid, reject_value}
use cartel.Resp.Types.{Bytes, Error, Line}

module _ {E F S : Type 0} (c : Setting E F S) (law : IsLawful c.input) (p : Bytes) (s : State)
    (shallow : IsShallow s) where
  marker_kind-Keeps : (b : S) (marker end slot : ℕ) → Keeps (marker_kind c p s b marker end slot)
  unfolding marker_kind
  marker_kind-Keeps b marker end slot = on (line_of_marker marker)
    where
      on :
          (o : Option Line)
          → Keeps (elim o [
            | some kind ↦ Round.again (in_mode s (Mode.line kind end slot)) b
            | none ↦
                reject c p s b (end_consumed end) (Scan.invalid (Error.marker (end - 1) marker))
          ])
      on (some kind) = mode-IsShallow c law p s (Mode.line kind end slot) shallow
      on none =
          reject_invalid c law p s shallow b (end_consumed end) (Error.marker (end - 1) marker)

  close_bulk-Keeps : (b : S) (body slot cr lf : ℕ) → Keeps (close_bulk c p s b body slot cr lf)
  unfolding close_bulk
  close_bulk-Keeps b body slot cr lf = elim (Bool-cases (cr == b'\r')) [
    | inr stray ↦ rw (stray, close_bulk) (reject_invalid c law p s shallow b (Body.consumed body) _)
    | inl returned ↦ elim (Bool-cases (lf == b'\n')) [
      | inr stray ↦
          rw (returned, stray, close_bulk)
            (reject_invalid c law p s shallow b (Body.consumed body) _)
      | inl fed ↦
          rw (returned, fed, close_bulk)
            (push-Keeps c law p s b slot (Kind.bulk body) (Restore.bulk body) _ shallow (λ b'.
              settle-Keeps c law p (in_mode s Mode.start) b' (Body.end body) (Body.consumed body)
                (mode-IsShallow c law p s Mode.start shallow)))
    ]
  ]

  bulk_tail-Keeps :
      (b : S) (body slot : ℕ) (rest : Bytes) → Keeps (bulk_tail c p s b body slot rest)
  unfolding bulk_tail
  bulk_tail-Keeps b body slot [] = shallow
  bulk_tail-Keeps b body slot (cr ∷ []) = shallow
  bulk_tail-Keeps b body slot (cr ∷ lf ∷ rest) = close_bulk-Keeps b body slot cr lf

module _ {E F S : Type 0} (c : Setting E F S) (law : IsLawful c.input) (p : Bytes) where
  admit_slot-Keeps :
      (s : State) (b : S) (marker end : ℕ) (r : Result (Exceeded Brand.value) ℕ)
      → IsShallow s
      → Keeps (admit_slot c p s b marker end r)
  unfolding admit_slot
  admit_slot-Keeps s b marker end (ok slot) shallow =
      marker_kind-Keeps c law p (record s { scan = end; mode = Mode.marker end })
        (record { nonempty = shallow.nonempty; bounded = shallow.bounded }) b marker end slot
  admit_slot-Keeps s b marker end (err error) shallow =
      reject_value c law p s shallow b (end_consumed end) error

  admit_marker-Keeps :
      (s : State) (b : S) (marker : ℕ) (r : Result (Exceeded Brand.frame) ℕ)
      → IsShallow s
      → Keeps (admit_marker c p s b marker r)
  unfolding admit_marker
  admit_marker-Keeps s b marker (ok end) shallow =
      admit_slot-Keeps s b marker end (value_next c.node_max (c.store.len b)) shallow
  admit_marker-Keeps s b marker (err error) shallow = reject_bound c law p s shallow b error

  scan_marker-Keeps : (s : State) (b : S) (at : ℕ) → IsShallow s → Keeps (scan_marker c p s b at)
  unfolding scan_marker
  scan_marker-Keeps s b at shallow = on (get_elem? p at)
    where
      on :
          (o : Option ℕ)
          → Keeps (elim o [
            | none ↦ Round.return Scan.pending s b
            | some marker ↦ admit_marker c p s b marker (frame_next c.byte_max at)
          ])
      on none = shallow
      on (some marker) = admit_marker-Keeps s b marker (frame_next c.byte_max at) shallow

  round-Keeps : (m : Mode) (s : State) (b : S) → IsShallow s → Keeps (round_in c p m s b)
  unfolding round_in scan_line scan_bulk
  round-Keeps Mode.start s b shallow = scan_marker-Keeps s b 0 shallow
  round-Keeps (Mode.marker end) s b shallow = scan_marker-Keeps s b end shallow
  round-Keeps (Mode.line kind begin slot) s b shallow =
      found_line-Keeps c law p s shallow b kind begin slot (find p begin s.scan kind)
  round-Keeps (Mode.bulk body slot) s b shallow =
      bulk_tail-Keeps c law p s shallow b body slot (drop (Body.stop body) p)

  scan_loop-Settles :
      (fuel : ℕ) (s : State) (b : S) → IsShallow s → Settles (scan_loop c p fuel s b)
  unfolding scan_loop
  scan_loop-Settles zero s b shallow = shallow
  scan_loop-Settles (suc fuel) s b shallow =
      on (round c p s b) (round-Keeps s.mode s b shallow)
        (λ s' b' next. scan_loop-Settles fuel s' b' next)
    where
      on :
          (r : Round E F S)
          → Keeps r
          → ((s' : State) (b' : S) → IsShallow s' → Settles (scan_loop c p fuel s' b'))
          → Settles {E = E} {F = F} {S = S} (elim r [
            | Round.again s' b' ↦ scan_loop c p fuel s' b'
            | Round.return outcome s' b' ↦ (outcome, s', b')
          ])
      on (Round.again s' b') kept go = go s' b' kept
      on (Round.return outcome s' b') kept go = kept

  -- From a state with at most 64 open arrays that have an element to come each: whatever the bytes, a scan
  -- leaves such a state, or the initial one where it completes a reply.
  pub scan-Settles : (s : State) (b : S) → IsShallow s → Settles (scan c p s b)
  unfolding scan
  scan-Settles s b shallow =
      elim (Bool-cases (ltb (length p) (cursor s.mode) || ltb (length p) s.scan)) [
        | inl behind ↦
            rw (behind, scan)
              (scan_loop-Settles (length p + 1) initial (c.store.reset b) initial-IsShallow)
        | inr ahead ↦ rw (ahead, scan) (scan_loop-Settles (length p + 1) s b shallow)
      ]
