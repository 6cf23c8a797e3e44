-- ===== src/Resp/State.antt =====
-- redis/src/protocol/parser/state.rs: the resumable scanner of one RESP reply.
-- `bytes` is the whole unread buffer at each call; the state keeps offsets into it.
pub mod Erase
pub mod Bounded
pub mod Depth
pub mod Extend
pub mod Loop
pub mod Progress
pub mod Resume
pub mod Shallow
pub mod Tests
pub mod Waiting
use cartel.Base.{
  Bool, Option, Result, [], drop, err, false, get_elem?, if◌then◌else◌, length, ltb, max, none, not,
  ok, some, suc, zero, ℕ, ◌&&◌, ◌+◌, ◌-◌, ◌==◌, ◌||◌, ◌∷◌,
}
use cartel.Resp.Body
use cartel.Resp.Limit.{
  BadBreak, bound_consumed, frame_check, frame_next, frame_line, value_next, end_consumed, find,
  Brand, Exceeded, Found,
}
use cartel.Resp.Mode.{Mode, State, Restore, cursor, initial, in_mode, Scan, Round}
use cartel.Resp.Node.{Kind}
use cartel.Resp.Number.{signed, number_length}
use cartel.Resp.Types.{Bytes, Line, Error}
use cartel.Resp.Settle.{Setting, reject, settle, push, push_line, scan_length, scan_integer}

-- the match on a type marker
unfoldable pub line_of_marker : ℕ → Option Line
line_of_marker marker =
    if marker == b'+'
    then some Line.status
    else if marker == b'-'
    then some Line.server
    else if marker == b':'
    then some Line.integer
    else if marker == b'$'
    then some Line.bulk
    else if marker == b'*'
    then some Line.array
    else none

-- `line == b"OK"`
abbrev pub is_ok : Bytes → Bool
is_ok (o ∷ k ∷ []) = o == b'O' && k == b'K'
is_ok _ = false

-- `Mode::Start | Mode::Marker(_)`, behind the admission of its byte and of its slot
unfoldable pub marker_kind :
    {E F S : Type 0} → Setting E F S → Bytes → State → S → (marker end slot : ℕ) → Round E F S
marker_kind c bytes s b marker end slot = elim (line_of_marker marker) [
  | some kind ↦ Round.again (in_mode s (Mode.line kind end slot)) b
  | none ↦ reject c bytes s b (end_consumed end) (Scan.invalid (Error.marker (end - 1) marker))
]

-- the admission of a slot, for a marker that ends before `end`
unfoldable pub admit_slot :
    {E F S : Type 0}
    → Setting E F S
    → Bytes
    → State
    → S
    → (marker end : ℕ) → Result (Exceeded Brand.value) ℕ
    → Round E F S
admit_slot c bytes s b marker end (ok slot) =
    marker_kind c bytes (record s { scan = end; mode = Mode.marker end }) b marker end slot
admit_slot c bytes s b marker end (err error) =
    reject c bytes s b (end_consumed end) (Scan.value_capacity error)

-- the admission of the marker's byte
unfoldable pub admit_marker :
    {E F S : Type 0}
    → Setting E F S
    → Bytes
    → State
    → S
    → (marker : ℕ) → Result (Exceeded Brand.frame) ℕ
    → Round E F S
admit_marker c bytes s b marker (ok end) =
    admit_slot c bytes s b marker end (value_next c.node_max (c.store.len b))
admit_marker c bytes s b marker (err error) =
    reject c bytes s b (bound_consumed c.byte_max) (Scan.frame_capacity error)

unfoldable pub scan_marker :
    {E F S : Type 0} → Setting E F S → Bytes → State → S → (cursor : ℕ) → Round E F S
scan_marker c bytes s b cursor = elim (get_elem? bytes cursor) [
  | none ↦ Round.return Scan.pending s b
  | some marker ↦ admit_marker c bytes s b marker (frame_next c.byte_max cursor)
]

-- the match on `kind`, for the line `value` that ends before `end` and has the packed body `body`
unfoldable pub scan_value :
    {E F S : Type 0}
    → Setting E F S
    → Bytes
    → State
    → S
    → Line
    → (start slot end body : ℕ) → (value : Bytes) → Round E F S
scan_value c bytes s b Line.status start slot end body value =
    push_line c bytes s b Line.status start slot end
      (if is_ok value then Kind.ok_reply else Kind.status body)
scan_value c bytes s b Line.server start slot end body value =
    push_line c bytes s b Line.server start slot end (Kind.error body)
scan_value c bytes s b Line.integer start slot end body value =
    scan_integer c bytes s b start slot end (signed value body)
scan_value c bytes s b kind start slot end body value =
    scan_length c bytes s b kind start slot end (number_length value body kind)

-- a line with no CRLF yet
unfoldable pub wait_line :
    {E F S : Type 0} → Setting E F S → Bytes → State → S → (start : ℕ) → Round E F S
wait_line c bytes s b start = elim (frame_check c.byte_max (length bytes)) [
  | none ↦ Round.return Scan.pending (record s { scan = max (length bytes - 1) start }) b
  | some error ↦
      reject c bytes (record s { scan = max (length bytes - 1) start }) b
        (bound_consumed c.byte_max) (Scan.frame_capacity error)
]

-- a CR or an LF that stands alone
unfoldable pub bad_line :
    {E F S : Type 0} → Setting E F S → Bytes → State → S → BadBreak → Round E F S
bad_line c bytes s b (offset, expected, actual) = elim (frame_next c.byte_max offset) [
  | ok end ↦
      reject c bytes s b (end_consumed end)
        (Scan.invalid (Error.terminator (end - 1) expected actual))
  | err error ↦ reject c bytes s b (bound_consumed c.byte_max) (Scan.frame_capacity error)
]

-- the admission of a line that has its CRLF
unfoldable pub admit_line :
    {E F S : Type 0}
    → Setting E F S
    → Bytes
    → State
    → S
    → Line
    → (start slot : ℕ) → (value : Bytes) → Result (Exceeded Brand.frame) (ℕ × ℕ)
    → Round E F S
admit_line c bytes s b kind start slot value (ok (end, body)) =
    scan_value c bytes s b kind start slot end body value
admit_line c bytes s b kind start slot value (err error) =
    reject c bytes s b (bound_consumed c.byte_max) (Scan.frame_capacity error)

-- the match on what `Line::find` returns
unfoldable pub found_line :
    {E F S : Type 0}
    → Setting E F S
    → Bytes
    → State
    → S
    → Line
    → (start slot : ℕ) → Result BadBreak (Option Found)
    → Round E F S
found_line c bytes s b kind start slot (ok (some found)) =
    admit_line c bytes s b kind start slot found.value (frame_line c.byte_max found)
found_line c bytes s b kind start slot (ok none) = wait_line c bytes s b start
found_line c bytes s b kind start slot (err bad) = bad_line c bytes s b bad

-- `Mode::Line`; `s.mode` is this line
unfoldable pub scan_line :
    {E F S : Type 0} → Setting E F S → Bytes → State → S → Line → (start slot : ℕ) → Round E F S
scan_line c bytes s b kind start slot =
    found_line c bytes s b kind start slot (find bytes start s.scan kind)

-- the two bytes behind a bulk, once they are there
unfoldable pub close_bulk :
    {E F S : Type 0} → Setting E F S → Bytes → State → S → (body slot cr lf : ℕ) → Round E F S
close_bulk c bytes s b body slot cr lf =
    if not (cr == b'\r')
    then reject c bytes s b (Body.consumed body)
        (Scan.invalid (Error.terminator (Body.stop body) b'\r' cr))
    else if not (lf == b'\n')
    then reject c bytes s b (Body.consumed body)
        (Scan.invalid (Error.terminator (Body.stop body + 1) b'\n' lf))
    else push c bytes s b slot (Kind.bulk body) (Restore.bulk body)
        (λ b'. settle c bytes (in_mode s Mode.start) b' (Body.end body) (Body.consumed body))

-- `Mode::Bulk`, on the bytes behind the bulk; `s.mode` is this bulk
unfoldable pub bulk_tail :
    {E F S : Type 0} → Setting E F S → Bytes → State → S → (body slot : ℕ) → Bytes → Round E F S
bulk_tail c bytes s b body slot (cr ∷ lf ∷ _) = close_bulk c bytes s b body slot cr lf
bulk_tail c bytes s b body slot _ = Round.return Scan.pending s b

unfoldable pub scan_bulk :
    {E F S : Type 0} → Setting E F S → Bytes → State → S → (body slot : ℕ) → Round E F S
scan_bulk c bytes s b body slot = bulk_tail c bytes s b body slot (drop (Body.stop body) bytes)

-- one round of the loop
unfoldable pub round_in : {E F S : Type 0} → Setting E F S → Bytes → Mode → State → S → Round E F S
round_in c bytes Mode.start s b = scan_marker c bytes s b 0
round_in c bytes (Mode.marker end) s b = scan_marker c bytes s b end
round_in c bytes (Mode.line kind begin slot) s b = scan_line c bytes s b kind begin slot
round_in c bytes (Mode.bulk body slot) s b = scan_bulk c bytes s b body slot

abbrev pub round : {E F S : Type 0} → Setting E F S → Bytes → State → S → Round E F S
round c bytes s b = round_in c bytes s.mode s b

-- the loop, on fuel
unfoldable pub scan_loop :
    {E F S : Type 0} → Setting E F S → Bytes → ℕ → State → S → Scan E F × State × S
scan_loop c bytes zero s b = (Scan.out_of_fuel, s, b)
scan_loop c bytes (suc fuel) s b = elim (round c bytes s b) [
  | Round.again s' b' ↦ scan_loop c bytes fuel s' b'
  | Round.return outcome s' b' ↦ (outcome, s', b')
]

-- `State::scan`: a state whose offsets lie behind the buffer starts anew
unfoldable pub scan : {E F S : Type 0} → Setting E F S → Bytes → State → S → Scan E F × State × S
scan c bytes s b =
    if ltb (length bytes) (cursor s.mode) || ltb (length bytes) s.scan
    then scan_loop c bytes (length bytes + 1) initial (c.store.reset b)
    else scan_loop c bytes (length bytes + 1) s b
