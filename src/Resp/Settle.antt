-- ===== src/Resp/Settle.antt =====
-- redis/src/protocol/parser/state.rs: the ends of a round of the scanner, which store a value, close
-- the arrays that it fills, open one, or report.
use cartel.Base.{Result, [], err, if◌then◌else◌, none, ok, some, ℕ, ◌==◌, ◌∷◌}
use cartel.Base.Int.{ℤ}
use cartel.Resp.Interface.{Input, Builder, Pushed}
use cartel.Resp.Limit.{
  Brand, Bound, frame_body, value_array, end_consumed, depth, over_depth, Exceeded,
}
use cartel.Resp.Mode.{
  Mode, State, Restore, restored, initial, in_mode, finish_left, Scan, Round, consumed,
}
use cartel.Resp.Node.{Kind}
use cartel.Resp.Number.{Length}
use cartel.Resp.Types.{Bytes, Line, Error, NumberError}

-- what a scanner is made with: its buffer, its builder and its two bounds
pub record Setting (E F S : Type 0) : Type 0 where
  pub input : Input E
  pub store : Builder S F
  pub byte_max : Bound Brand.frame
  pub node_max : Bound Brand.value

-- a return of `State::consumed`
abbrev pub reject :
    {E F S : Type 0}
    → Setting E F S
    → Bytes
    → State
    → S
    → (amount : ℕ) → (ℕ → Scan E F)
    → Round E F S
reject c bytes s b amount build = Round.return (consumed c.input bytes amount build) s b

-- `complete`, at the root of a reply
unfoldable pub complete_reply :
    {E F S : Type 0} → Setting E F S → Bytes → State → S → (count : ℕ) → Round E F S
complete_reply c bytes s b count = elim (c.input.try_prefix bytes 0 count) [
  | err cause ↦ Round.return (Scan.source cause) s b
  | ok frame ↦
      let (tape, b') = c.store.finish b in Round.return (Scan.complete frame tape count) initial b'
]

-- `State::finish_value` and the tests of its result. At the root `Mode` was taken.
unfoldable pub settle :
    {E F S : Type 0} → Setting E F S → Bytes → State → S → (end count : ℕ) → Round E F S
settle c bytes s b end count = elim (finish_left s.left) [
  | none ↦ complete_reply c bytes (record s { left = []; mode = Mode.start }) b count
  | some left ↦ Round.again (record s { left = left; mode = Mode.marker end }) b
]

-- `State::write` of `Builder::try_push`, then `next`
unfoldable pub push :
    {E F S : Type 0}
    → Setting E F S
    → Bytes
    → State
    → S
    → (slot : ℕ) → Kind
    → Restore
    → (S → Round E F S)
    → Round E F S
push c bytes s b slot kind restore next = elim (c.store.try_push b slot kind) [
  | Pushed.stored b' ↦ next b'
  | Pushed.blocked slot' b' ↦ Round.return Scan.blocked (in_mode s (restored restore slot')) b'
  | Pushed.full slot' b' ↦ Round.return Scan.retain_capacity (in_mode s (restored restore slot')) b'
]

-- a `Status`, `Server` or `Integer` line, or one of length -1, once its value is known
unfoldable pub push_line :
    {E F S : Type 0}
    → Setting E F S
    → Bytes
    → State
    → S
    → Line
    → (start slot end : ℕ) → Kind
    → Round E F S
push_line c bytes s b kind start slot end value =
    push c bytes s b slot value (Restore.line kind start)
      (λ b'. settle c bytes (in_mode s Mode.start) b' end (end_consumed end))

-- an array that announces `count` elements
unfoldable pub open_array :
    {E F S : Type 0} → Setting E F S → Bytes → State → S → (start slot end count : ℕ) → Round E F S
open_array c bytes s b start slot end count =
    if count == 0
    then push c bytes s b slot (Kind.array count) (Restore.line Line.array start)
        (λ b'. settle c bytes (in_mode s Mode.start) b' end (end_consumed end))
    else if c.input.vacancy s.left
    then push c bytes s b slot (Kind.array count) (Restore.line Line.array start)
        (λ b'. Round.again (record s { left = count ∷ s.left; mode = Mode.marker end }) b')
    else reject c bytes s b (end_consumed end) (Scan.invalid (Error.depth over_depth depth count))

-- the admission of an array length
unfoldable pub admit_array :
    {E F S : Type 0}
    → Setting E F S
    → Bytes
    → State
    → S
    → (start slot end : ℕ) → Result (Exceeded Brand.value) ℕ
    → Round E F S
admit_array c bytes s b start slot end (ok count) = open_array c bytes s b start slot end count
admit_array c bytes s b start slot end (err error) =
    reject c bytes s b (end_consumed end) (Scan.value_capacity error)

-- the admission of a bulk length
unfoldable pub admit_bulk :
    {E F S : Type 0}
    → Setting E F S
    → Bytes
    → State
    → S
    → (slot end : ℕ) → Result (Exceeded Brand.frame) ℕ
    → Round E F S
admit_bulk c bytes s b slot end (ok body) = Round.again (in_mode s (Mode.bulk body slot)) b
admit_bulk c bytes s b slot end (err error) =
    reject c bytes s b (end_consumed end) (Scan.frame_capacity error)

-- the match on a parsed length, of a `Bulk` and else of an `Array` line
unfoldable pub scan_length :
    {E F S : Type 0}
    → Setting E F S
    → Bytes
    → State
    → S
    → Line
    → (start slot end : ℕ) → Result Error Length
    → Round E F S
scan_length c bytes s b kind start slot end (err error) =
    reject c bytes s b (end_consumed end) (Scan.invalid error)
scan_length c bytes s b kind start slot end (ok Length.nil) =
    push_line c bytes s b kind start slot end Kind.nil
scan_length c bytes s b Line.bulk start slot end (ok (Length.count n)) =
    admit_bulk c bytes s b slot end (frame_body c.byte_max end n)
scan_length c bytes s b _ start slot end (ok (Length.count n)) =
    admit_array c bytes s b start slot end (value_array c.node_max (c.store.len b) n)

-- the value of an `Integer` line
unfoldable pub scan_integer :
    {E F S : Type 0}
    → Setting E F S
    → Bytes
    → State
    → S
    → (start slot end : ℕ) → Result NumberError ℤ
    → Round E F S
scan_integer c bytes s b start slot end (err cause) =
    reject c bytes s b (end_consumed end) (Scan.invalid (Error.number Line.integer cause))
scan_integer c bytes s b start slot end (ok integer) =
    push_line c bytes s b Line.integer start slot end (Kind.integer integer)
