-- ===== src/Resp/Mode.antt =====
-- redis/src/protocol/parser/state.rs: the state of the scanner, and what it may report.
pub mod Left
use cartel.Base.{
  List, Option, [], if◌then◌else◌, length, min, none, some, ℕ, ◌%◌, ◌+◌, ◌-◌, ◌==◌, ◌∷◌,
}
use cartel.Resp.Body
use cartel.Resp.Interface.{Input}
use cartel.Resp.Limit.{Brand, Exceeded}
use cartel.Resp.Types.{Bytes, Line, Error, Truncated}

-- `Mode`; `pending.start` and `pending.slot` stand in the line itself
pub data Mode : Type 0 where
  start : Mode
  marker : (end : ℕ) → Mode
  line : (kind : Line) (start slot : ℕ) → Mode
  bulk : (body slot : ℕ) → Mode

-- `State`; `left` has the innermost open array first
pub record State : Type 0 where
  pub scan : ℕ
  pub left : List ℕ
  pub mode : Mode

-- `Restore`
pub data Restore : Type 0 where
  line : (kind : Line) (start : ℕ) → Restore
  bulk : (body : ℕ) → Restore

-- `Mode::cursor`
abbrev pub cursor : Mode → ℕ
cursor Mode.start = 0
cursor (Mode.marker end) = end
cursor (Mode.line kind begin slot) = begin
cursor (Mode.bulk body slot) = Body.start body

-- `Mode::restore`
abbrev pub restored : Restore → (slot : ℕ) → Mode
restored (Restore.line kind begin) slot = Mode.line kind begin slot
restored (Restore.bulk body) slot = Mode.bulk body slot

-- `State::new` and `State::reset`
abbrev pub initial : State
initial = record { scan = 0; left = []; mode = Mode.start }

abbrev pub in_mode : State → Mode → State
in_mode s m = record s { mode = m }

-- the loop of `State::finish_value`: what is left of the open arrays, `none` at the root
unfoldable pub finish_left : List ℕ → Option (List ℕ)
finish_left [] = none
finish_left (left ∷ parents) =
    if left - 1 == 0 then finish_left parents else some ((left - 1) ∷ parents)

-- `State::finish`
abbrev truncated_value : (actual end : ℕ) → List ℕ → Error
truncated_value actual end [] = Error.unparsed actual
truncated_value actual end (left ∷ parents) =
    Error.truncated (Truncated.value end (min (1 + length parents % 256) 255) left)

unfoldable pub finish_in : Mode → List ℕ → (actual : ℕ) → Error
finish_in Mode.start left actual = Error.unparsed actual
finish_in (Mode.marker end) left actual = truncated_value actual end left
finish_in (Mode.line kind begin slot) left actual =
    Error.truncated (Truncated.line kind begin actual)
finish_in (Mode.bulk body slot) left actual =
    Error.truncated (Truncated.bulk actual (Body.end body))

abbrev pub finish : State → (actual : ℕ) → Error
finish s = finish_in s.mode s.left

-- `parser::Scan`, and the model's own case for a loop out of fuel
pub data Scan (E F : Type 0) : Type 0 where
  pending blocked retain_capacity out_of_fuel : Scan E F
  complete : (frame : Bytes) (tape : F) (consumed : ℕ) → Scan E F
  invalid : Error → (consumed : ℕ) → Scan E F
  frame_capacity : Exceeded Brand.frame → (consumed : ℕ) → Scan E F
  value_capacity : Exceeded Brand.value → (consumed : ℕ) → Scan E F
  source : E → Scan E F

-- what one round of the loop of `State::scan` does: go round again, or return
pub data Round (E F S : Type 0) : Type 0 where
  again : State → S → Round E F S
  return : Scan E F → State → S → Round E F S

-- `State::consumed`
abbrev pub consumed : {E F : Type 0} → Input E → Bytes → (amount : ℕ) → (ℕ → Scan E F) → Scan E F
consumed input bytes amount build = elim (input.try_consumed bytes amount) [
  | none ↦ build amount
  | some cause ↦ Scan.source cause
]
