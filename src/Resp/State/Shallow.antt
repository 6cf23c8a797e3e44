-- ===== src/Resp/State/Shallow.antt =====
-- A scan keeps the bound on the arrays that are open, branch by branch.
use cartel.Base.{ℕ, none, some, ok, err, Result, max, length, ◌-◌, Option}
use cartel.Base.Int.{ℤ}
use cartel.Resp.Interface.{IsLawful}
use cartel.Resp.Limit.{
  BadBreak, Brand, Exceeded, Found, frame_body, frame_check, frame_line, frame_next, value_array,
  bound_consumed, end_consumed,
}
use cartel.Resp.Mode.{Mode, Round, Scan, State}
use cartel.Resp.Node.{Kind}
use cartel.Resp.Number.{Length, number_length, signed}
use cartel.Resp.Settle.{Setting, admit_array, admit_bulk, reject, scan_integer, scan_length}
use cartel.Resp.State.{admit_line, bad_line, found_line, scan_value, wait_line}
use cartel.Resp.State.Depth.{
  IsShallow, Keeps, mode-IsShallow, open_array-Keeps, push_line-Keeps, reject-Keeps,
}
use cartel.Resp.Types.{Bytes, Error, Line, NumberError}

module _ {E F S : Type 0} (c : Setting E F S) (law : IsLawful c.input) (p : Bytes) (s : State)
    (shallow : IsShallow s) where
  pub reject_bound :
      (b : S) (error : Exceeded Brand.frame)
      → Keeps (reject c p s b (bound_consumed c.byte_max) (Scan.frame_capacity error))
  reject_bound b error =
      reject-Keeps c law p s b (bound_consumed c.byte_max) (Scan.frame_capacity error) shallow
        shallow

  pub reject_invalid :
      (b : S) (n : ℕ) (error : Error) → Keeps (reject c p s b n (Scan.invalid error))
  reject_invalid b n error = reject-Keeps c law p s b n (Scan.invalid error) shallow shallow

  pub reject_value :
      (b : S) (n : ℕ) (error : Exceeded Brand.value)
      → Keeps (reject c p s b n (Scan.value_capacity error))
  reject_value b n error = reject-Keeps c law p s b n (Scan.value_capacity error) shallow shallow

  admit_array-Keeps :
      (b : S) (start slot end : ℕ) (r : Result (Exceeded Brand.value) ℕ)
      → Keeps (admit_array c p s b start slot end r)
  unfolding admit_array
  admit_array-Keeps b start slot end (ok count) =
      open_array-Keeps c law p s b start slot end count shallow
  admit_array-Keeps b start slot end (err error) = reject_value b (end_consumed end) error

  admit_bulk-Keeps :
      (b : S) (slot end : ℕ) (r : Result (Exceeded Brand.frame) ℕ)
      → Keeps (admit_bulk c p s b slot end r)
  unfolding admit_bulk
  admit_bulk-Keeps b slot end (ok body) = mode-IsShallow c law p s (Mode.bulk body slot) shallow
  admit_bulk-Keeps b slot end (err error) =
      reject-Keeps c law p s b (end_consumed end) (Scan.frame_capacity error) shallow shallow

  scan_length-Keeps :
      (b : S) (kind : Line) (start slot end : ℕ) (r : Result Error Length)
      → Keeps (scan_length c p s b kind start slot end r)
  unfolding scan_length
  scan_length-Keeps b kind start slot end (err error) = reject_invalid b (end_consumed end) error
  scan_length-Keeps b kind start slot end (ok Length.nil) =
      push_line-Keeps c law p s b kind start slot end Kind.nil shallow
  scan_length-Keeps b Line.bulk start slot end (ok (Length.count n)) =
      admit_bulk-Keeps b slot end (frame_body c.byte_max end n)
  scan_length-Keeps b Line.status start slot end (ok (Length.count n)) =
      admit_array-Keeps b start slot end (value_array c.node_max (c.store.len b) n)
  scan_length-Keeps b Line.server start slot end (ok (Length.count n)) =
      admit_array-Keeps b start slot end (value_array c.node_max (c.store.len b) n)
  scan_length-Keeps b Line.integer start slot end (ok (Length.count n)) =
      admit_array-Keeps b start slot end (value_array c.node_max (c.store.len b) n)
  scan_length-Keeps b Line.array start slot end (ok (Length.count n)) =
      admit_array-Keeps b start slot end (value_array c.node_max (c.store.len b) n)

  scan_integer-Keeps :
      (b : S) (start slot end : ℕ) (r : Result NumberError ℤ)
      → Keeps (scan_integer c p s b start slot end r)
  unfolding scan_integer
  scan_integer-Keeps b start slot end (err cause) =
      reject_invalid b (end_consumed end) (Error.number Line.integer cause)
  scan_integer-Keeps b start slot end (ok integer) =
      push_line-Keeps c law p s b Line.integer start slot end (Kind.integer integer) shallow

  scan_value-Keeps :
      (b : S) (kind : Line) (start slot end body : ℕ) (value : Bytes)
      → Keeps (scan_value c p s b kind start slot end body value)
  unfolding scan_value
  scan_value-Keeps b Line.status start slot end body value =
      push_line-Keeps c law p s b Line.status start slot end _ shallow
  scan_value-Keeps b Line.server start slot end body value =
      push_line-Keeps c law p s b Line.server start slot end (Kind.error body) shallow
  scan_value-Keeps b Line.integer start slot end body value =
      scan_integer-Keeps b start slot end (signed value body)
  scan_value-Keeps b Line.bulk start slot end body value =
      scan_length-Keeps b Line.bulk start slot end (number_length value body Line.bulk)
  scan_value-Keeps b Line.array start slot end body value =
      scan_length-Keeps b Line.array start slot end (number_length value body Line.array)

  wait_line-Keeps : (b : S) (start : ℕ) → Keeps (wait_line c p s b start)
  unfolding wait_line
  wait_line-Keeps b start = on (frame_check c.byte_max (length p))
    where
      marked : State
      marked = record s { scan = max (length p - 1) start }

      same : IsShallow marked
      same = record { nonempty = shallow.nonempty; bounded = shallow.bounded }

      on :
          (o : Option (Exceeded Brand.frame))
          → Keeps (elim o [
            | none ↦ Round.return Scan.pending marked b
            | some error ↦
                reject c p marked b (bound_consumed c.byte_max) (Scan.frame_capacity error)
          ])
      on none = same
      on (some error) =
          reject-Keeps c law p marked b (bound_consumed c.byte_max) (Scan.frame_capacity error) same
            same

  bad_line-Keeps : (b : S) (bad : BadBreak) → Keeps (bad_line c p s b bad)
  unfolding bad_line
  bad_line-Keeps b (offset, expected, actual) = on (frame_next c.byte_max offset)
    where
      on :
          (r : Result (Exceeded Brand.frame) ℕ)
          → Keeps (elim r [
            | ok end ↦
                reject c p s b
                  (end_consumed end)
                  (Scan.invalid (Error.terminator (end - 1) expected actual))
            | err error ↦ reject c p s b (bound_consumed c.byte_max) (Scan.frame_capacity error)
          ])
      on (ok end) = reject_invalid b (end_consumed end) (Error.terminator (end - 1) expected actual)
      on (err error) = reject_bound b error

  pub found_line-Keeps :
      (b : S) (kind : Line) (start slot : ℕ) (r : Result BadBreak (Option Found))
      → Keeps (found_line c p s b kind start slot r)
  unfolding found_line
  found_line-Keeps b kind start slot (ok (some found)) = on (frame_line c.byte_max found)
    where
      on :
          (r : Result (Exceeded Brand.frame) (ℕ × ℕ))
          → Keeps (admit_line c p s b kind start slot found.value r)
      on (ok (end, body)) =
          unfold admit_line in scan_value-Keeps b kind start slot end body found.value
      on (err error) = unfold admit_line in reject_bound b error
  found_line-Keeps b kind start slot (ok none) = wait_line-Keeps b start
  found_line-Keeps b kind start slot (err bad) = bad_line-Keeps b bad
