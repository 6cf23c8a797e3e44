-- ===== src/Resp/State/Erase.antt =====
-- The scan mark of a state matters to a pending line only: what a round does, less that mark.
use cartel.Base.{Option, Result, arith, drop, err, none, ok, refl, some, ℕ, ◌∷◌, ◌≡◌}
use cartel.Base.Int.{ℤ}
use cartel.Resp.State.{
  marker_kind, admit_line, scan_marker, found_line, scan_value, bad_line, close_bulk, scan_bulk,
  wait_line, bulk_tail, admit_marker, admit_slot,
}
use cartel.Resp.Body
use cartel.Resp.Interface.{Pushed}
use cartel.Resp.Number.{Length, number_length, signed}
use cartel.Resp.Limit.{
  Brand, Exceeded, value_array, end_consumed, BadBreak, Found, frame_body, frame_line,
}
use cartel.Resp.Mode.{Mode, State, Restore, Round, in_mode}
use cartel.Resp.Node.{Kind}
use cartel.Resp.Settle.{
  Setting, complete_reply, settle, push, open_array, push_line, scan_length, admit_array,
  admit_bulk, scan_integer,
}
use cartel.Resp.Types.{Bytes, Line, Error, NumberError}

abbrev pub scan_in : Mode → ℕ → ℕ
scan_in (Mode.line kind begin slot) n = n
scan_in Mode.start n = 0
scan_in (Mode.marker end) n = 0
scan_in (Mode.bulk body slot) n = 0

abbrev pub erase_state : State → State
erase_state s = record s { scan = scan_in s.mode s.scan }

abbrev pub erase : {E F S : Type 0} → Round E F S → Round E F S
erase (Round.again s b) = Round.again (erase_state s) b
erase (Round.return outcome s b) = Round.return outcome (record s { scan = 0 }) b

abbrev pub at_scan : State → ℕ → State
at_scan s x = record s { scan = x }

module _ {E F S : Type 0} (c : Setting E F S) (bytes : Bytes) (s : State) (x : ℕ) where
  erase-settle :
      (b : S) (end count : ℕ)
      → erase (settle c bytes (at_scan s x) b end count) ≡ erase (settle c bytes s b end count)
  unfolding settle complete_reply
  erase-settle b end count = ground arith

  erase-push :
      (b : S) (slot : ℕ) (kind : Kind) (restore : Restore) (next next' : S → Round E F S)
      → ((b' : S) → erase (next b') ≡ erase (next' b'))
      → erase (push c bytes (at_scan s x) b slot kind restore next)
        ≡ erase (push c bytes s b slot kind restore next')
  unfolding push
  erase-push b slot kind restore next next' same = at (c.store.try_push b slot kind) refl
    where
      at :
          (r : Pushed S)
          → c.store.try_push b slot kind ≡ r
          → erase (push c bytes (at_scan s x) b slot kind restore next)
            ≡ erase (push c bytes s b slot kind restore next')
      at (Pushed.stored b') e = rw (e, push) (same b')
      at (Pushed.blocked n b') e = rw (e, push)
      at (Pushed.full n b') e = rw (e, push)

module _ {E F S : Type 0} (c : Setting E F S) (bytes : Bytes) (s : State) (x : ℕ) where
  erase-push_line :
      (b : S) (kind : Line) (start slot end : ℕ) (value : Kind)
      → erase (push_line c bytes (at_scan s x) b kind start slot end value)
        ≡ erase (push_line c bytes s b kind start slot end value)
  unfolding push_line
  erase-push_line b kind start slot end value =
      erase-push c bytes s x b slot value _ _ _
        (λ b'. erase-settle c bytes (in_mode s Mode.start) x b' end _)

  erase-open_array :
      (b : S) (start slot end count : ℕ)
      → erase (open_array c bytes (at_scan s x) b start slot end count)
        ≡ erase (open_array c bytes s b start slot end count)
  unfolding open_array
  erase-open_array b start slot end count = ground (
    arith,
    erase-push c bytes s x b slot (Kind.array count) (Restore.line Line.array start)
        (λ b'. settle c bytes (in_mode (at_scan s x) Mode.start) b' end (end_consumed end))
        (λ b'. settle c bytes (in_mode s Mode.start) b' end (end_consumed end))
        (λ b'. erase-settle c bytes (in_mode s Mode.start) x b' end (end_consumed end)),
    erase-push c bytes s x b slot (Kind.array count) (Restore.line Line.array start)
        (λ b'.
          Round.again (record s { scan = x; left = count ∷ s.left; mode = Mode.marker end }) b')
        (λ b'. Round.again (record s { left = count ∷ s.left; mode = Mode.marker end }) b')
        (λ b'. refl),
  )

  erase-admit_array :
      (b : S) (start slot end : ℕ) (r : Result (Exceeded Brand.value) ℕ)
      → erase (admit_array c bytes (at_scan s x) b start slot end r)
        ≡ erase (admit_array c bytes s b start slot end r)
  unfolding admit_array
  erase-admit_array b start slot end (ok count) = erase-open_array b start slot end count
  erase-admit_array b start slot end (err error) = refl

  erase-admit_bulk :
      (b : S) (slot end : ℕ) (r : Result (Exceeded Brand.frame) ℕ)
      → erase (admit_bulk c bytes (at_scan s x) b slot end r)
        ≡ erase (admit_bulk c bytes s b slot end r)
  unfolding admit_bulk
  erase-admit_bulk b slot end (ok body) = refl
  erase-admit_bulk b slot end (err error) = refl

  erase-scan_length :
      (b : S) (kind : Line) (start slot end : ℕ) (n : Result Error Length)
      → erase (scan_length c bytes (at_scan s x) b kind start slot end n)
        ≡ erase (scan_length c bytes s b kind start slot end n)
  unfolding scan_length
  erase-scan_length b kind start slot end (err error) = refl
  erase-scan_length b kind start slot end (ok Length.nil) =
      erase-push_line b kind start slot end Kind.nil
  erase-scan_length b Line.bulk start slot end (ok (Length.count n)) =
      erase-admit_bulk b slot end (frame_body c.byte_max end n)
  erase-scan_length b _ start slot end (ok (Length.count n)) =
      erase-admit_array b start slot end (value_array c.node_max (c.store.len b) n)

  erase-scan_integer :
      (b : S) (start slot end : ℕ) (r : Result NumberError ℤ)
      → erase (scan_integer c bytes (at_scan s x) b start slot end r)
        ≡ erase (scan_integer c bytes s b start slot end r)
  unfolding scan_integer
  erase-scan_integer b start slot end (err cause) = refl
  erase-scan_integer b start slot end (ok integer) =
      erase-push_line b Line.integer start slot end (Kind.integer integer)

  erase-scan_value :
      (b : S) (kind : Line) (start slot end body : ℕ) (value : Bytes)
      → erase (scan_value c bytes (at_scan s x) b kind start slot end body value)
        ≡ erase (scan_value c bytes s b kind start slot end body value)
  unfolding scan_value
  erase-scan_value b Line.status start slot end body value =
      erase-push_line b Line.status start slot end _
  erase-scan_value b Line.server start slot end body value =
      erase-push_line b Line.server start slot end _
  erase-scan_value b Line.integer start slot end body value =
      erase-scan_integer b start slot end (signed value body)
  erase-scan_value b kind start slot end body value =
      erase-scan_length b kind start slot end (number_length value body kind)

  pub erase-found_line :
      (b : S) (kind : Line) (start slot : ℕ) (r : Result BadBreak (Option Found))
      → erase (found_line c bytes (at_scan s x) b kind start slot r)
        ≡ erase (found_line c bytes s b kind start slot r)
  unfolding found_line admit_line wait_line bad_line
  erase-found_line b kind start slot (ok none) = ground arith
  erase-found_line b kind start slot (err (offset, expected, actual)) = ground arith
  erase-found_line b kind start slot (ok (some found)) = at (frame_line c.byte_max found)
    where
      at :
          (r : Result (Exceeded Brand.frame) (ℕ × ℕ))
          → erase (admit_line c bytes (at_scan s x) b kind start slot found.value r)
            ≡ erase (admit_line c bytes s b kind start slot found.value r)
      at (ok (end, body)) = erase-scan_value b kind start slot end body found.value
      at (err error) = refl

  erase-close_bulk :
      (b : S) (body slot cr lf : ℕ)
      → erase (close_bulk c bytes (at_scan s x) b body slot cr lf)
        ≡ erase (close_bulk c bytes s b body slot cr lf)
  unfolding close_bulk
  erase-close_bulk b body slot cr lf = ground (
    arith,
    erase-push c bytes s x b slot (Kind.bulk body) (Restore.bulk body)
        (λ b'.
          settle c bytes (in_mode (at_scan s x) Mode.start) b' (Body.end body) (Body.consumed body))
        (λ b'. settle c bytes (in_mode s Mode.start) b' (Body.end body) (Body.consumed body))
        (λ b'.
          erase-settle c bytes (in_mode s Mode.start) x b' (Body.end body) (Body.consumed body)),
  )

  erase-bulk_tail :
      (b : S) (body slot : ℕ) (tail : Bytes)
      → erase (bulk_tail c bytes (at_scan s x) b body slot tail)
        ≡ erase (bulk_tail c bytes s b body slot tail)
  unfolding bulk_tail
  erase-bulk_tail b body slot (cr ∷ lf ∷ _) = erase-close_bulk b body slot cr lf
  erase-bulk_tail b body slot _ = refl

  pub erase-scan_bulk :
      (b : S) (body slot : ℕ)
      → erase (scan_bulk c bytes (at_scan s x) b body slot)
        ≡ erase (scan_bulk c bytes s b body slot)
  unfolding scan_bulk
  erase-scan_bulk b body slot = erase-bulk_tail b body slot (drop (Body.stop body) bytes)

  pub erase-scan_marker :
      (b : S) (end : ℕ)
      → erase (scan_marker c bytes (at_scan s x) b end) ≡ erase (scan_marker c bytes s b end)
  unfolding scan_marker admit_marker admit_slot marker_kind
  erase-scan_marker b end = ground arith
