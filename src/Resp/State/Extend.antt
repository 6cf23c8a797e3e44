-- ===== src/Resp/State/Extend.antt =====
-- A round of the scanner that goes on reads nothing behind the bytes that it has: it is the same on
-- every longer buffer.
use cartel.Base.{
  Option, Option-cases, Result, [], ap, arith, drop, drop-append, drop-eq-nil, err, get_elem?,
  get_elem?-append, inl, inr, length, lt_of_get_elem?, none, ok, refl, some, sym, ℕ, ◌++◌, ◌∙◌, ◌∷◌,
  ◌≡◌,
}
use cartel.Resp.Limit.Append.{find-append}
use cartel.Base.Int.{ℤ}
use cartel.Resp.State.{
  marker_kind, admit_line, scan_marker, found_line, scan_value, bad_line, close_bulk, scan_bulk,
  wait_line, bulk_tail, scan_line, round, round_in, admit_marker, admit_slot,
}
use native.Mathlib.Decide.{dec_le}
use cartel.Resp.Body
use cartel.Resp.Interface.{Pushed}
use cartel.Resp.Number.{Length, number_length, signed}
use cartel.Resp.Limit.{
  Brand, Exceeded, value_array, end_consumed, BadBreak, Found, frame_body, frame_line, find,
}
use cartel.Resp.Mode.{Mode, State, Restore, Round, in_mode}
use cartel.Resp.Node.{Kind}
use cartel.Resp.Settle.{
  Setting, complete_reply, settle, push, open_array, push_line, scan_length, admit_array,
  admit_bulk, scan_integer,
}
use cartel.Resp.Types.{Bytes, Line, Error, NumberError}

-- the state and the builder of a round that goes on
abbrev going : {E F S : Type 0} → Round E F S → Option (State × S)
going (Round.again s b) = some (s, b)
going (Round.return outcome s b) = none

module _ {E F S : Type 0} (c : Setting E F S) (bytes bytes' : Bytes) (s : State) where
  going-settle :
      (b : S) (end count : ℕ)
      → going (settle c bytes s b end count) ≡ going (settle c bytes' s b end count)
  unfolding settle complete_reply
  going-settle b end count = ground arith

  going-push :
      (b : S) (slot : ℕ) (kind : Kind) (restore : Restore) (next next' : S → Round E F S)
      → ((b' : S) → going (next b') ≡ going (next' b'))
      → going (push c bytes s b slot kind restore next)
        ≡ going (push c bytes' s b slot kind restore next')
  unfolding push
  going-push b slot kind restore next next' same = at (c.store.try_push b slot kind) refl
    where
      at :
          (r : Pushed S)
          → c.store.try_push b slot kind ≡ r
          → going (push c bytes s b slot kind restore next)
            ≡ going (push c bytes' s b slot kind restore next')
      at (Pushed.stored b') e = rw (e, push) (same b')
      at (Pushed.blocked n b') e = rw (e, push)
      at (Pushed.full n b') e = rw (e, push)

module _ {E F S : Type 0} (c : Setting E F S) (bytes bytes' : Bytes) (s : State) where
  going-push_line :
      (b : S) (kind : Line) (start slot end : ℕ) (value : Kind)
      → going (push_line c bytes s b kind start slot end value)
        ≡ going (push_line c bytes' s b kind start slot end value)
  unfolding push_line
  going-push_line b kind start slot end value =
      going-push c bytes bytes' s b slot value _ _ _
        (λ b'. going-settle c bytes bytes' (in_mode s Mode.start) b' end _)

  going-open_array :
      (b : S) (start slot end count : ℕ)
      → going (open_array c bytes s b start slot end count)
        ≡ going (open_array c bytes' s b start slot end count)
  unfolding open_array
  going-open_array b start slot end count = ground (
    arith,
    going-push c bytes bytes' s b slot (Kind.array count) (Restore.line Line.array start)
        (λ b'. settle c bytes (in_mode s Mode.start) b' end (end_consumed end))
        (λ b'. settle c bytes' (in_mode s Mode.start) b' end (end_consumed end))
        (λ b'. going-settle c bytes bytes' (in_mode s Mode.start) b' end (end_consumed end)),
    going-push c bytes bytes' s b slot (Kind.array count) (Restore.line Line.array start)
        (λ b'. Round.again (record s { left = count ∷ s.left; mode = Mode.marker end }) b')
        (λ b'. Round.again (record s { left = count ∷ s.left; mode = Mode.marker end }) b')
        (λ b'. refl),
  )

  going-admit_array :
      (b : S) (start slot end : ℕ) (r : Result (Exceeded Brand.value) ℕ)
      → going (admit_array c bytes s b start slot end r)
        ≡ going (admit_array c bytes' s b start slot end r)
  unfolding admit_array
  going-admit_array b start slot end (ok count) = going-open_array b start slot end count
  going-admit_array b start slot end (err error) = refl

  going-admit_bulk :
      (b : S) (slot end : ℕ) (r : Result (Exceeded Brand.frame) ℕ)
      → going (admit_bulk c bytes s b slot end r) ≡ going (admit_bulk c bytes' s b slot end r)
  unfolding admit_bulk
  going-admit_bulk b slot end (ok body) = refl
  going-admit_bulk b slot end (err error) = refl

  going-scan_length :
      (b : S) (kind : Line) (start slot end : ℕ) (n : Result Error Length)
      → going (scan_length c bytes s b kind start slot end n)
        ≡ going (scan_length c bytes' s b kind start slot end n)
  unfolding scan_length
  going-scan_length b kind start slot end (err error) = refl
  going-scan_length b kind start slot end (ok Length.nil) =
      going-push_line b kind start slot end Kind.nil
  going-scan_length b Line.bulk start slot end (ok (Length.count n)) =
      going-admit_bulk b slot end (frame_body c.byte_max end n)
  going-scan_length b _ start slot end (ok (Length.count n)) =
      going-admit_array b start slot end (value_array c.node_max (c.store.len b) n)

  going-scan_integer :
      (b : S) (start slot end : ℕ) (r : Result NumberError ℤ)
      → going (scan_integer c bytes s b start slot end r)
        ≡ going (scan_integer c bytes' s b start slot end r)
  unfolding scan_integer
  going-scan_integer b start slot end (err cause) = refl
  going-scan_integer b start slot end (ok integer) =
      going-push_line b Line.integer start slot end (Kind.integer integer)

  going-scan_value :
      (b : S) (kind : Line) (start slot end body : ℕ) (value : Bytes)
      → going (scan_value c bytes s b kind start slot end body value)
        ≡ going (scan_value c bytes' s b kind start slot end body value)
  unfolding scan_value
  going-scan_value b Line.status start slot end body value =
      going-push_line b Line.status start slot end _
  going-scan_value b Line.server start slot end body value =
      going-push_line b Line.server start slot end _
  going-scan_value b Line.integer start slot end body value =
      going-scan_integer b start slot end (signed value body)
  going-scan_value b kind start slot end body value =
      going-scan_length b kind start slot end (number_length value body kind)

  pub going-found_line :
      (b : S) (kind : Line) (start slot : ℕ) (r : Result BadBreak (Option Found))
      → going (found_line c bytes s b kind start slot r)
        ≡ going (found_line c bytes' s b kind start slot r)
  unfolding found_line admit_line wait_line bad_line
  going-found_line b kind start slot (ok none) = ground arith
  going-found_line b kind start slot (err (offset, expected, actual)) = ground arith
  going-found_line b kind start slot (ok (some found)) = at (frame_line c.byte_max found)
    where
      at :
          (r : Result (Exceeded Brand.frame) (ℕ × ℕ))
          → going (admit_line c bytes s b kind start slot found.value r)
            ≡ going (admit_line c bytes' s b kind start slot found.value r)
      at (ok (end, body)) = going-scan_value b kind start slot end body found.value
      at (err error) = refl

  going-close_bulk :
      (b : S) (body slot cr lf : ℕ)
      → going (close_bulk c bytes s b body slot cr lf)
        ≡ going (close_bulk c bytes' s b body slot cr lf)
  unfolding close_bulk
  going-close_bulk b body slot cr lf = ground (
    arith,
    going-push c bytes bytes' s b slot (Kind.bulk body) (Restore.bulk body)
        (λ b'. settle c bytes (in_mode s Mode.start) b' (Body.end body) (Body.consumed body))
        (λ b'. settle c bytes' (in_mode s Mode.start) b' (Body.end body) (Body.consumed body))
        (λ b'.
          going-settle c bytes bytes' (in_mode s Mode.start) b' (Body.end body)
            (Body.consumed body)),
  )

module _ {E F S : Type 0} (c : Setting E F S) (p q : Bytes) (s : State) where
  bulk_tail-append :
      (b : S) (body slot : ℕ) (tail : Bytes) {s' : State} {b' : S}
      → bulk_tail c p s b body slot tail ≡ Round.again s' b'
      → going (bulk_tail c (p ++ q) s b body slot (tail ++ q)) ≡ some (s', b')
  unfolding bulk_tail
  bulk_tail-append b body slot (cr ∷ lf ∷ t) e =
      going-close_bulk c (p ++ q) p s b body slot cr lf ∙ ap going e
  bulk_tail-append b body slot [] e = absurd (cc)
  bulk_tail-append b body slot (x ∷ []) e = absurd (cc)

  scan_bulk-append :
      (b : S) (body slot : ℕ) {s' : State} {b' : S}
      → scan_bulk c p s b body slot ≡ Round.again s' b'
      → going (scan_bulk c (p ++ q) s b body slot) ≡ some (s', b')
  unfolding scan_bulk
  scan_bulk-append b body slot e = elim (dec_le (Body.stop body) (length p)) [
    | yes le ↦ rw (drop-append (Body.stop body) p q le) (bulk_tail-append b body slot _ e)
    | no gt ↦
        let none_left : drop (Body.stop body) p ≡ [] =
          drop-eq-nil (Body.stop body) p (omega arith) in
        absurd (unfold bulk_tail in cc (ap (bulk_tail c p s b body slot) (sym none_left) ∙ e))
  ]

  scan_marker-append :
      (b : S) (end : ℕ) {s' : State} {b' : S}
      → scan_marker c p s b end ≡ Round.again s' b'
      → going (scan_marker c (p ++ q) s b end) ≡ some (s', b')
  unfolding scan_marker admit_marker admit_slot marker_kind
  scan_marker-append b end e = elim (Option-cases (get_elem? p end)) [
    | inl n ↦ ground arith
    | inr (m, n) ↦ ground (arith, get_elem?-append end p q (lt_of_get_elem? end p n))
  ]

  scan_line-append :
      (b : S) (kind : Line) (start slot : ℕ) {s' : State} {b' : S}
      → scan_line c p s b kind start slot ≡ Round.again s' b'
      → going (scan_line c (p ++ q) s b kind start slot) ≡ some (s', b')
  unfolding scan_line
  scan_line-append b kind start slot {s'} {b'} e = at (find p start s.scan kind) refl
    where
      at :
          (r : Result BadBreak (Option Found))
          → find p start s.scan kind ≡ r
          → going (scan_line c (p ++ q) s b kind start slot) ≡ some (s', b')
      at (ok (some f)) h =
          rw (scan_line, find-append kind p q start s.scan h)
            (going-found_line c (p ++ q) p s b kind start slot (ok (some f))
              ∙ ap going (ap (found_line c p s b kind start slot) (sym h) ∙ e))
      at (ok none) h = absurd (
          unfold found_line wait_line in
          ground (arith, ap (found_line c p s b kind start slot) (sym h) ∙ e))
      at (err (o, x, y)) h = absurd (
          unfold found_line bad_line in
          ground (arith, ap (found_line c p s b kind start slot) (sym h) ∙ e))

eq_of_going :
    {E F S : Type 0} (r : Round E F S) {s : State} {b : S}
    → going r ≡ some (s, b)
    → r ≡ Round.again s b
eq_of_going (Round.again s b) e = cc
eq_of_going (Round.return o s b) e = cc

-- the same round on more bytes
pub round-append :
    {E F S : Type 0} (c : Setting E F S) (p q : Bytes) (s : State) (b : S) {s' : State} {b' : S}
    → round c p s b ≡ Round.again s' b'
    → round c (p ++ q) s b ≡ Round.again s' b'
unfolding round_in
round-append c p q s b {s'} {b'} = at s.mode
  where
    at :
        (m : Mode)
        → round_in c p m s b ≡ Round.again s' b'
        → round_in c (p ++ q) m s b ≡ Round.again s' b'
    at Mode.start e = eq_of_going _ (scan_marker-append c p q s b 0 e)
    at (Mode.marker end) e = eq_of_going _ (scan_marker-append c p q s b end e)
    at (Mode.line kind start slot) e = eq_of_going _ (scan_line-append c p q s b kind start slot e)
    at (Mode.bulk body slot) e = eq_of_going _ (scan_bulk-append c p q s b body slot e)
