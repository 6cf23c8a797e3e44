-- ===== src/Resp/State/Depth.antt =====
-- How many arrays are open: no more than MAX_DEPTH, and none once a reply is complete.
use cartel.Base.{
  ℕ, refl, none, some, ok, err, [], arith, inl, inr, length, ◌≡◌, Option, Result, Bool-cases, ◌≤◌,
  List, ◌==◌, ltb,
}
use cartel.Resp.Interface.{IsLawful, Pushed}
use cartel.Resp.Limit.{over_depth, depth, end_consumed}
use cartel.Resp.Mode.{Mode, Restore, Round, Scan, State, finish_left, in_mode, initial, restored}
use cartel.Resp.Mode.Left.{AllOpen, Finishes, finish_left-wanted}
use cartel.Resp.Node.{Kind}
use cartel.Resp.Settle.{Setting, complete_reply, open_array, push, push_line, reject, settle}
use cartel.Resp.Types.{Bytes, Line, Error}

-- At most 64 arrays are open, each with an element to come.
pub record IsShallow (s : State) : Type 0 where
  pub nonempty : AllOpen s.left
  pub bounded : length s.left ≤ 64

-- what a scan leaves
abbrev pub Settles : {E F S : Type 0} → Scan E F × State × S → Type 0
Settles (Scan.complete frame tape n, s, b) = s ≡ initial
Settles (outcome, s, b) = IsShallow s

abbrev pub Keeps : {E F S : Type 0} → Round E F S → Type 0
Keeps (Round.again s b) = IsShallow s
Keeps (Round.return outcome s b) = Settles (outcome, s, b)

pub initial-IsShallow : IsShallow initial
unfolding AllOpen
initial-IsShallow = record { nonempty = tt; bounded = omega arith }

module _ {E F S : Type 0} (c : Setting E F S) (law : IsLawful c.input) (p : Bytes) where
  pub reject-Keeps :
      (s : State) (b : S) (n : ℕ) (build : ℕ → Scan E F)
      → Settles (build n, s, b)
      → IsShallow s
      → Keeps (reject c p s b n build)
  reject-Keeps s b n build built shallow = on (c.input.try_consumed p n)
    where
      on :
          (o : Option E)
          → Settles {S = S} ((elim o [ none ↦ build n | some cause ↦ Scan.source cause ]), s, b)
      on none = built
      on (some cause) = shallow

  complete_reply-Keeps :
      (s : State) (b : S) (count : ℕ) → IsShallow s → Keeps (complete_reply c p s b count)
  unfolding complete_reply
  complete_reply-Keeps s b count shallow = on (c.input.try_prefix p 0 count)
    where
      on :
          (r : Result E Bytes)
          → Keeps (elim r [
            | err cause ↦ Round.return (Scan.source cause) s b
            | ok frame ↦
                let (tape, b') = c.store.finish b in
                Round.return (Scan.complete frame tape count) initial b'
          ])
      on (err cause) = shallow
      on (ok frame) = refl

  pub settle-Keeps :
      (s : State) (b : S) (end count : ℕ) → IsShallow s → Keeps (settle c p s b end count)
  unfolding settle AllOpen
  settle-Keeps s b end count shallow =
      on (finish_left s.left) (finish_left-wanted s.left shallow.nonempty)
    where
      on :
          (o : Option (List ℕ))
          → Finishes s.left o
          → Keeps (elim o [
            | none ↦ complete_reply c p (record s { left = []; mode = Mode.start }) b count
            | some left ↦ Round.again (record s { left = left; mode = Mode.marker end }) b
          ])
      on none e = complete_reply-Keeps _ b count (record { nonempty = tt; bounded = omega arith })
      on (some left) (wanted, filled, fewer) = record {
        nonempty = filled;
        bounded = omega (arith, fewer, shallow.bounded);
      }

  pub push-Keeps :
      (s : State) (b : S) (slot : ℕ) (kind : Kind) (restore : Restore) (next : S → Round E F S)
      → IsShallow s
      → ((b' : S) → Keeps (next b'))
      → Keeps (push c p s b slot kind restore next)
  unfolding push
  push-Keeps s b slot kind restore next shallow then_keeps = on (c.store.try_push b slot kind)
    where
      kept : (m : Mode) → IsShallow (in_mode s m)
      kept m = record { nonempty = shallow.nonempty; bounded = shallow.bounded }

      on :
          (r : Pushed S)
          → Keeps (elim r [
            | Pushed.stored b' ↦ next b'
            | Pushed.blocked slot' b' ↦
                Round.return Scan.blocked (in_mode s (restored restore slot')) b'
            | Pushed.full slot' b' ↦
                Round.return Scan.retain_capacity (in_mode s (restored restore slot')) b'
          ])
      on (Pushed.stored b') = then_keeps b'
      on (Pushed.blocked slot' b') = kept (restored restore slot')
      on (Pushed.full slot' b') = kept (restored restore slot')

  pub mode-IsShallow : (s : State) (m : Mode) → IsShallow s → IsShallow (in_mode s m)
  mode-IsShallow s m shallow = record { nonempty = shallow.nonempty; bounded = shallow.bounded }

  pub push_line-Keeps :
      (s : State) (b : S) (kind : Line) (start slot end : ℕ) (value : Kind)
      → IsShallow s
      → Keeps (push_line c p s b kind start slot end value)
  unfolding push_line
  push_line-Keeps s b kind start slot end value shallow =
      push-Keeps s b slot value (Restore.line kind start) _ shallow (λ b'.
        settle-Keeps (in_mode s Mode.start) b' end (end_consumed end)
          (mode-IsShallow s Mode.start shallow))

  pub open_array-Keeps :
      (s : State) (b : S) (start slot end count : ℕ)
      → IsShallow s
      → Keeps (open_array c p s b start slot end count)
  unfolding open_array AllOpen
  open_array-Keeps s b start slot end count shallow = elim (Bool-cases (count == 0)) [
    | inl empty ↦
        rw (empty, open_array)
          (push-Keeps s b slot (Kind.array count) (Restore.line Line.array start) _ shallow (λ b'.
            settle-Keeps (in_mode s Mode.start) b' end (end_consumed end)
              (mode-IsShallow s Mode.start shallow)))
    | inr some_more ↦ elim (Bool-cases (ltb (length s.left) 64)) [
      | inl room ↦
          rw (some_more, law.room s.left, room, open_array)
            (push-Keeps s b slot (Kind.array count) (Restore.line Line.array start) _ shallow (λ b'.
              record {
                nonempty = (ground (arith, some_more), shallow.nonempty);
                bounded = ground (arith, room, shallow.bounded);
              }))
      | inr deep ↦
          rw (some_more, law.room s.left, deep, open_array)
            (reject-Keeps s b (end_consumed end) (Scan.invalid (Error.depth over_depth depth count))
              shallow shallow)
    ]
  ]
