-- ===== src/Pg/Codec.antt =====
-- pg/src/protocol/frame/codec.rs: the frames of the protocol.
pub mod Frames
use cartel.Base.{
  Option, Result, [], err, if◌then◌else◌, leb, length, ltb, none, ok, one_plus_u64, some, u32_max,
  ℕ, ◌*◌, ◌+◌, ◌-◌, ◌∷◌,
}
use cartel.Pg.Reason.{Reason}
use cartel.Pg.Wire.{Wire}

-- what the codec uses of `codec::Input` of the dope crate, over a type of source errors: `need_to`,
-- which finds whether a buffer can grow to a length, `try_consumed` and `try_prefix`
pub record Input (E N : Type 0) : Type 0 where
  pub need_to : Wire → ℕ → Option N
  pub try_consumed : Wire → ℕ → Option E
  pub try_prefix : Wire → (offset count : ℕ) → Result E Wire

-- `frame::Head`, with the message's type and payload
pub data Head : Type 0 where
  message : (typ : ℕ) (payload : Wire) → Head
  fatal : Reason → Head

-- `codec::Parse`
pub data Parse (N : Type 0) : Type 0 where
  more : N → Parse N
  capacity_exhausted : Parse N
  item : Head → (consumed : ℕ) → Parse N

-- `codec::Finish`
pub data Finish : Type 0 where
  empty : Finish
  item : Head → Finish

-- `u32::from_be_bytes`
abbrev pub from_be_bytes : (a b c d : ℕ) → ℕ
from_be_bytes a b c d = ((a * 256 + b) * 256 + c) * 256 + d

-- a wait for `total` bytes
abbrev pub need : {E N : Type 0} → Input E N → Wire → (total : ℕ) → Result E (Parse N)
need input bytes total = elim (input.need_to bytes total) [
  | some n ↦ ok (Parse.more n)
  | none ↦ ok Parse.capacity_exhausted
]

-- a fatal item that consumes `used` bytes
abbrev pub fatal_item : {E N : Type 0} → Input E N → Wire → (used : ℕ) → Reason → Result E (Parse N)
fatal_item input bytes used reason = elim (input.try_consumed bytes used) [
  | some cause ↦ err cause
  | none ↦ ok (Parse.item (Head.fatal reason) used)
]

-- `parse`, behind the header: `wire` is the declared length
unfoldable pub parse_body :
    {E N : Type 0} → Input E N → (max_frame_bytes : ℕ) → Wire → (typ wire : ℕ) → Result E (Parse N)
parse_body input max_frame_bytes bytes typ wire =
    if ltb wire 4
    then fatal_item input bytes (one_plus_u64 (length bytes - 1)) (Reason.frame_length wire 4)
    else if leb max_frame_bytes wire
    then fatal_item input bytes (one_plus_u64 4) (Reason.frame_capacity wire max_frame_bytes)
    else if ltb (length bytes) (wire + 1)
    then need input bytes (wire + 1)
    else elim (input.try_prefix bytes 5 (one_plus_u64 (wire + 1 - 1))) [
      | err cause ↦ err cause
      | ok payload ↦ ok (Parse.item (Head.message typ payload) (one_plus_u64 (wire + 1 - 1)))
    ]

-- `Codec::parse`
unfoldable pub parse :
    {E N : Type 0} → Input E N → (max_frame_bytes : ℕ) → Wire → Result E (Parse N)
parse input max_frame_bytes (typ ∷ a ∷ b ∷ c ∷ d ∷ rest) =
    parse_body input max_frame_bytes (typ ∷ a ∷ b ∷ c ∷ d ∷ rest) typ (from_be_bytes a b c d)
parse input max_frame_bytes bytes = need input bytes 5

-- the reason of `finish`, of bytes whose length is `actual`
unfoldable pub finish_reason : (max_frame_bytes actual : ℕ) → Wire → Reason
finish_reason max_frame_bytes actual (typ ∷ a ∷ b ∷ c ∷ d ∷ rest) =
    let wire = from_be_bytes a b c d in
    if ltb wire 4
    then Reason.frame_length wire 4
    else if leb max_frame_bytes wire
    then Reason.frame_capacity wire max_frame_bytes
    else Reason.frame_truncated actual (wire + 1)
finish_reason max_frame_bytes actual bytes = Reason.frame_truncated actual 5

-- `Codec::finish`; `Length::try_new` refuses what a u32 cannot hold
unfoldable pub finish : (max_frame_bytes : ℕ) → Wire → Finish
finish max_frame_bytes [] = Finish.empty
finish max_frame_bytes (b ∷ bs) =
    if leb (length (b ∷ bs)) u32_max
    then Finish.item (Head.fatal (finish_reason max_frame_bytes (length (b ∷ bs)) (b ∷ bs)))
    else Finish.item (Head.fatal (Reason.wire_length (length (b ∷ bs))))
