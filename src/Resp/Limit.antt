-- ===== src/Resp/Limit.antt =====
-- redis/src/protocol/parser/limit.rs: the admission of frame offsets and of node counts.
-- A `NonZero<u32>` or `NonZero<u64>` is its number, and a `usize` has 64 bits.
pub mod Append
pub mod Bounds
pub mod Resume
pub mod Search
use cartel.Base.{
  Bool, Option, Result, [], add_u32, add_u64, as_u32, drop, err, false, get_elem?, get_or,
  if◌then◌else◌, leb, length, ltb, max, min, none, not, ok, one_plus_u32, one_plus_u64, some, suc,
  take, u32_max, u64_size, ℕ, ◌&&◌, ◌*◌, ◌+◌, ◌-◌, ◌==◌, ◌>>=◌, ◌||◌, ◌∷◌,
}
use cartel.Resp.Body
use cartel.Resp.Types.{Bytes, Line}

-- the brands `Frame` and `Value` of a bound
pub data Brand : Type 0 where
  frame value : Brand

pub record Bound (k : Brand) : Type 0 where
  pub value : ℕ

pub record Exceeded (k : Brand) : Type 0 where
  pub low : ℕ
  pub capacity : ℕ
  pub overflow : Bool

pub data Invalid : Type 0 where
  zero : Invalid
  above : (actual maximum : ℕ) → Invalid

-- `Bound::try_new`; `limit_new` is `Limit::new` of the o3 crate, with the count it admits
abbrev pub bound_try_new : {k : Brand} (limit_new : ℕ → Option ℕ) → ℕ → Result Invalid (Bound k)
bound_try_new limit_new n = elim (limit_new n) [
  | none ↦ err (if n == 0 then Invalid.zero else above n u32_max)
  | some v ↦ ok (record { value = v })
]

-- `Bound::consumed`
abbrev pub bound_consumed : {k : Brand} → Bound k → ℕ
bound_consumed b = one_plus_u64 (b.value - 1)

-- `Bound::exceeded`
abbrev pub exceeded : {k : Brand} → Bound k → ℕ → Bool → Exceeded k
exceeded b low overflow = record { low = low; capacity = b.value; overflow = overflow }

-- `Bound::count`; `build` is the caller's closure. The sum that may overflow is the u64 one.
unfoldable pub count :
    {k : Brand} {T : Type 0} → Bound k → (len added : ℕ) → (ℕ → T) → Result (Exceeded k) T
count b len added build =
    if ltb b.value len
    then err (exceeded b (add_u64 len (added - 1)) (leb u64_size (len + (added - 1))))
    else if leb b.value (add_u64 len (added - 1))
    then err (exceeded b (add_u64 len (added - 1)) false)
    else ok (build (as_u32 len))

-- `Exceeded::required`; `low` is below 2^64, so that its `|` with the shifted flag is their sum
abbrev pub required : {k : Brand} → Exceeded k → ℕ
required e = min (1 + (e.low + (if e.overflow then u64_size else 0))) (u64_size * u64_size - 1)

-- `Bound<Frame>::check`
unfoldable pub frame_check : Bound Brand.frame → ℕ → Option (Exceeded Brand.frame)
frame_check b required =
    if leb required b.value then none else some (exceeded b (required - 1) false)

-- `Bound<Frame>::next`; an `End` is its number
unfoldable pub frame_next : Bound Brand.frame → ℕ → Result (Exceeded Brand.frame) ℕ
frame_next b used =
    if leb b.value used then err (exceeded b used false) else ok (one_plus_u32 (as_u32 used))

-- `Line`: the bytes between a marker and its CRLF, and where they start
pub record Found : Type 0 where
  pub value : Bytes
  pub start : ℕ

-- `Line::stop`
abbrev pub found_stop : Found → ℕ
found_stop l = l.start + length l.value

-- `Bound<Frame>::line`: the end behind the LF, and the packed body
unfoldable pub frame_line : Bound Brand.frame → Found → Result (Exceeded Brand.frame) (ℕ × ℕ)
frame_line b l = do
  end ← frame_next b (found_stop l + 1)
  ok (end, Body.new l.start (as_u32 (found_stop l)))

-- `Bound<Frame>::body`: the packed body of a bulk that is announced with `length` bytes
unfoldable pub frame_body : Bound Brand.frame → (start length : ℕ) → Result (Exceeded Brand.frame) ℕ
unfolding count
frame_body b start length = count b length (start + 2) (λ n. Body.new start (add_u32 start n))

-- `Bound<Value>::next`; a `Slot` is its number
unfoldable pub value_next : Bound Brand.value → ℕ → Result (Exceeded Brand.value) ℕ
value_next b used =
    if ltb b.value (used + 1) then err (exceeded b (used + 1 - 1) false) else ok (one_plus_u32 used)

-- `Bound<Value>::array`; a `Count` is its number, zero for `None`
unfoldable pub value_array :
    Bound Brand.value → (used declared : ℕ) → Result (Exceeded Brand.value) ℕ
unfolding count
value_array b used declared = count b declared (used + 1) (λ n. n)

-- `End::consumed`
abbrev pub end_consumed : ℕ → ℕ
end_consumed e = one_plus_u64 (e - 1)

-- `DEPTH` and `OVER_DEPTH`
abbrev pub depth : ℕ
depth = 64

abbrev pub over_depth : ℕ
over_depth = 65

-- the position one further on
abbrev pub shifted : Option ℕ → Option ℕ
shifted none = none
shifted (some i) = some (suc i)

-- `position(|byte| matches!(byte, b'\r' | b'\n'))`
unfoldable pub position_break : Bytes → Option ℕ
position_break [] = none
position_break (c ∷ cs) = if c == b'\r' || c == b'\n' then some 0 else shifted (position_break cs)

abbrev pub head_is : ℕ → Bytes → Bool
head_is b [] = false
head_is b (c ∷ _) = c == b

-- `windows(2).position(|pair| pair == b"\r\n")`
unfoldable pub position_crlf : Bytes → Option ℕ
position_crlf [] = none
position_crlf (c ∷ cs) =
    if c == b'\r' && head_is b'\n' cs then some 0 else shifted (position_crlf cs)

-- `bytes.get(begin..end)` as the value of a line
unfoldable pub line_at : Bytes → (begin end : ℕ) → Option Found
line_at bytes begin end =
    if leb begin end && leb end (length bytes)
    then some (record { value = take (end - begin) (drop begin bytes); start = begin })
    else none

-- what `Line::find` rejects: an offset, the byte expected there and the byte found
abbrev pub BadBreak : Type 0
BadBreak = ℕ × ℕ × ℕ

-- the `Status | Server` arm of `Line::find`, with the first CR or LF at `offset` of the tail
unfoldable pub text_break : Bytes → (begin scan offset : ℕ) → Result BadBreak (Option Found)
unfolding line_at
text_break bytes begin scan offset =
    if get_or (drop scan bytes) offset 0 == b'\n'
    then err (scan + offset, b'\r', b'\n')
    else elim (get_elem? (drop scan bytes) (offset + 1)) [
      | none ↦ ok none
      | some actual ↦
          if not (actual == b'\n')
          then err (scan + offset + 1, b'\n', actual)
          else ok (line_at bytes begin (scan + offset))
    ]

unfoldable pub find_text : Bytes → (begin scan : ℕ) → Result BadBreak (Option Found)
unfolding text_break position_break
find_text bytes begin scan = elim (position_break (drop scan bytes)) [
  | none ↦ ok none
  | some offset ↦ text_break bytes begin scan offset
]

-- the `Integer | Bulk | Array` arm of `Line::find`
unfoldable pub find_counted : Bytes → (begin scan : ℕ) → Result BadBreak (Option Found)
unfolding line_at position_crlf
find_counted bytes begin scan = elim (position_crlf (drop scan bytes)) [
  | none ↦ ok none
  | some offset ↦ ok (line_at bytes begin (scan + offset))
]

-- the two arms of `Line::find`
unfoldable pub find_in : Line → Bytes → (begin scan : ℕ) → Result BadBreak (Option Found)
unfolding find_text find_counted
find_in Line.status = find_text
find_in Line.server = find_text
find_in Line.integer = find_counted
find_in Line.bulk = find_counted
find_in Line.array = find_counted

-- `Line::find`
unfoldable pub find : Bytes → (start scan : ℕ) → Line → Result BadBreak (Option Found)
unfolding find_in
find bytes start scan kind =
    if ltb (length bytes) (max scan start)
    then ok none
    else find_in kind bytes start (max scan start)
