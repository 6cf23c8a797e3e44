-- ===== src/Resp/Tape.antt =====
-- redis/src/protocol/parser/storage/cursors.rs and tape.rs: a completed tape, read through cursors.
-- The tape's pool is an argument of what reads it.
pub mod Events
use cartel.Base.{
  List, Option, Result, [], err, if◌then◌else◌, leb, map_err, none, not, ok, one_plus_u32, some,
  sub_u32, suc, zero, ℕ, ◌-◌, ◌==◌, ◌>>=◌, ◌∷◌,
}
use cartel.Pg.Scram.Next.{behind}
use cartel.Resp.Node.{Kind, Value, Key, kind, try_value}
use cartel.Resp.Pool.{Pool, head, read}
use cartel.Resp.Body

-- `Cursor`
pub record Cursor : Type 0 where
  pub next : Key
  pub remaining : ℕ

-- `Batch`; its width is an argument of what makes it
pub record Batch : Type 0 where
  pub next : Key
  pub left : ℕ

-- `Read`
pub record Read (T : Type 0) : Type 0 where
  pub value : T
  pub cursor : Cursor

-- `Array`
pub record Array : Type 0 where
  pub cursor : Cursor
  pub len : ℕ

-- `Length`, a length that is not the width asked for
pub record WidthError : Type 0 where
  pub width : ℕ
  pub actual : ℕ

-- `Mismatch`
pub data Mismatch : Type 0 where
  server : (span : ℕ) → Mismatch
  value : Value → Mismatch

-- `Cursor::children`
abbrev pub children : (n : ℕ) → Cursor → Batch
children n c = record { next = c.next; left = one_plus_u32 (sub_u32 c.remaining n) }

-- `Cursor::batch` and `Cursor::batch_exact`
unfoldable pub batch : (n : ℕ) → Cursor → Option Batch
batch n c = if leb n c.remaining then some (children n c) else none

unfoldable pub batch_exact : (n : ℕ) → Cursor → Result ℕ Batch
batch_exact n c = if not (c.remaining == n) then err c.remaining else ok (children n c)

-- `Array::exact`
unfoldable pub array_exact : (n : ℕ) → Array → Result WidthError Batch
array_exact n a =
    if not (a.len == n)
    then err (record { width = n; actual = a.len })
    else ok (children n a.cursor)

-- `Batch::finish`
abbrev pub batch_finish : Batch → Key → Cursor
batch_finish b next = record { next = next; remaining = b.left - 1 }

-- `Tape`
pub record Tape : Type 0 where
  pub tail : Key
  pub len : ℕ

-- `Tape::cursor` and `Tape::root`
abbrev pub tape_cursor : Pool → Tape → Cursor
tape_cursor p t = record { next = head p t.tail; remaining = t.len }

abbrev pub root : Pool → Tape → Batch
root p t = record { next = head p t.tail; left = t.len }

-- `Tape::event`
unfoldable pub event : Pool → Cursor → Option (Read Kind)
unfolding batch
event p c = elim (batch 1 c) [
  | none ↦ none
  | some b ↦
      some (record { value = kind (read p b.next); cursor = batch_finish b (read p b.next).next })
]

-- `Tape::take`
unfoldable pub take_value : Pool → Batch → Result ℕ (Read Value)
take_value p b = elim (try_value (read p b.next)) [
  | err span ↦ err span
  | ok v ↦ ok (record { value = v; cursor = batch_finish b (read p b.next).next })
]

-- `Tape::pair`
unfoldable pub pair : Pool → Batch → Read (Result ℕ Value × Result ℕ Value)
pair p b =
    let first = read p b.next in
    let second = read p first.next in
    record { value = (try_value first, try_value second); cursor = batch_finish b second.next }

-- `array`
unfoldable pub array_of : Value → Cursor → Result Mismatch Array
array_of (Value.array len) cursor = ok (record { cursor = cursor; len = len })
array_of Value.nil cursor = ok (record { cursor = cursor; len = 0 })
array_of actual cursor = err (Mismatch.value actual)

-- `Tape::array`
unfoldable pub tape_array : Pool → Batch → Result Mismatch Array
unfolding array_of take_value
tape_array p b = do
  found ← map_err Mismatch.server (take_value p b)
  array_of found.value found.cursor

-- `Tape::scan`
unfoldable pub scan_reply : Pool → Batch → Result ℕ Value × Result Mismatch Array
unfolding array_of pair
scan_reply p b =
    let found = pair p b in
    (found.value.0, map_err Mismatch.server found.value.1 >>= λ v. array_of v found.cursor)

-- the spans of `n` nodes from `next` on, and the key behind them
unfoldable pub spans_from : Pool → (n : ℕ) → (next : Key) → List ℕ × Key
spans_from p zero next = ([], next)
spans_from p (suc n) next =
    let (spans, behind) = spans_from p n (read p next).next in
    (Body.from_stored (read p next).payload ∷ spans, behind)

-- `Tape::bulks` of a batch of `n`
unfoldable pub tape_bulks : Pool → (n : ℕ) → Batch → Read (List ℕ)
unfolding spans_from
tape_bulks p n b = record {
  value = (spans_from p n b.next).0;
  cursor = batch_finish b (spans_from p n b.next).1;
}
