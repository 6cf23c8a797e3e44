-- ===== src/Resp/Builder.antt =====
-- redis/src/protocol/parser/storage/mod.rs: the storage that all parsers share, and the builder of a tape
-- in it, which the scanner pushes values into. A `Held` and a `Stored` are the builder itself.
pub mod Built
pub mod Reads
mod Tests
use cartel.Base.{ℕ, none, some, ok, err, if◌then◌else◌, Option, Result}
use cartel.Resp.Capacity.{Capacity}
use cartel.Resp.Gate.{
  Fifo, Gate, Phase, acquire, drop_lane, finish_access, gate_new, release_access,
}
use cartel.Resp.Interface.{Builder, Pushed}
use cartel.Resp.Node.{Key, Kind, Node}
use cartel.Resp.Pool.{Pool, append, release, reserve, try_new}
use cartel.Resp.Tape.{Tape}

-- `Storage`
pub record Storage (Q : Type 0) : Type 0 where
  pub tapes : Pool
  pub gate : Gate Q

-- `Builder` and its `Access`, with the storage that they refer to
pub record Building (Q : Type 0) : Type 0 where
  pub storage : Storage Q
  pub phase : Phase
  pub tail : Option Key
  pub len : ℕ

-- `Storage::try_new`; the allocations are the o3 crate's
abbrev pub storage_new :
    {E Q : Type 0} (fifo : Fifo Q) (try_from_fn : ℕ → (ℕ → Node) → Result E (ℕ → Node))
    → (fifo_new : ℕ → Result E Q) → Capacity
    → Result E (Storage Q)
storage_new fifo try_from_fn fifo_new capacity = elim (try_new try_from_fn capacity.nodes) [
  | err error ↦ err error
  | ok tapes ↦ elim (fifo_new capacity.connections) [
    | err error ↦ err error
    | ok waiters ↦ ok (record { tapes = tapes; gate = gate_new fifo waiters capacity.lanes })
  ]
]

-- `Storage::builder`
abbrev pub builder_new : {Q : Type 0} → Storage Q → Building Q
builder_new storage = record { storage = storage; phase = Phase.idle; tail = none; len = 0 }

-- the `Tape` of a tail and a length
abbrev pub tape_at : (len : ℕ) → Option Key → Option Tape
tape_at len none = none
tape_at len (some tail) = some (record { tail = tail; len = len })

module _ {Q : Type 0} (fifo : Fifo Q) where
  -- the builder behind `Access::acquire`
  abbrev pub asked : Building Q → Building Q
  asked b =
      let (acquired, gate, phase) = acquire fifo b.storage.gate b.phase in
      record b { storage = record b.storage { gate = gate }; phase = phase }

  -- `Builder::try_push`, once the access is held, with what `reserve` returned
  abbrev pub push_free : Building Q → (slot : ℕ) → Kind → Option Key → Pushed (Building Q)
  push_free b slot value none = Pushed.full slot b
  push_free b slot value (some free) =
      let (tail, tapes) = append b.storage.tapes free b.tail value in
      Pushed.stored
        (record b { storage = record b.storage { tapes = tapes }; tail = some tail; len = slot })

  -- `Builder::try_push`
  unfoldable pub try_push : Building Q → (slot : ℕ) → Kind → Pushed (Building Q)
  try_push b slot value =
      if (acquire fifo b.storage.gate b.phase).0
      then push_free (asked b) slot value (reserve b.storage.tapes)
      else Pushed.blocked slot (asked b)

  -- the drop of a `Builder`: the storage is left
  unfoldable pub drop_builder : Building Q → Storage Q
  drop_builder b = record {
    tapes = release b.storage.tapes b.tail;
    gate = (release_access fifo b.storage.gate b.phase).0;
  }

  -- `Builder::reset`, which drops the old builder
  unfoldable pub reset : Building Q → Building Q
  unfolding drop_builder
  reset b = builder_new (drop_builder b)

  -- `Stored::finish`: the tape, of the tail that the push left, and the builder
  unfoldable pub finish : Building Q → Option Tape × Building Q
  finish b =
      (tape_at b.len b.tail, record b { phase = finish_access b.phase; tail = none; len = 0 })

  -- the drop of a `Tape`
  abbrev pub drop_tape : Storage Q → Tape → Storage Q
  drop_tape storage tape = record storage { tapes = release storage.tapes (some tape.tail) }

  -- what the scanner uses of a builder
  abbrev pub tape_builder : Builder (Building Q) (Option Tape)
  tape_builder = record { len = λ b. b.len; try_push = try_push; reset = reset; finish = finish }
