-- ===== src/Pg/Pool/Sync.antt =====
-- pg/src/port/pool/slot.rs: the Syncs that a connection owes, and pg/src/port/replies/batch.rs.
use cartel.Base.{
  ℕ, Result, ◌+◌, ◌-◌, ◌%◌, u32_max, u64_size, u64_max, if◌then◌else◌, ltb, ok, err, ◌==◌, leb, ◌/◌,
}
use cartel.Pg.Pool.{Boundary, Error}

-- `slot::Sync`; a depth is positive
pub data Sync : Type 0 where
  synced : Sync
  automatic explicit : (depth : ℕ) → Sync

-- `Sync::try_next`
unfoldable pub try_next : Sync → Boundary → Result Error Sync
try_next Sync.synced Boundary.close = ok Sync.synced
try_next Sync.synced Boundary.begin = ok Sync.synced
try_next Sync.synced Boundary.commit = ok Sync.synced
try_next Sync.synced Boundary.group = ok Sync.synced
try_next Sync.synced Boundary.opening = ok (Sync.automatic 1)
try_next Sync.synced Boundary.external = ok (Sync.explicit 1)
try_next (Sync.automatic depth) Boundary.close = ok Sync.synced
try_next (Sync.automatic depth) Boundary.begin = ok Sync.synced
try_next (Sync.automatic depth) Boundary.commit = ok Sync.synced
try_next (Sync.automatic depth) Boundary.group = err (Error.group_open depth)
try_next (Sync.automatic depth) Boundary.opening =
    if ltb depth u32_max
    then ok (Sync.automatic (depth + 1))
    else err (Error.request_depth_overflow depth)
try_next (Sync.automatic depth) Boundary.external = err (Error.copy_during_pipeline depth)
try_next (Sync.explicit depth) Boundary.close = err (Error.request_close_during_copy depth)
try_next (Sync.explicit depth) Boundary.begin = err (Error.request_close_during_copy depth)
try_next (Sync.explicit depth) Boundary.commit = err (Error.request_close_during_copy depth)
try_next (Sync.explicit depth) Boundary.group = err (Error.group_open depth)
try_next (Sync.explicit depth) Boundary.opening = err (Error.request_open_during_copy depth)
try_next (Sync.explicit depth) Boundary.external = err (Error.copy_already_open depth)

-- `Batch`: a u64
abbrev pub Batch : Type 0
Batch = ℕ

-- `Batch::INITIAL` and `Batch::next`
abbrev pub first_batch : Batch
first_batch = 0

abbrev pub next_batch : Batch → Batch
next_batch b = (b + 1) % u64_size

-- `cmp::Ordering`
pub data Comparison : Type 0 where
  less equal greater : Comparison

-- `Batch::relative_to`; `wrapping_sub` first
unfoldable pub relative_to : Batch → (expected : Batch) → Comparison
relative_to b expected =
    let distance = (b + u64_size - expected) % u64_size in
    if distance == 0
    then Comparison.equal
    else if leb distance (u64_max / 2)
    then Comparison.greater
    else Comparison.less
