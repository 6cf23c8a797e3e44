-- ===== src/Pg/Pool/Ready/Moves.antt =====
-- pg/src/protocol/runtime/ready/storage/index.rs: the operations of the index of connections.
use cartel.Base.{ℕ, Bool, Option, none, some, true, false, if◌then◌else◌, ◌-◌, ◌+◌, ◌==◌, ◌&&◌}
use cartel.Pg.Pool.{Disposition, Ids}
use cartel.Pg.Pool.Slot.{Slot, barriers}
use cartel.Pg.Pool.Phases.{State, is_receiving, set_receiving}
use cartel.Pg.Pool.Life.{Close, Closed, Transaction, bind, slot_ready, try_close}
use cartel.Pg.Pool.Turns.{
  Current, Finalization, Reserved, activate, current, finalize, finish, release, reserve,
}
use cartel.Pg.Pool.Ready.{
  Index, Links, Resident, entry, insert, insert_rank, remove, reprioritize, set_slot,
}

-- `poll::Status`, `poll::Readiness`
pub data Status : Type 0 where
  idle transaction : Status

pub data Readiness : Type 0 where
  ready pending : Readiness

-- whether a closed connection held a blocker, and whether it was live
abbrev pub was_blocker : {K : Type 0} → Closed K → Bool
was_blocker (Closed.reserved id) = true
was_blocker (Closed.held id) = true
was_blocker _ = false

abbrev pub was_live : {K : Type 0} → Closed K → Bool
was_live Closed.handshaking = false
was_live Closed.closing = false
was_live _ = true

-- whether a connection is shared
abbrev pub is_shared : {K : Type 0} → Current K → Bool
is_shared Current.shared = true
is_shared _ = false

module _ {K T F L : Type 0} (hooks : Links L) where
  abbrev pub fewer_blockers : Index K T F L → Index K T F L
  fewer_blockers x = record x { blockers = x.blockers - 1 }

  -- `Listed::reserve`, of the entry at an index with its rank; `none` is the `unreachable!` of the source
  abbrev pub reserved_in :
      Index K T F L
      → (index rank : ℕ) → Reserved K T F
      → Option (Option (Transaction K) × Index K T F L)
  reserved_in x index rank Reserved.unlisted = none
  reserved_in x index rank (Reserved.exhausted slot) =
      some (none, remove hooks (set_slot x index slot) index rank)
  reserved_in x index rank (Reserved.reserved id slot) =
      let removed = remove hooks (set_slot x index slot) index rank in
      some (some id, record removed { blockers = removed.blockers + 1 })

  unfoldable pub reserve_listed :
      Index K T F L
      → (index rank : ℕ) → Slot K T F
      → Option (Option (Transaction K) × Index K T F L)
  unfolding reserve remove
  reserve_listed x index rank slot = reserved_in x index rank (reserve slot)

  -- `Reservation::release`, of the slot at the index
  unfoldable pub release_reservation :
      Index K T F L → (index rank : ℕ) → Slot K T F → Transaction K → Index K T F L
  unfolding insert_rank
  release_reservation x index rank slot id =
      fewer_blockers (insert_rank hooks (set_slot x index (release slot id)) index rank)

  -- `Reservation::commit` keeps a reservation, and `Reservation::release` gives it back
  unfoldable pub settled_turn :
      (index rank : ℕ)
      → (commits : Bool) → Option (Option (Transaction K) × Index K T F L)
      → Option (Index K T F L)
  unfolding release_reservation
  settled_turn index rank commits none = none
  settled_turn index rank commits (some (none, y)) = some y
  settled_turn index rank true (some (some id, y)) = some y
  settled_turn index rank false (some (some id, y)) = elim (entry y index) [
    | none ↦ some y
    | some r ↦ some (release_reservation y index rank r.slot id)
  ]

  -- a turn that reserves the connection at an index, if it is listed
  unfoldable pub reserve_turn :
      Index K T F L → (index : ℕ) → (commits : Bool) → Option (Index K T F L)
  unfolding reserve_listed settled_turn
  reserve_turn x index commits = elim (entry x index) [
    | none ↦ some x
    | some r ↦ elim r.priority [
      | none ↦ some x
      | some rank ↦ settled_turn index rank commits (reserve_listed x index rank r.slot)
    ]
  ]

  module _ (ids : Ids K) where
    -- `Set::bind`
    unfoldable pub index_bind : Index K T F L → K → T → Index K T F L
    unfolding bind
    index_bind x token target = elim (entry x (ids.index token)) [
      | none ↦ x
      | some r ↦ set_slot x (ids.index token) ((bind r.slot token target).1)
    ]

    -- `Index::try_ready`; `Reason::PrepareReady` is the only error
    abbrev pub ready_at : Index K T F L → (index : ℕ) → Option (Slot K T F) → Option (Index K T F L)
    ready_at x index none = none
    ready_at x index (some slot) =
        let listed = insert hooks (set_slot x index slot) index 0 in
        some (record listed { live = listed.live + 1 })

    unfoldable pub try_ready : Index K T F L → K → Option (Index K T F L)
    unfolding slot_ready insert_rank
    try_ready x token = elim (entry x (ids.index token)) [
      | none ↦ none
      | some r ↦ ready_at x (ids.index token) (slot_ready ids r.slot token)
    ]

    -- the end of a finalization; a connection that receives is not listed
    abbrev pub finished : Index K T F L → (index : ℕ) → Slot K T F → (depth : ℕ) → Index K T F L
    finished x index slot depth =
        let freed = set_slot x index slot in
        if is_receiving slot.phase then freed else insert hooks freed index depth

    abbrev pub polled :
        Index K T F L
        → (index : ℕ) → Slot K T F
        → Current K
        → Status
        → (depth : ℕ) → (Readiness × Option (Transaction K)) × Index K T F L
    polled x index slot (Current.reserved id) Status.idle depth = ((Readiness.ready, some id), x)
    polled x index slot (Current.reserved id) Status.transaction depth =
        ((Readiness.ready, some id), set_slot x index (activate slot id))
    polled x index slot (Current.held id) status depth = ((Readiness.ready, some id), x)
    polled x index slot (Current.finalizing id) Status.transaction depth =
        ((Readiness.pending, none), x)
    polled x index slot (Current.finalizing id) Status.idle depth =
        ((Readiness.ready, some id), finished x index (finish slot id) depth)
    polled x index slot _ status depth = ((Readiness.ready, none), x)

    -- `Index::poll_ready`
    unfoldable pub poll_ready :
        Index K T F L
        → K
        → Status
        → (depth : ℕ) → (Readiness × Option (Transaction K)) × Index K T F L
    unfolding current insert_rank is_receiving
    poll_ready x token status depth = elim (entry x (ids.index token)) [
      | none ↦ ((Readiness.ready, none), x)
      | some r ↦ polled x (ids.index token) r.slot (current ids r.slot token) status depth
    ]

    abbrev pub finalized :
        Index K T F L → (index : ℕ) → Finalization K × Slot K T F → Finalization K × Index K T F L
    finalized x index (Finalization.pending id, slot) =
        (Finalization.pending id, fewer_blockers (set_slot x index slot))
    finalized x index (state, slot) = (state, set_slot x index slot)

    -- `Index::finalize`
    unfoldable pub index_finalize : Index K T F L → Transaction K → Finalization K × Index K T F L
    unfolding finalize
    index_finalize x id = elim (entry x (ids.index id.conn)) [
      | none ↦ (Finalization.lost id, x)
      | some r ↦ finalized x (ids.index id.conn) (finalize ids r.slot id)
    ]

    -- an entry that was listed is removed
    abbrev pub unlisted : Index K T F L → (index : ℕ) → Option ℕ → Index K T F L
    unlisted x index none = x
    unlisted x index (some rank) = remove hooks x index rank

    -- the counts behind a close
    abbrev pub uncounted : Closed K → Index K T F L → Index K T F L
    uncounted state x =
        let unblocked = if was_blocker state then fewer_blockers x else x in
        if was_live state then record unblocked { live = unblocked.live - 1 } else unblocked

    abbrev pub closed_at :
        Index K T F L
        → (index : ℕ) → Option ℕ
        → Option (Close K F × Slot K T F)
        → Option (Close K F × Index K T F L)
    closed_at x index listed none = none
    closed_at x index listed (some (close, slot)) =
        some (close, uncounted close.state (unlisted (set_slot x index slot) index listed))

    -- `Index::close`
    unfoldable pub index_close :
        Index K T F L → K → F → Disposition → Option (Close K F × Index K T F L)
    unfolding try_close remove
    index_close x token cause fate = elim (entry x (ids.index token)) [
      | none ↦ none
      | some r ↦ closed_at x (ids.index token) r.priority (try_close ids r.slot token cause fate)
    ]

    abbrev pub reindexed :
        Index K T F L
        → (index : ℕ) → Resident K T F
        → Current K
        → (token : K) → (depth : ℕ) → Option K × Index K T F L
    reindexed x index r Current.shared token depth =
        (none, reprioritize hooks x index r.priority (depth + barriers r.slot))
    reindexed x index r Current.draining token depth =
        (if depth == 0 && barriers r.slot == 0 then some token else none, x)
    reindexed x index r _ token depth = (none, x)

    -- `Index::reindex`: the connection that is to be closed, if any
    unfoldable pub reindex : Index K T F L → K → (depth : ℕ) → Option K × Index K T F L
    unfolding current reprioritize
    reindex x token depth = elim (entry x (ids.index token)) [
      | none ↦ (none, x)
      | some r ↦ reindexed x (ids.index token) r (current ids r.slot token) token depth
    ]

    abbrev pub received_at :
        Index K T F L
        → (index : ℕ) → Resident K T F
        → (token : K) → (receiving : Bool) → (depth : ℕ) → Bool × State K T F
        → Bool × Index K T F L
    received_at x index r token receiving depth (false, phase) = (false, x)
    received_at x index r token true depth (true, phase) =
        (false, unlisted (set_slot x index (record r.slot { phase = phase })) index r.priority)
    received_at x index r token false depth (true, phase) =
        let slot = record r.slot { phase = phase } in
        let moved = set_slot x index slot in
        (
          true,
          if is_shared (current ids slot token)
              then insert hooks moved index (depth + barriers slot)
              else moved,
        )

    -- `Index::set_receiving`: whether the waiters are to be told
    unfoldable pub index_receiving :
        Index K T F L → K → (receiving : Bool) → (depth : ℕ) → Bool × Index K T F L
    unfolding set_receiving current insert_rank remove
    index_receiving x token receiving depth = elim (entry x (ids.index token)) [
      | none ↦ (false, x)
      | some r ↦
          received_at x (ids.index token) r token receiving depth
            (set_receiving ids r.slot.phase token receiving)
    ]
