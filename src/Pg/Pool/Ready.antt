-- ===== src/Pg/Pool/Ready.antt =====
-- pg/src/protocol/runtime/ready/storage: the index of the connections that a request may take. A row of the
-- buckets is its number; the ring, the buckets and the bitmap are the o3 crate's.
pub mod Moves
pub mod Stored
pub mod Counts
pub mod Writes
pub mod Keeps
pub mod Opens
pub mod Reserves
pub mod Ends
pub mod Finishes
pub mod Shuts
pub mod Ranks
pub mod Receives
pub mod System
pub mod Kept
pub mod Runs
pub mod Least
pub mod Ranked
pub mod Vacated
pub mod Picks
mod Tests
use cartel.Base.{
  ℕ, Bool, Option, ◌≡◌, none, some, true, false, if◌then◌else◌, ltb, ◌==◌, replicate, get_elem?,
  set, ◌+◌, ◌&&◌, List,
}
use cartel.Pg.Pool.Slot.{Slot, slot_new}

-- what the index uses of `links::Cycle`, `links::List` and the bitmap, in one state
pub record Links (L : Type 0) : Type 0 where
  -- `Cycle::new`, `List::new` for each bucket, and an empty bitmap
  pub vacant : (capacity buckets : ℕ) → L
  -- `Hooks::cycle_push` and `Hooks::cycle_unlink` of the ring
  pub cycle_push : L → (index : ℕ) → L
  pub cycle_unlink : L → (index : ℕ) → L
  -- `first` of the ring, and `Hooks::cycle_step`: the next index, with the head of the ring advanced to it
  pub first : L → Option ℕ
  pub cycle_step : L → (index : ℕ) → ℕ × L
  -- `is_empty`, `front_from` and `front` (against an index) of the list of a row, `link_raw` and `unlink_raw`
  pub is_empty : L → (row : ℕ) → Bool
  pub front : L → (row : ℕ) → ℕ
  pub is_front : L → (row index : ℕ) → Bool
  pub link_raw : L → (row index : ℕ) → L
  pub unlink_raw : L → (row index : ℕ) → L
  -- `Row::clamp`, `Row::update` and `find` of the bitmap
  pub clamp : L → (depth : ℕ) → ℕ
  pub update : Bool → L → (row : ℕ) → L
  pub find : L → (row : ℕ) → Option ℕ

-- a slot and the priority of its `Node`
pub record Resident (K T F : Type 0) : Type 0 where
  pub slot : Slot K T F
  pub priority : Option ℕ

-- `Index`, with the values and the nodes of its `Block`
pub record Index (K T F L : Type 0) : Type 0 where
  pub residents : List (Resident K T F)
  pub links : L
  pub minimum : Option ℕ
  pub live : ℕ
  pub blockers : ℕ

-- whether a rank is below the minimum
abbrev pub below : ℕ → Option ℕ → Bool
below row none = true
below row (some current) = ltb row current

-- whether the minimum is this rank
abbrev pub is_row : Option ℕ → (row : ℕ) → Bool
is_row none row = false
is_row (some current) row = current == row

module _ {K T F L : Type 0} where
  -- `Index::entry` and `Entry::slot`
  abbrev pub entry : Index K T F L → (index : ℕ) → Option (Resident K T F)
  entry x index = get_elem? x.residents index

  -- `node().priority.set`
  abbrev pub set_priority : Index K T F L → (index : ℕ) → Option ℕ → Index K T F L
  set_priority x index priority = elim (entry x index) [
    | none ↦ x
    | some r ↦ record x { residents = set x.residents index (record r { priority = priority }) }
  ]

  -- what an operation on the slot at an index writes
  abbrev pub set_slot : Index K T F L → (index : ℕ) → Slot K T F → Index K T F L
  set_slot x index slot = elim (entry x index) [
    | none ↦ x
    | some r ↦ record x { residents = set x.residents index (record r { slot = slot }) }
  ]

  module _ (hooks : Links L) where
    -- `Index::try_new`, once the block is allocated
    abbrev pub index_new : (capacity buckets : ℕ) → Index K T F L
    index_new capacity buckets = record {
      residents = replicate capacity (record { slot = slot_new; priority = none });
      links = hooks.vacant capacity buckets;
      minimum = none;
      live = 0;
      blockers = 0;
    }

    -- a row that an entry makes occupied
    abbrev pub occupy : Index K T F L → (row : ℕ) → Index K T F L
    occupy x row =
        let marked = record x { links = hooks.update true x.links row } in
        if below row x.minimum then record marked { minimum = some row } else marked

    -- `Entry::attach`
    unfoldable pub attach : Index K T F L → (index row : ℕ) → Index K T F L
    attach x index row =
        let held = if hooks.is_empty x.links row then occupy x row else x in
        set_priority (record held { links = hooks.link_raw held.links row index }) index (some row)

    -- a row that an entry leaves empty
    abbrev pub vacate : Index K T F L → (row : ℕ) → Index K T F L
    vacate x row =
        let marked = record x { links = hooks.update false x.links row } in
        if is_row x.minimum row
        then record marked { minimum = hooks.find marked.links (row + 1) }
        else marked

    -- `Entry::detach`
    unfoldable pub detach : Index K T F L → (index row : ℕ) → Index K T F L
    detach x index row =
        let left =
          set_priority (record x { links = hooks.unlink_raw x.links row index }) index none in
        if hooks.is_empty left.links row then vacate left row else left

    -- `Entry::insert_rank`
    unfoldable pub insert_rank : Index K T F L → (index row : ℕ) → Index K T F L
    unfolding attach
    insert_rank x index row = attach (record x { links = hooks.cycle_push x.links index }) index row

    -- `Entry::insert`
    abbrev pub insert : Index K T F L → (index depth : ℕ) → Index K T F L
    insert x index depth = insert_rank x index (hooks.clamp x.links depth)

    -- `Listed::remove`
    unfoldable pub remove : Index K T F L → (index row : ℕ) → Index K T F L
    unfolding detach
    remove x index row = detach (record x { links = hooks.cycle_unlink x.links index }) index row

    -- `Listed::reprioritize`
    unfoldable pub reprioritize_listed : Index K T F L → (index rank depth : ℕ) → Index K T F L
    unfolding detach attach
    reprioritize_listed x index rank depth =
        let row = hooks.clamp x.links depth in
        if rank == row && hooks.is_front x.links row index
        then x
        else attach (detach x index rank) index row

    -- `Entry::reprioritize`
    unfoldable pub reprioritize :
        Index K T F L → (index : ℕ) → Option ℕ → (depth : ℕ) → Index K T F L
    unfolding reprioritize_listed
    reprioritize x index none depth = x
    reprioritize x index (some rank) depth = reprioritize_listed x index rank depth

    -- `Index::minimum`, with the rank of the entry
    unfoldable pub least : Index K T F L → Option (ℕ × ℕ)
    least x = elim x.minimum [ none ↦ none | some row ↦ some (hooks.front x.links row, row) ]

    -- `Index::next`: the entry at the head of the ring with its rank, and the ring advanced
    unfoldable pub next_listed : Index K T F L → Option (ℕ × ℕ) × Index K T F L
    next_listed x = elim (hooks.first x.links) [
      | none ↦ (none, x)
      | some index ↦
          let advanced = record x { links = (hooks.cycle_step x.links index).1 } in
          elim (entry x index) [
            | none ↦ (none, advanced)
            | some r ↦ elim r.priority [
              | none ↦ (none, advanced)
              | some row ↦ (some (index, row), advanced)
            ]
          ]
    ]
