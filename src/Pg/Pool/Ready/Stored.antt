-- ===== src/Pg/Pool/Ready/Stored.antt =====
-- The states that the storage of the index comes to, one list operation behind the other.
use cartel.Base.{ℕ, Option, ◌≡◌, none, some}
use cartel.Pg.Pool.Ready.{Index, Links, Resident, attach, detach, entry, index_new}

abbrev pub priority_in : {K T F : Type 0} → Option (Resident K T F) → Option ℕ
priority_in none = none
priority_in (some r) = r.priority

-- the priority of the entry at an index
abbrev pub priority_of : {K T F L : Type 0} → Index K T F L → (index : ℕ) → Option ℕ
priority_of x index = priority_in (entry x index)

-- A row is linked to an entry that is not listed, and unlinked from the one that is listed there.
pub data Stored {K T F L : Type 0} (hooks : Links L) : Index K T F L → Type 0 where
  made : (capacity buckets : ℕ) → Stored hooks (index_new hooks capacity buckets)
  wrote :
      (x y : Index K T F L)
      → Stored hooks x
      → y.links ≡ x.links
      → y.minimum ≡ x.minimum
      → ((i : ℕ) → priority_of y i ≡ priority_of x i)
      → Stored hooks y
  pushed :
      (x : Index K T F L) (index : ℕ)
      → Stored hooks x
      → Stored hooks (record x { links = hooks.cycle_push x.links index })
  unpushed :
      (x : Index K T F L) (index : ℕ)
      → Stored hooks x
      → Stored hooks (record x { links = hooks.cycle_unlink x.links index })
  attached :
      (x : Index K T F L) (index row : ℕ) {r : Resident K T F}
      → Stored hooks x
      → entry x index ≡ some r
      → r.priority ≡ none
      → Stored hooks (attach hooks x index row)
  detached :
      (x : Index K T F L) (index row : ℕ) {r : Resident K T F}
      → Stored hooks x
      → entry x index ≡ some r
      → r.priority ≡ some row
      → Stored hooks (detach hooks x index row)
