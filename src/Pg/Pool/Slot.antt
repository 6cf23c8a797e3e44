-- ===== src/Pg/Pool/Slot.antt =====
-- pg/src/port/pool/slot.rs and phases/access.rs: the slot of one connection. Its key for cancellation is a
-- list of bytes with a number; `Ready`, `Permit` and `Reservation` are proofs, and carry the slot along.
use cartel.Base.Int.{ℤ, pos}
use cartel.Base.{
  ◌>>=◌, ℕ, Bool, Option, Result, ◌+◌, zero, suc, none, true, false, ok, err, [], if◌then◌else◌,
  not, List, ◌||◌, ◌∷◌, u32_max, ◌%◌, ◌/◌, u32_size,
}
use cartel.Pg.Pool.{Boundary, Disposition, Error}
use cartel.Pg.Pool.Sync.{Batch, Sync, first_batch, next_batch, try_next}
use cartel.Pg.Pool.Phases.{Phase, State, get, state_new}

-- `key::Key`
pub record Key : Type 0 where
  pub pid : ℤ
  pub secret : List ℕ

-- `Key::empty`
abbrev pub empty_key : Key
empty_key = record { pid = pos 0; secret = 0 ∷ 0 ∷ 0 ∷ 0 ∷ [] }

-- `Pending`, the bound of a count of Syncs
abbrev pub pending_max : ℕ
pending_max = u32_max / 2 + 1

-- `slot::Slot`; `pending` is of the type `Pending`, a u32 of at most `pending_max`, which `commit` does not
-- check: it holds as long as the orders of replies, which are not here, admit no further Sync
pub record Slot (K T F : Type 0) : Type 0 where
  pub phase : State K T F
  pub key : Key
  pub pid : Option ℤ
  pub sync : Sync
  pub batch : Batch
  pub pending : ℕ

-- `slot::Settle`
pub data Settle : Type 0 where
  applied closing empty stale : Settle

-- `slot::Permit`, without its slot
pub record Permit : Type 0 where
  pub next : Sync
  pub current : Batch
  pub boundary : Boundary

-- `slot::Egress`: a directive to cut the connection, for good or with a retry
pub data Egress (R : Type 0) : Type 0 where
  opening : Egress R
  cut_retry cut_final : R → Egress R

-- whether a boundary sends a Sync
abbrev pub sends_sync : Boundary → Bool
sends_sync Boundary.opening = false
sends_sync Boundary.external = false
sends_sync _ = true

abbrev pub is_synced_at : Sync → Bool
is_synced_at Sync.synced = true
is_synced_at _ = false

-- `Option::filter`-like: the Syncs that a settlement leaves
abbrev pub settled : {K T F : Type 0} → Slot K T F → (pending : ℕ) → Settle × Slot K T F
settled s zero = (Settle.empty, s)
settled s (suc next) = (Settle.applied, record s { pending = next })

module _ {K T F : Type 0} where
  -- `Slot::new`
  abbrev pub slot_new : Slot K T F
  slot_new = record {
    phase = state_new;
    key = empty_key;
    pid = none;
    sync = Sync.synced;
    batch = first_batch;
    pending = 0;
  }

  -- `Slot::is_synced`, `Slot::can_begin`
  abbrev pub is_synced : Slot K T F → Bool
  is_synced s = is_synced_at s.sync

  abbrev pub can_begin : Slot K T F → Bool
  can_begin s = elim s.sync [ Sync.automatic depth ↦ false | _ ↦ true ]

  -- `Slot::permit`
  abbrev pub permit : Slot K T F → Sync → Boundary → Permit
  permit s next boundary = record { next = next; current = s.batch; boundary = boundary }

  -- `Permit::commit`: whether the order of the pool is unchanged. The count of Syncs is added to in u32 and
  -- stored without a check of its bound
  unfoldable pub commit : Permit → Slot K T F → Bool × Slot K T F
  commit p s =
      let unchanged = not (is_synced_at p.next) || is_synced s in
      let moved = record s { sync = p.next } in
      (
        unchanged,
        if sends_sync p.boundary
            then record moved { batch = next_batch p.current; pending = (s.pending + 1) % u32_size }
            else moved,
      )

  -- `Ready::try_reply`
  unfoldable pub try_reply : Slot K T F → Boundary → Result Error Permit
  unfolding try_next
  try_reply s boundary = do next ← try_next s.sync boundary; ok (permit s next boundary)

  abbrev pub finish_at : Slot K T F → Sync → Result Error Permit
  finish_at s (Sync.explicit depth) = ok (permit s Sync.synced Boundary.close)
  finish_at s Sync.synced = err Error.copy_finish_without_start
  finish_at s (Sync.automatic depth) = err (Error.copy_finish_during_pipeline depth)

  -- `Ready::try_finish`
  unfoldable pub try_finish : Slot K T F → Result Error Permit
  try_finish s = finish_at s s.sync

  -- `Slot::barriers`
  abbrev pub barriers : Slot K T F → ℕ
  barriers s = s.pending + (if is_synced s then 0 else 1)

  -- `Slot::egress`, over the reason that a failure closes a connection with
  unfoldable pub egress : {R : Type 0} → (close_reason : F → R) → Slot K T F → Egress R
  unfolding get
  egress close_reason s = elim (get s.phase) [
    | Phase.closing bound failure Disposition.reconnect ↦ Egress.cut_retry (close_reason failure)
    | Phase.closing bound failure Disposition.permanent ↦ Egress.cut_final (close_reason failure)
    | _ ↦ Egress.opening
  ]
