-- ===== src/Pg/Pool/Life.antt =====
-- pg/src/port/pool/slot.rs: what binds, opens, closes and frees the slot of a connection.
use cartel.Base.{
  ℕ, Bool, Option, Result, none, some, true, false, ok, err, if◌then◌else◌, ◌==◌, not,
}
use cartel.Pg.Pool.{Boundary, Disposition, Error, Ids, Retirement}
use cartel.Pg.Pool.Sync.{Sync, first_batch}
use cartel.Pg.Pool.Phases.{Access, Bound, Phase, get, set_phase}
use cartel.Pg.Pool.Slot.{Permit, Settle, Slot, empty_key, permit, settled}

-- `slot::Bind`
pub data Bind : Type 0 where
  bound_slot occupied_slot : Bind

-- `access::Transaction`
pub record Transaction (K : Type 0) : Type 0 where
  pub conn : K
  pub generation : ℕ

-- `slot::Closed`
pub data Closed (K : Type 0) : Type 0 where
  handshaking shared draining closing : Closed K
  reserved held finalizing : Transaction K → Closed K

-- `slot::Close`
pub record Close (K F : Type 0) : Type 0 where
  pub state : Closed K
  pub failure : F

-- `slot::Flush`
pub data Flush : Type 0 where
  idle : Flush
  pending : Permit → Flush

-- `Slot::select` gives a connection to a request of a transaction, or to one of none
abbrev pub selects : Access → (generation : Option ℕ) → Bool
selects (Access.shared sequence) none = true
selects (Access.held current) (some generation) = current == generation
selects _ _ = false

-- what is closed, by the access to it
abbrev pub closed_as : {K : Type 0} → (token : K) → Access → Closed K
closed_as token (Access.shared sequence) = Closed.shared
closed_as token (Access.reserved g) = Closed.reserved (record { conn = token; generation = g })
closed_as token (Access.held g) = Closed.held (record { conn = token; generation = g })
closed_as token (Access.finalizing g) = Closed.finalizing (record { conn = token; generation = g })
closed_as token Access.draining = Closed.draining

-- the disposition of a second close
abbrev pub later_fate : (fate old : Disposition) → Disposition
later_fate Disposition.permanent old = Disposition.permanent
later_fate Disposition.reconnect old = old

-- the retirement that a phase refuses, by the access to the connection
abbrev pub retires_as : Access → Retirement
retires_as (Access.shared sequence) = Retirement.shared
retires_as (Access.reserved g) = Retirement.reserved
retires_as (Access.held g) = Retirement.held
retires_as (Access.finalizing g) = Retirement.finalizing
retires_as Access.draining = Retirement.draining

abbrev pub flush_at : {K T F : Type 0} → Slot K T F → Sync → Flush
flush_at s (Sync.automatic depth) = Flush.pending (permit s Sync.synced Boundary.close)
flush_at s _ = Flush.idle

-- whether a binding is that of a connection
abbrev pub is_of : {K T : Type 0} → Ids K → Bound K T → (token : K) → Bool
is_of ids bound token = ids.equal bound.token token

-- the error of a connection that has not closed
abbrev pub refuse : {K : Type 0} → Ids K → K → Retirement → Error
refuse ids token phase = Error.retirement (ids.index token) phase

module _ {K T F : Type 0} where
  abbrev pub bind_in : Phase K T F → Slot K T F → K → T → Bind × Slot K T F
  bind_in Phase.vacant s token target = (
    Bind.bound_slot,
    record s {
      batch = first_batch;
      phase = set_phase s.phase (Phase.handshaking (record { token = token; ready = target }));
    },
  )
  bind_in _ s token target = (Bind.occupied_slot, s)

  -- `Slot::bind`
  unfoldable pub bind : Slot K T F → K → T → Bind × Slot K T F
  unfolding get
  bind s token target = bind_in (get s.phase) s token target

  -- the slot of a closed connection
  abbrev pub closing_slot : Slot K T F → Bound K T → F → Disposition → Slot K T F
  closing_slot s bound cause fate = record s {
    sync = Sync.synced;
    pending = 0;
    pid = none;
    key = empty_key;
    phase = set_phase s.phase (Phase.closing bound cause fate);
  }

  module _ (ids : Ids K) where
    -- `Reason::PrepareReady` is the only error
    abbrev pub ready_in : Phase K T F → Slot K T F → K → Option (Slot K T F)
    ready_in (Phase.handshaking bound) s token =
        if is_of ids bound token
        then some (record s { phase = set_phase s.phase (Phase.ready bound (Access.shared 0)) })
        else none
    ready_in _ s token = none

    -- `Slot::try_ready`
    unfoldable pub slot_ready : Slot K T F → K → Option (Slot K T F)
    unfolding get
    slot_ready s token = ready_in (get s.phase) s token

    -- `Slot::matches`
    unfoldable pub matches : Slot K T F → K → Bool
    unfolding get
    matches s token = elim (get s.phase) [
      | Phase.vacant ↦ false
      | Phase.uninit ↦ false
      | Phase.handshaking bound ↦ is_of ids bound token
      | Phase.ready bound access ↦ is_of ids bound token
      | Phase.closing bound failure fate ↦ is_of ids bound token
    ]

    -- `Slot::ready`: whether the connection takes a request
    unfoldable pub admits : Slot K T F → K → Bool
    unfolding get
    admits s token = elim (get s.phase) [
      | Phase.ready bound Access.draining ↦ false
      | Phase.ready bound access ↦ is_of ids bound token
      | _ ↦ false
    ]

    -- `Slot::select`
    unfoldable pub select : Slot K T F → K → (generation : Option ℕ) → Bool
    unfolding get
    select s token generation = elim (get s.phase) [
      | Phase.ready bound access ↦
          if not (is_of ids bound token) then false else selects access generation
      | _ ↦ false
    ]

    abbrev pub settle_in : Phase K T F → Slot K T F → K → Settle × Slot K T F
    settle_in (Phase.ready bound access) s token =
        if is_of ids bound token then settled s s.pending else (Settle.stale, s)
    settle_in (Phase.closing bound failure fate) s token =
        (if is_of ids bound token then Settle.closing else Settle.stale, s)
    settle_in _ s token = (Settle.stale, s)

    -- `Slot::settle`
    unfoldable pub settle : Slot K T F → K → Settle × Slot K T F
    unfolding get
    settle s token = settle_in (get s.phase) s token

    -- what a slot is when it is closed, and the slot that is left
    abbrev pub close_in :
        Phase K T F → Slot K T F → K → F → Disposition → Option (Close K F × Slot K T F)
    close_in (Phase.handshaking bound) s token cause fate =
        if is_of ids bound token
        then some (
          record { state = Closed.handshaking; failure = cause },
          closing_slot s bound cause fate,
        )
        else none
    close_in (Phase.ready bound access) s token cause fate =
        if is_of ids bound token
        then some (
          record { state = closed_as token access; failure = cause },
          closing_slot s bound cause fate,
        )
        else none
    close_in (Phase.closing bound failure old) s token cause fate =
        if is_of ids bound token
        then some (
          record { state = Closed.closing; failure = failure },
          closing_slot s bound failure (later_fate fate old),
        )
        else none
    close_in _ s token cause fate = none

    -- `Slot::try_close`
    unfoldable pub try_close : Slot K T F → K → F → Disposition → Option (Close K F × Slot K T F)
    unfolding get
    try_close s token cause fate = close_in (get s.phase) s token cause fate

    abbrev pub retire_in : Phase K T F → Slot K T F → K → Result Error (Slot K T F)
    retire_in (Phase.closing bound failure fate) s token =
        ok
          (if is_of ids bound token then record s { phase = set_phase s.phase Phase.vacant } else s)
    retire_in (Phase.handshaking bound) s token =
        if is_of ids bound token then err (refuse ids token Retirement.handshaking) else ok s
    retire_in (Phase.ready bound access) s token =
        if is_of ids bound token then err (refuse ids token (retires_as access)) else ok s
    retire_in _ s token = ok s

    -- `Slot::try_retire`
    unfoldable pub try_retire : Slot K T F → K → Result Error (Slot K T F)
    unfolding get
    try_retire s token = retire_in (get s.phase) s token

    -- `Slot::flush`
    unfoldable pub flush : Slot K T F → K → Flush
    unfolding get
    flush s token = elim (get s.phase) [
      | Phase.ready bound access ↦ if is_of ids bound token then flush_at s s.sync else Flush.idle
      | _ ↦ Flush.idle
    ]
