-- ===== src/Pg/Pool/Turns.antt =====
-- pg/src/port/pool/phases/access.rs: how a transaction takes a connection, holds it, and gives it back.
use cartel.Base.{ℕ, Bool, Option, none, some, false, if◌then◌else◌, ◌&&◌, ◌==◌, not}
use cartel.Pg.Pool.{Ids}
use cartel.Pg.Pool.Phases.{Access, Bound, Phase, get, next_generation, set_access}
use cartel.Pg.Pool.Slot.{Slot}
use cartel.Pg.Pool.Life.{Transaction, is_of}

-- `access::Finalization`
pub data Finalization (K : Type 0) : Type 0 where
  pending reusable lost : Transaction K → Finalization K

-- `access::Current`; a `Reservation` and a `Finalizing` are their transaction
pub data Current (K : Type 0) : Type 0 where
  stale handshaking shared draining closing : Current K
  reserved held finalizing : Transaction K → Current K

-- what a reservation does; `unlisted` is the `unreachable!` of the source
pub data Reserved (K T F : Type 0) : Type 0 where
  unlisted : Reserved K T F
  exhausted : Slot K T F → Reserved K T F
  reserved : Transaction K → Slot K T F → Reserved K T F

-- whether an access is that of a transaction that holds its connection
abbrev pub holds : Access → (generation : ℕ) → Bool
holds (Access.held current) generation = current == generation
holds _ generation = false

-- the access to a ready connection
abbrev pub current_of : {K : Type 0} → Access → K → Current K
current_of (Access.shared sequence) token = Current.shared
current_of (Access.reserved g) token = Current.reserved (record { conn = token; generation = g })
current_of (Access.held g) token = Current.held (record { conn = token; generation = g })
current_of (Access.finalizing g) token =
    Current.finalizing (record { conn = token; generation = g })
current_of Access.draining token = Current.draining

module _ {K T F : Type 0} where
  -- a `set_access` on a slot
  abbrev pub with_access : Slot K T F → Access → Slot K T F
  with_access s access = record s { phase = set_access s.phase access }

  -- `Reservation::activate`, `Reservation::release` and `Finalizing::finish`, for the transaction that the
  -- proof carries
  abbrev pub activate : Slot K T F → Transaction K → Slot K T F
  activate s id = with_access s (Access.held id.generation)

  abbrev pub release : Slot K T F → Transaction K → Slot K T F
  release s id = with_access s (Access.shared id.generation)

  abbrev pub finish : Slot K T F → Transaction K → Slot K T F
  finish s id = with_access s (Access.shared id.generation)

  -- `Access::is_current`
  unfoldable pub is_current : (final : Bool) → Slot K T F → (value : ℕ) → Bool
  unfolding get
  is_current final s value = elim (get s.phase) [
    | Phase.ready bound (Access.finalizing current) ↦ final && current == value
    | Phase.ready bound (Access.reserved current) ↦ not final && current == value
    | Phase.ready bound (Access.held current) ↦ not final && current == value
    | _ ↦ false
  ]

  abbrev pub reserve_next : Slot K T F → Bound K T → Option ℕ → Reserved K T F
  reserve_next s bound none = Reserved.exhausted (with_access s Access.draining)
  reserve_next s bound (some next) =
      Reserved.reserved (record { conn = bound.token; generation = next })
        (with_access s (Access.reserved next))

  abbrev pub reserve_in : Phase K T F → Slot K T F → Reserved K T F
  reserve_in (Phase.ready bound (Access.shared sequence)) s =
      reserve_next s bound (next_generation sequence)
  reserve_in _ s = Reserved.unlisted

  -- `Access::reserve`
  unfoldable pub reserve : Slot K T F → Reserved K T F
  unfolding get
  reserve s = reserve_in (get s.phase) s

  module _ (ids : Ids K) where
    abbrev pub finalize_in : Phase K T F → Slot K T F → Transaction K → Finalization K × Slot K T F
    finalize_in (Phase.ready bound access) s id =
        if not (is_of ids bound id.conn)
        then (Finalization.lost id, s)
        else if not (holds access id.generation)
        then (Finalization.reusable id, s)
        else (Finalization.pending id, with_access s (Access.finalizing id.generation))
    finalize_in _ s id = (Finalization.lost id, s)

    -- `Access::finalize`
    unfoldable pub finalize : Slot K T F → Transaction K → Finalization K × Slot K T F
    unfolding get
    finalize s id = finalize_in (get s.phase) s id

    abbrev pub current_in : Phase K T F → K → Current K
    current_in Phase.vacant token = Current.stale
    current_in Phase.uninit token = Current.stale
    current_in (Phase.handshaking bound) token =
        if is_of ids bound token then Current.handshaking else Current.stale
    current_in (Phase.ready bound access) token =
        if not (is_of ids bound token) then Current.stale else current_of access token
    current_in (Phase.closing bound failure fate) token =
        if is_of ids bound token then Current.closing else Current.stale

    -- `Access::current`
    unfoldable pub current : Slot K T F → K → Current K
    unfolding get
    current s token = current_in (get s.phase) token
