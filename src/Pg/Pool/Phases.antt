-- ===== src/Pg/Pool/Phases.antt =====
-- pg/src/port/pool/phases.rs, phases/access.rs and the phases of slot.rs: the binding and the life of one
-- connection.
use cartel.Base.{
  ℕ, Bool, Option, ◌+◌, ◌%◌, ◌==◌, u64_size, if◌then◌else◌, none, some, true, false, not,
}
use cartel.Pg.Pool.{Disposition, Ids}

-- `==` on Booleans
abbrev pub same : Bool → Bool → Bool
same true b = b
same false b = not b

-- `access::Sequence` and `access::Generation` are a u64, the latter not zero
-- `access::State`
pub data Access : Type 0 where
  shared : (sequence : ℕ) → Access
  reserved held finalizing : (generation : ℕ) → Access
  draining : Access

-- `Sequence::next`
abbrev pub next_generation : (sequence : ℕ) → Option ℕ
next_generation sequence =
    let next = (sequence + 1) % u64_size in if next == 0 then none else some next

-- `slot::Bound`
pub record Bound (K T : Type 0) : Type 0 where
  pub token : K
  pub ready : T

-- `slot::Phase`, and the model's own case for a read of a binding that was never written
pub data Phase (K T F : Type 0) : Type 0 where
  vacant uninit : Phase K T F
  handshaking : Bound K T → Phase K T F
  ready : Bound K T → Access → Phase K T F
  closing : Bound K T → (failure : F) → Disposition → Phase K T F

-- `phases::Lifecycle`
pub data Lifecycle (F : Type 0) : Type 0 where
  vacant handshaking : Lifecycle F
  ready : Access → (receiving : Bool) → Lifecycle F
  closing : (failure : F) → Disposition → Lifecycle F

-- `phases::State`; the binding is `none` while it is not initialized
pub record State (K T F : Type 0) : Type 0 where
  pub bound : Option (Bound K T)
  pub phase : Lifecycle F

abbrev pub receiving_in : {F : Type 0} → Lifecycle F → Bool
receiving_in (Lifecycle.ready access receiving) = receiving
receiving_in _ = false

-- whether a binding is that of a connection; an uninitialized one is of none
abbrev pub bound_to : {K T : Type 0} → Ids K → Option (Bound K T) → (token : K) → Bool
bound_to ids none token = false
bound_to ids (some bound) token = ids.equal bound.token token

module _ {K T F : Type 0} where
  -- `State::new`
  abbrev pub state_new : State K T F
  state_new = record { bound = none; phase = Lifecycle.vacant }

  -- the phase of a live connection, with its binding
  abbrev pub with_bound : Lifecycle F → Bound K T → Phase K T F
  with_bound Lifecycle.vacant bound = Phase.vacant
  with_bound Lifecycle.handshaking bound = Phase.handshaking bound
  with_bound (Lifecycle.ready access receiving) bound = Phase.ready bound access
  with_bound (Lifecycle.closing failure fate) bound = Phase.closing bound failure fate

  abbrev pub get_in : Lifecycle F → Option (Bound K T) → Phase K T F
  get_in Lifecycle.vacant bound = Phase.vacant
  get_in phase none = Phase.uninit
  get_in phase (some bound) = with_bound phase bound

  -- `State::get`
  unfoldable pub get : State K T F → Phase K T F
  get s = get_in s.phase s.bound

  -- `State::is_receiving`
  unfoldable pub is_receiving : State K T F → Bool
  is_receiving s = receiving_in s.phase

  -- `State::set`
  unfoldable pub set_phase : State K T F → Phase K T F → State K T F
  unfolding is_receiving
  set_phase s Phase.vacant = record s { phase = Lifecycle.vacant }
  set_phase s Phase.uninit = s
  set_phase s (Phase.handshaking bound) = record {
    bound = some bound;
    phase = Lifecycle.handshaking;
  }
  set_phase s (Phase.ready bound access) = record {
    bound = some bound;
    phase = Lifecycle.ready access (is_receiving s);
  }
  set_phase s (Phase.closing bound failure fate) = record {
    bound = some bound;
    phase = Lifecycle.closing failure fate;
  }

  -- `State::set_access`
  unfoldable pub set_access : State K T F → Access → State K T F
  unfolding is_receiving
  set_access s access = record s { phase = Lifecycle.ready access (is_receiving s) }

  module _ (ids : Ids K) where
    abbrev pub set_receiving_in :
        State K T F → Lifecycle F → (token : K) → Bool → Bool × State K T F
    set_receiving_in s (Lifecycle.ready access current) token receiving =
        if same current receiving
        then (false, s)
        else if bound_to ids s.bound token
        then (true, record s { phase = Lifecycle.ready access receiving })
        else (false, s)
    set_receiving_in s _ token receiving = (false, s)

    -- `State::set_receiving`: whether it changed
    unfoldable pub set_receiving : State K T F → (token : K) → Bool → Bool × State K T F
    set_receiving s token receiving = set_receiving_in s s.phase token receiving
