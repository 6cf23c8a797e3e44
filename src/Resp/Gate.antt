-- ===== src/Resp/Gate.antt =====
-- redis/src/protocol/parser/storage/gate.rs: the gate that admits a fixed number of parsers to the shared
-- storage, and the access of one parser. The indexed queue of waiters is the o3 crate's; the cell that it
-- keeps for each slot is a function of the index here. A `ready::Target` is a number.
pub mod Charges
pub mod Lane
pub mod Access
pub mod Moves
pub mod Wait
pub mod Wakes
pub mod Granted
pub mod Progress
pub mod System
pub mod Lanes
pub mod Bound
mod Tests
use cartel.Base.{
  ℕ, none, some, true, false, Bool, Option, ◌+◌, ◌==◌, u64_size, ◌-◌, ◌%◌, if◌then◌else◌, leb, not,
  ◌&&◌,
}

-- what the gate uses of `shared::Fifo` and of its slots
pub record Fifo (Q : Type 0) : Type 0 where
  -- whether `try_entry(index)` finds the slot
  pub has_entry : Q → (index : ℕ) → Bool
  -- `get::<0>()`, `push::<0>(target)` and `clear::<0>()` of the slot at an index
  pub get : Q → (index : ℕ) → Option ℕ
  pub push : Q → (index target : ℕ) → Q
  pub clear : Q → (index : ℕ) → Q
  -- `next::<0>()`: the slot and the target that are served next, and the queue without them
  pub next : Q → Option ((ℕ × ℕ) × Q)

-- `Gate`, with the `state()` of each slot
pub record Gate (Q : Type 0) : Type 0 where
  pub active : ℕ
  pub lanes : ℕ
  pub waiters : Q
  pub granted : ℕ → Option ℕ

-- `Phase`; a `Waiting` is the index of its slot and its target
pub data Phase : Type 0 where
  idle held : Phase
  waiting : (index target : ℕ) → Phase

-- `==` on two optional targets, and whether a slot has this target
abbrev pub is_target : Option ℕ → (target : ℕ) → Bool
is_target none target = false
is_target (some t) target = t == target

-- a `set` of the cell of a slot
abbrev pub set_granted : {Q : Type 0} → Gate Q → (index : ℕ) → Option ℕ → Gate Q
set_granted g index value = record g { granted = λ i. if i == index then value else g.granted i }

module _ {Q : Type 0} (fifo : Fifo Q) where
  -- `Gate::try_new`, once the queue is allocated
  abbrev pub gate_new : Q → (lanes : ℕ) → Gate Q
  gate_new waiters lanes = record {
    active = 0;
    lanes = lanes;
    waiters = waiters;
    granted = λ i. none;
  }

  -- the drop of a `Lane`; what `target.wake()` does to the driver is left out
  unfoldable pub drop_lane : Gate Q → Gate Q
  drop_lane g = elim (fifo.next g.waiters) [
    | none ↦ record g { active = (g.active + u64_size - 1) % u64_size }
    | some ((index, target), waiters) ↦
        set_granted (record g { waiters = waiters }) index (some target)
  ]

  -- a slot without its target, if it is this one
  abbrev pub without : Gate Q → (index target : ℕ) → Gate Q
  without g index target =
      if is_target (fifo.get g.waiters index) target
      then record g { waiters = fifo.clear g.waiters index }
      else g

  -- `Gate::resume`
  unfoldable pub resume : Gate Q → (index target : ℕ) → Bool × Gate Q
  resume g index target =
      if is_target (g.granted index) target
      then (true, set_granted g index none)
      else if leb g.lanes g.active
      then (false, g)
      else (true, record (without g index target) { active = g.active + 1 })

  -- `Gate::cancel`
  unfoldable pub cancel : Gate Q → (index target : ℕ) → Gate Q
  unfolding drop_lane
  cancel g index target =
      let cleared = without g index target in
      if is_target (g.granted index) target
      then drop_lane (set_granted cleared index none)
      else cleared

  -- `Access::acquire`: whether it is acquired
  unfoldable pub acquire : Gate Q → Phase → Bool × Gate Q × Phase
  acquire g Phase.idle =
      if leb g.lanes g.active
      then (false, g, Phase.idle)
      else (true, record g { active = g.active + 1 }, Phase.held)
  acquire g Phase.held = (true, g, Phase.held)
  acquire g (Phase.waiting index target) =
      let (resumed, g') = resume g index target in
      (resumed, g', if resumed then Phase.held else Phase.waiting index target)

  -- the slot with its target
  abbrev pub queued : Gate Q → (index target : ℕ) → Gate Q
  queued g index target =
      if is_target (fifo.get g.waiters index) target
      then g
      else record g { waiters = fifo.push g.waiters index target }

  -- `Access::wait`, behind its early returns; `none` is an index out of bounds
  unfoldable pub enqueue : Gate Q → Phase → (index target : ℕ) → Option (Gate Q × Phase)
  unfolding cancel
  enqueue g phase index target = if not (fifo.has_entry g.waiters index) then none else elim phase [
    | Phase.waiting old was ↦
        some (cancel (queued g index target) old was, Phase.waiting index target)
    | _ ↦ some (queued g index target, Phase.waiting index target)
  ]

  -- `Access::wait`
  unfoldable pub wait : Gate Q → Phase → (index target : ℕ) → Option (Gate Q × Phase)
  unfolding enqueue
  wait g Phase.held index target = some (g, Phase.held)
  wait g Phase.idle index target = enqueue g Phase.idle index target
  wait g (Phase.waiting old was) index target =
      if old == index && was == target
      then some (g, Phase.waiting old was)
      else enqueue g (Phase.waiting old was) index target

  -- `Access::release`
  unfoldable pub release_access : Gate Q → Phase → Gate Q × Phase
  unfolding cancel drop_lane
  release_access g Phase.idle = (g, Phase.idle)
  release_access g Phase.held = (drop_lane g, Phase.idle)
  release_access g (Phase.waiting index target) = (cancel g index target, Phase.idle)

-- `Access::finish`, on a held access: its charge is a `Lane` from now on
abbrev pub finish_access : Phase → Phase
finish_access phase = Phase.idle
