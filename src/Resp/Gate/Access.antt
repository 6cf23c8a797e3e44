-- ===== src/Resp/Gate/Access.antt =====
-- The operations of an access keep the accounts of the gate.
use mathlib.Core.Path.{subst}
use cartel.Base.{
  if◌then◌else◌, ◌==◌, ℕ, suc, refl, some, true, false, arith, ◌≡◌, ◌≢◌, ◌<◌, ◌+◌, none, ◌≤◌, sym,
}
use cartel.Resp.Gate.{Fifo, Gate, Phase, is_target, set_granted}
use cartel.Resp.Gate.Charges.{
  IsFifo, IsServed, Inv, change_at, with_phase, with_phase_at, with_phase_other, held_charge,
  granted_charge,
}

-- a target is itself
pub is_target_self : (t : ℕ) → is_target (some t) t ≡ true
is_target_self t = ground arith

pub is_target_other : {s t : ℕ} → s ≢ t → is_target (some s) t ≡ false
is_target_other ne = ground (arith, ne)

module _ {Q : Type 0} {fifo : Fifo Q} {n : ℕ} (g g' : Gate Q) (phases : ℕ → Phase) (a out out' : ℕ)
    (old new : Phase) where
  -- An operation of access `a` takes it from the phase `old` to the phase `new`.
  pub move_at :
      Inv fifo n g phases out
      → a < n
      → phases a ≡ old
      → g'.lanes ≡ g.lanes
      → ((j : ℕ) → j ≢ a → g'.granted j ≡ g.granted j)
      → ((j : ℕ) → j ≢ a → fifo.get g'.waiters j ≡ fifo.get g.waiters j)
      → g'.active + (held_charge old + granted_charge (g.granted a)) + out
        ≡ g.active + (held_charge new + granted_charge (g'.granted a)) + out'
      → g'.active ≤ g.lanes
      → IsServed a new (fifo.get g'.waiters a) (g'.granted a)
      → Inv fifo n g' (with_phase phases a new) out'
  move_at inv lt e lanes same_granted same_queue account bounded slot =
      change_at g g' phases (with_phase phases a new) a out out' inv lt lanes
        (with_phase_other phases a new) same_granted same_queue
        (subst
          (λ p.
            g'.active + (held_charge (phases a) + granted_charge (g.granted a)) + out
            ≡ g.active + (held_charge p + granted_charge (g'.granted a)) + out')
          (sym (with_phase_at phases a new)) (rw (e) account))
        bounded (rw (with_phase_at phases a new) slot)

module _ {Q : Type 0} (fifo : Fifo Q) (law : IsFifo fifo) (n out : ℕ) (g : Gate Q)
    (phases : ℕ → Phase) (a : ℕ) (lt : a < n) (inv : Inv fifo n g phases out) where
  -- one more lane for access `a`, which was idle
  pub acquire_idle-Inv :
      phases a ≡ Phase.idle
      → g.active < g.lanes
      → Inv fifo n (record g { active = g.active + 1 }) (with_phase phases a Phase.held) out
  acquire_idle-Inv e free =
      let slot : IsServed a Phase.idle (fifo.get g.waiters a) (g.granted a) =
        rw e at (inv.served a) in
      move_at g (record g { active = g.active + 1 }) phases a out out Phase.idle Phase.held inv lt e
        refl (λ j ne. refl) (λ j ne. refl) (omega arith) (omega arith) slot

  -- a held charge becomes a lane
  pub finish-Inv : phases a ≡ Phase.held → Inv fifo n g (with_phase phases a Phase.idle) (suc out)
  finish-Inv e =
      let slot : IsServed a Phase.held (fifo.get g.waiters a) (g.granted a) =
        rw e at (inv.served a) in
      move_at g g phases a out (suc out) Phase.held Phase.idle inv lt e refl (λ j ne. refl)
        (λ j ne. refl) (omega arith) inv.bounded slot

  -- an access that waits for its grant and leaves its slot
  pub leave_queued-Inv :
      (t : ℕ) (active : ℕ) (phase : Phase)
      → phases a ≡ Phase.waiting a t
      → g.granted a ≡ none
      → active ≡ g.active + held_charge phase
      → active ≤ g.lanes
      → IsServed a phase none none
      → Inv fifo n
          (record g { active = active; waiters = fifo.clear g.waiters a })
          (with_phase phases a phase)
          out
  leave_queued-Inv t active phase e free count bound slot =
      move_at g (record g { active = active; waiters = fifo.clear g.waiters a }) phases a out out
        (Phase.waiting a t) phase inv lt e refl (λ j ne. refl)
        (λ j ne. ground (arith, ne, law.get-clear g.waiters a j)) (rw (free) omega (arith, count))
        bound
        (let cleared : fifo.get (fifo.clear g.waiters a) a ≡ none =
            ground (arith, law.get-clear g.waiters a a) in
          rw (cleared, free) slot)

  -- an access that was granted a lane, whose grant is taken, and whose slot has the target `q'`
  pub leave_granted-Inv :
      (t out' : ℕ) (waiters : Q) (phase : Phase)
      → phases a ≡ Phase.waiting a t
      → g.granted a ≡ some t
      → out' + held_charge phase ≡ suc out
      → ((j : ℕ) → j ≢ a → fifo.get waiters j ≡ fifo.get g.waiters j)
      → IsServed a phase (fifo.get waiters a) none
      → Inv fifo n
          (set_granted (record g { waiters = waiters }) a none)
          (with_phase phases a phase)
          out'
  leave_granted-Inv t out' waiters phase e granted count same slot =
      let taken : (if a == a then none else g.granted a) ≡ none = ground arith in
      move_at g (set_granted (record g { waiters = waiters }) a none) phases a out out'
        (Phase.waiting a t) phase inv lt e refl (λ j ne. ground (arith, ne)) same
        (rw (taken, granted) omega (arith, count)) inv.bounded (rw (taken) slot)
