-- ===== src/Resp/Gate/Moves.antt =====
-- What the operations of an access, as they are written, return.
use cartel.Base.{ℕ, refl, arith, inl, inr, ◌<◌, Bool, ◌≡◌, Bool-cases, leb, suc, none, some, ◌+◌}
use cartel.Resp.Gate.{Fifo, Gate, Phase, acquire, cancel, queued, release_access, resume}
use cartel.Resp.Gate.Charges.{IsFifo, IsServed, Inv, with_phase}
use cartel.Resp.Gate.Lane.{drop_lane-Inv}
use cartel.Resp.Gate.Access.{
  acquire_idle-Inv, finish-Inv, leave_granted-Inv, leave_queued-Inv, move_at, is_target_self,
}

module _ {Q : Type 0} (fifo : Fifo Q) (law : IsFifo fifo) (n out : ℕ) (g : Gate Q)
    (phases : ℕ → Phase) (a : ℕ) (lt : a < n) (inv : Inv fifo n g phases out) where
  -- the gate and the phase that access `a` is left with
  abbrev pub Kept : Gate Q → Phase → Type 0
  Kept g' phase = Inv fifo n g' (with_phase phases a phase) out

  abbrev pub Acquired : Bool × Gate Q × Phase → Type 0
  Acquired (done, g', phase) = Kept g' phase

  pub same-Inv : (phase : Phase) → phases a ≡ phase → Kept g phase
  same-Inv phase e =
      move_at g g phases a out out phase phase inv lt e refl (λ j ne. refl) (λ j ne. refl) refl
        inv.bounded (rw e at (inv.served a))

  pub slot_of :
      {phase : Phase} → phases a ≡ phase → IsServed a phase (fifo.get g.waiters a) (g.granted a)
  slot_of e = rw e at (inv.served a)

  acquire_queued-Inv :
      (t : ℕ)
      → phases a ≡ Phase.waiting a t
      → fifo.get g.waiters a ≡ some t
      → g.granted a ≡ none
      → Acquired (acquire fifo g (Phase.waiting a t))
  unfolding acquire resume
  acquire_queued-Inv t e queued free = elim (Bool-cases (leb g.lanes g.active)) [
    | inl full ↦ rw (free, full) (same-Inv (Phase.waiting a t) e)
    | inr room ↦
        rw (free, room, queued, is_target_self t)
          (leave_queued-Inv fifo law n out g phases a lt inv t (g.active + 1) Phase.held e free refl
            (ground (arith, room)) (refl, refl))
  ]

  acquire_granted-Inv :
      (t : ℕ)
      → phases a ≡ Phase.waiting a t
      → fifo.get g.waiters a ≡ none
      → g.granted a ≡ some t
      → Acquired (acquire fifo g (Phase.waiting a t))
  unfolding acquire resume
  acquire_granted-Inv t e left granted =
      rw (granted, is_target_self t)
        (leave_granted-Inv fifo law n out g phases a lt inv t out g.waiters Phase.held e granted
          (omega arith) (λ j ne. refl) (left, refl))

  -- An access that is asked for keeps the accounts, whether it is acquired or not.
  pub acquire-Inv : (phase : Phase) → phases a ≡ phase → Acquired (acquire fifo g phase)
  unfolding acquire
  acquire-Inv Phase.idle e = elim (Bool-cases (leb g.lanes g.active)) [
    | inl full ↦ rw full (same-Inv Phase.idle e)
    | inr free ↦
        rw free (acquire_idle-Inv fifo law n out g phases a lt inv e (ground (arith, free)))
  ]
  acquire-Inv Phase.held e = same-Inv Phase.held e
  acquire-Inv (Phase.waiting index target) e = at (slot_of e)
    where
      at :
          IsServed a (Phase.waiting index target) (fifo.get g.waiters a) (g.granted a)
          → Acquired (acquire fifo g (Phase.waiting index target))
      at (here, inl (queued_here, free)) =
          rw here (acquire_queued-Inv target (rw here at e) queued_here free)
      at (here, inr (left, granted)) =
          rw here (acquire_granted-Inv target (rw here at e) left granted)

  cancel_queued-Inv :
      (t : ℕ)
      → phases a ≡ Phase.waiting a t
      → fifo.get g.waiters a ≡ some t
      → g.granted a ≡ none
      → Kept (cancel fifo g a t) Phase.idle
  unfolding cancel
  cancel_queued-Inv t e queued_here free =
      rw (queued_here, is_target_self t, free)
        (leave_queued-Inv fifo law n out g phases a lt inv t g.active Phase.idle e free
          (omega arith) inv.bounded (refl, refl))

  cancel_granted-Inv :
      (t : ℕ)
      → phases a ≡ Phase.waiting a t
      → fifo.get g.waiters a ≡ none
      → g.granted a ≡ some t
      → Kept (cancel fifo g a t) Phase.idle
  unfolding cancel
  cancel_granted-Inv t e left granted =
      rw (left, granted, is_target_self t)
        (drop_lane-Inv fifo law n out _ _ (
          leave_granted-Inv fifo law n out g phases a lt inv t (suc out) g.waiters Phase.idle e
            granted (omega arith) (λ j ne. refl) (left, refl)))

  -- A waiting access that is cancelled hands its grant on.
  pub cancel-Inv :
      (index target : ℕ)
      → phases a ≡ Phase.waiting index target
      → Kept (cancel fifo g index target) Phase.idle
  cancel-Inv index target e = at (slot_of e)
    where
      at :
          IsServed a (Phase.waiting index target) (fifo.get g.waiters a) (g.granted a)
          → Kept (cancel fifo g index target) Phase.idle
      at (here, inl (queued_here, free)) =
          rw here (cancel_queued-Inv target (rw here at e) queued_here free)
      at (here, inr (left, granted)) =
          rw here (cancel_granted-Inv target (rw here at e) left granted)

  abbrev pub Released : Gate Q × Phase → Type 0
  Released (g', phase) = Kept g' phase

  pub release_access-Inv :
      (phase : Phase) → phases a ≡ phase → Released (release_access fifo g phase)
  unfolding release_access
  release_access-Inv Phase.idle e = same-Inv Phase.idle e
  release_access-Inv Phase.held e =
      drop_lane-Inv fifo law n out g _ (finish-Inv fifo law n out g phases a lt inv e)
  release_access-Inv (Phase.waiting index target) e = cancel-Inv index target e
