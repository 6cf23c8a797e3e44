-- ===== src/Resp/Gate/Wait.antt =====
-- An access that waits on the slot of its connection.
use cartel.Base.{
  ℕ, suc, refl, none, some, false, arith, inl, inr, ◌<◌, Option, ◌≡◌, ◌≢◌, Bool-cases, sym, ◌==◌,
  ◌&&◌,
}
use cartel.Resp.Gate.{Fifo, Gate, Phase, cancel, enqueue, queued, wait}
use cartel.Resp.Gate.Charges.{IsFifo, IsServed, Inv, with_phase}
use cartel.Resp.Gate.Lane.{drop_lane-Inv}
use cartel.Resp.Gate.Access.{leave_granted-Inv, move_at, is_target_self, is_target_other}
use cartel.Resp.Gate.Moves.{same-Inv, slot_of}

module _ {Q : Type 0} (fifo : Fifo Q) (law : IsFifo fifo) (n out : ℕ) (g : Gate Q)
    (phases : ℕ → Phase) (a : ℕ) (lt : a < n) (inv : Inv fifo n g phases out) where
  abbrev pub Waited : Option (Gate Q × Phase) → Type 0
  Waited none = Unit {0}
  Waited (some (g', phase)) = Inv fifo n g' (with_phase phases a phase) out

  pushed_here : (t : ℕ) → fifo.get (fifo.push g.waiters a t) a ≡ some t
  pushed_here t = ground (arith, law.get-push g.waiters a t a)

  pushed_other : (t j : ℕ) → j ≢ a → fifo.get (fifo.push g.waiters a t) j ≡ fifo.get g.waiters j
  pushed_other t j ne = ground (arith, ne, law.get-push g.waiters a t j)

  wait_idle-Inv : (t : ℕ) → phases a ≡ Phase.idle → Waited (enqueue fifo g Phase.idle a t)
  unfolding enqueue
  wait_idle-Inv t e = elim (Bool-cases (fifo.has_entry g.waiters a)) [
    | inl inside ↦
        let slot : IsServed a Phase.idle (fifo.get g.waiters a) (g.granted a) =
          rw e at (inv.served a) in
        let (unqueued, free) = slot in
        rw (inside, unqueued)
          (move_at g (record g { waiters = fifo.push g.waiters a t }) phases a out out Phase.idle
            (Phase.waiting a t) inv lt e refl (λ j ne. refl) (pushed_other t) refl inv.bounded
            (refl, inl (pushed_here t, free)))
    | inr outside ↦ rw outside tt
  ]

  -- the access waits for another target, and was not served yet
  moved_queued-Inv :
      (was t : ℕ)
      → phases a ≡ Phase.waiting a was
      → t ≢ was
      → fifo.get g.waiters a ≡ some was
      → g.granted a ≡ none
      → Waited (some (cancel fifo (queued fifo g a t) a was, Phase.waiting a t))
  unfolding cancel
  moved_queued-Inv was t e ne queued_here free =
      let ne' : was ≢ t = λ p. ne (sym p) in
      rw (queued_here, is_target_other ne', pushed_here t, is_target_other ne, free)
        (move_at g (record g { waiters = fifo.push g.waiters a t }) phases a out out
          (Phase.waiting a was) (Phase.waiting a t) inv lt e refl (λ j ne. refl) (pushed_other t)
          refl inv.bounded (refl, inl (pushed_here t, free)))

  -- the access waits for another target, and had its grant, which goes on
  moved_granted-Inv :
      (was t : ℕ)
      → phases a ≡ Phase.waiting a was
      → t ≢ was
      → fifo.get g.waiters a ≡ none
      → g.granted a ≡ some was
      → Waited (some (cancel fifo (queued fifo g a t) a was, Phase.waiting a t))
  unfolding cancel
  moved_granted-Inv was t e ne left granted =
      rw (left, pushed_here t, is_target_other ne, granted, is_target_self was)
        (drop_lane-Inv fifo law n out _ _ (
          leave_granted-Inv fifo law n out g phases a lt inv was (suc out) (fifo.push g.waiters a t)
            (Phase.waiting a t) e granted (omega arith) (pushed_other t)
            (refl, inl (pushed_here t, refl))))

  moved-Inv :
      (index was t : ℕ)
      → phases a ≡ Phase.waiting index was
      → (index == a && was == t) ≡ false
      → Waited (enqueue fifo g (Phase.waiting index was) a t)
  unfolding enqueue
  moved-Inv index was t e moves = elim (Bool-cases (fifo.has_entry g.waiters a)) [
    | inl inside ↦ rw inside (at (slot_of fifo law n out g phases a lt inv e))
    | inr outside ↦ rw outside tt
  ]
    where
      at :
          IsServed a (Phase.waiting index was) (fifo.get g.waiters a) (g.granted a)
          → Waited (some (cancel fifo (queued fifo g a t) index was, Phase.waiting a t))
      at (here, inl (queued_here, free)) = rw here (
          moved_queued-Inv was t (rw here at e) (λ p. ground (arith, moves, here, p)) queued_here
            free)
      at (here, inr (left, granted)) = rw here (
          moved_granted-Inv was t (rw here at e) (λ p. ground (arith, moves, here, p)) left granted)

  -- An access that waits on its own slot keeps the accounts.
  pub wait-Inv : (phase : Phase) (t : ℕ) → phases a ≡ phase → Waited (wait fifo g phase a t)
  unfolding wait
  wait-Inv Phase.idle t e = wait_idle-Inv t e
  wait-Inv Phase.held t e = same-Inv fifo law n out g phases a lt inv Phase.held e
  wait-Inv (Phase.waiting index was) t e = elim (Bool-cases (index == a && was == t)) [
    | inl same ↦ rw same (same-Inv fifo law n out g phases a lt inv (Phase.waiting index was) e)
    | inr moves ↦ rw moves (moved-Inv index was t e moves)
  ]
