-- ===== src/Resp/Gate/Lane.antt =====
-- The drop of a lane, which hands it to the waiter that is served next or frees it.
use native.Mathlib.Decide.{dec_lt}
use cartel.Base.{
  ℕ, suc, refl, none, some, arith, inl, inr, Option, ◌+◌, ◌≡◌, u64_size, ◌-◌, ◌%◌, ◌<◌,
}
use cartel.Resp.Gate.{Fifo, Gate, Phase, drop_lane, set_granted}
use cartel.Resp.Gate.Charges.{IsFifo, IsServed, Inv, change_at}

-- an access whose slot is queued waits, and has no grant
pub waiting_of_queued :
    (i : ℕ) (phase : Phase) {queued granted : Option ℕ} {t : ℕ}
    → IsServed i phase queued granted
    → queued ≡ some t
    → (phase ≡ Phase.waiting i t) × (granted ≡ none)
waiting_of_queued i Phase.idle s e = absurd (cc)
waiting_of_queued i Phase.held s e = absurd (cc)
waiting_of_queued i (Phase.waiting index target) (at, inl (queued, none_granted)) e =
    (ground (arith, at, queued, e), none_granted)
waiting_of_queued i (Phase.waiting index target) (at, inr (none_queued, granted)) e = absurd (cc)

module _ {Q : Type 0} (fifo : Fifo Q) (law : IsFifo fifo) (n out : ℕ) (g : Gate Q)
    (phases : ℕ → Phase) (inv : Inv fifo n g phases (suc out)) where
  -- no one waits
  drop_last : Inv fifo n (record g { active = (g.active + u64_size - 1) % u64_size }) phases out
  drop_last = record {
    charged = omega (arith, inv.charged, inv.bounded, inv.fits);
    bounded = omega (arith, inv.charged, inv.bounded, inv.fits);
    fits = inv.fits;
    beyond = inv.beyond;
    served = inv.served;
  }

  drop_next :
      (i t : ℕ) (q : Q)
      → fifo.next g.waiters ≡ some ((i, t), q)
      → Inv fifo n (set_granted (record g { waiters = q }) i (some t)) phases out
  drop_next i t q e =
      let (here, there) = law.get-next g.waiters e in
      let (waits, free) = waiting_of_queued i (phases i) (inv.served i) here in
      let inside : i < n = elim (dec_lt i n) [
        | yes lt ↦ lt
        | no ge ↦ let idle = inv.beyond i (omega arith) in absurd (cc)
      ] in
      change_at g (set_granted (record g { waiters = q }) i (some t)) phases phases i (suc out) out
        inv inside refl (λ j ne. refl) (λ j ne. ground (arith, ne))
        (λ j ne. ground (arith, ne, there j)) (rw (free) ground (arith)) inv.bounded
        (rw (waits) (refl, inr (ground (arith, there i), ground arith)))

  -- A lane that is dropped is not lost: it is granted to the waiter that is served next, or is free.
  pub drop_lane-Inv : Inv fifo n (drop_lane fifo g) phases out
  unfolding drop_lane
  drop_lane-Inv = at (fifo.next g.waiters) refl
    where
      at :
          (o : Option ((ℕ × ℕ) × Q))
          → fifo.next g.waiters ≡ o
          → Inv fifo n (drop_lane fifo g) phases out
      at none e = rw (e, drop_lane) drop_last
      at (some ((i, t), q)) e = rw (e, drop_lane) (drop_next i t q e)
