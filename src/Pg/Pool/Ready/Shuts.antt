-- ===== src/Pg/Pool/Ready/Shuts.antt =====
-- Closing a connection keeps the counters right.
use mathlib.Core.Path.{subst}
use cartel.Base.{ℕ, Bool, Option, ◌≡◌, arith, refl, none, some, true, false, if◌then◌else◌, ap, ◌-◌}
use cartel.Pg.Pool.{Ids, Disposition}
use cartel.Pg.Pool.Phases.{Access, Bound, Phase, get, is_receiving, set_phase}
use cartel.Pg.Pool.Slot.{Slot}
use cartel.Pg.Pool.Life.{
  try_close, close_in, closing_slot, closed_as, is_of, Closed, Close, later_fate,
}
use cartel.Pg.Pool.Ready.{Index, Links, Resident, entry, set_slot}
use cartel.Pg.Pool.Ready.Moves.{
  index_close, closed_at, uncounted, unlisted, fewer_blockers, was_live, was_blocker,
}
use cartel.Pg.Pool.Ready.Counts.{Inv, Wrote, ready_of, blocks_of, blocks, lives}
use cartel.Pg.Pool.Ready.Writes.{slot_remove-Wrote, set_slot-Wrote}
use cartel.Pg.Pool.Ready.Keeps.{step-Inv, total-get, Same}

module _ {K T F L : Type 0} (hooks : Links L) (ids : Ids K) where
  -- a slot that is written and not listed any more
  pub unlisted-Wrote :
      (x : Index K T F L) (i : ℕ) (slot : Slot K T F) {r : Resident K T F}
      → entry x i ≡ some r
      → Wrote hooks x i
          (record { slot = slot; priority = none })
          (unlisted hooks ids (set_slot x i slot) i r.priority)
  unlisted-Wrote x i slot {r = r} e = on r.priority refl
    where
      on :
          (o : Option ℕ)
          → r.priority ≡ o
          → Wrote hooks x i
              (record { slot = slot; priority = none })
              (unlisted hooks ids (set_slot x i slot) i o)
      on none same =
          subst (λ o. Wrote hooks x i (record { slot = slot; priority = o }) (set_slot x i slot))
            same (set_slot-Wrote hooks x i slot e)
      on (some rank) same = slot_remove-Wrote hooks x i rank slot e same

  -- what is taken from the counters
  abbrev less : (blocker live : Bool) → Index K T F L → Index K T F L
  less blocker live x =
      let unblocked = if blocker then fewer_blockers hooks x else x in
      if live then record unblocked { live = unblocked.live - 1 } else unblocked

  less_lem :
      (blocker live : Bool) (x : Index K T F L)
      → Same hooks (less blocker live x) x
        × ((less blocker live x).live ≡ x.live - (if live then 1 else 0))
        × ((less blocker live x).blockers ≡ x.blockers - (if blocker then 1 else 0))
  less_lem true true x = ((refl, refl, refl), refl, refl)
  less_lem true false x = ((refl, refl, refl), omega arith, refl)
  less_lem false true x = ((refl, refl, refl), refl, omega arith)
  less_lem false false x = ((refl, refl, refl), omega arith, omega arith)

  -- a slot that is closed counts for nothing
  closed-Inv :
      (x : Index K T F L) (i : ℕ) (r : Resident K T F) (p : Phase K T F) (b : Bound K T) (f : F)
      (d : Disposition) (state : Closed K)
      → Inv hooks x
      → entry x i ≡ some r
      → get r.slot.phase ≡ p
      → ready_of p ≡ (if was_live state then 1 else 0)
      → blocks_of p ≡ (if was_blocker state then 1 else 0)
      → Inv hooks (
          uncounted hooks ids state
            (unlisted hooks ids (set_slot x i (closing_slot r.slot b f d)) i r.priority))
  unfolding get set_phase is_receiving
  closed-Inv x i r p b f d state inv e is live blocker =
      let z = unlisted hooks ids (set_slot x i (closing_slot r.slot b f d)) i r.priority in
      let w = unlisted-Wrote x i (closing_slot r.slot b f d) e in
      let (same, lives_left, blocks_left) = less_lem (was_blocker state) (was_live state) z in
      let counted = total-get lives x.residents i e in
      let blocked = total-get blocks x.residents i e in
      let one = ap ready_of is in
      let block = ap blocks_of is in
      step-Inv hooks {y = less (was_blocker state) (was_live state) z} p (Phase.closing b f d) inv e
        is refl w same (omega (arith, w.live, inv.live, counted, one, live, lives_left))
        (omega (arith, w.blockers, inv.blockers, blocked, block, blocker, blocks_left)) refl
        (λ u. cc)

  -- the invariant of what a close leaves, if the connection was there
  abbrev pub Closes : Option (Close K F × Index K T F L) → Type 0
  Closes none = Unit {0}
  Closes (some (close, y)) = Inv hooks y

  pub index_close-Inv :
      (x : Index K T F L) (token : K) (cause : F) (fate : Disposition)
      → Inv hooks x
      → Closes (index_close hooks ids x token cause fate)
  unfolding index_close try_close
  index_close-Inv x token cause fate inv = at (entry x (ids.index token)) refl
    where
      i : ℕ
      i = ids.index token

      of :
          (r : Resident K T F) (p : Phase K T F) (b : Bound K T) (f : F) (d : Disposition)
          (state : Closed K) (own : Bool)
          → entry x i ≡ some r
          → get r.slot.phase ≡ p
          → ready_of p ≡ (if was_live state then 1 else 0)
          → blocks_of p ≡ (if was_blocker state then 1 else 0)
          → Closes (
              closed_at hooks ids x i r.priority (
                if own
                then some (record { state = state; failure = f }, closing_slot r.slot b f d)
                else none))
      of r p b f d state true e is live blocker =
          closed-Inv x i r p b f d state inv e is live blocker
      of r p b f d state false e is live blocker = tt

      accessed :
          (r : Resident K T F) (b : Bound K T) (a : Access) (own : Bool)
          → entry x i ≡ some r
          → get r.slot.phase ≡ Phase.ready b a
          → Closes (
              closed_at hooks ids x i r.priority (
                if own
                then some (
                  record { state = closed_as token a; failure = cause },
                  closing_slot r.slot b cause fate,
                )
                else none))
      accessed r b (Access.shared q) own e is = of r _ b cause fate _ own e is refl refl
      accessed r b (Access.reserved q) own e is = of r _ b cause fate _ own e is refl refl
      accessed r b (Access.held q) own e is = of r _ b cause fate _ own e is refl refl
      accessed r b (Access.finalizing q) own e is = of r _ b cause fate _ own e is refl refl
      accessed r b Access.draining own e is = of r _ b cause fate _ own e is refl refl

      on :
          (r : Resident K T F) (p : Phase K T F)
          → entry x i ≡ some r
          → get r.slot.phase ≡ p
          → Closes (closed_at hooks ids x i r.priority (close_in ids p r.slot token cause fate))
      on r Phase.vacant e is = tt
      on r Phase.uninit e is = tt
      on r (Phase.handshaking b) e is =
          of r (Phase.handshaking b) b cause fate Closed.handshaking (is_of ids b token) e is refl
            refl
      on r (Phase.ready b a) e is = accessed r b a (is_of ids b token) e is
      on r (Phase.closing b f d) e is =
          of r (Phase.closing b f d) b f (later_fate fate d) Closed.closing (is_of ids b token) e is
            refl refl

      at :
          (o : Option (Resident K T F))
          → entry x i ≡ o
          → Closes (elim o as (λ _. Option (Close K F × Index K T F L)) [
            | none ↦ none
            | some r ↦ closed_at hooks ids x i r.priority (try_close ids r.slot token cause fate)
          ])
      at none e = tt
      at (some r) e = on r (get r.slot.phase) e refl
