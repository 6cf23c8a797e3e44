-- ===== src/Pg/Pool/Ready/Ranks.antt =====
-- Changing the rank of a connection keeps the counters right.
use cartel.Base.{
  ℕ, Bool, Option, ◌≡◌, ◌+◌, arith, sym, ◌∙◌, ◌&&◌, ◌==◌, refl, none, some, true, false,
  if◌then◌else◌, ap,
}
use cartel.Pg.Pool.{Ids}
use cartel.Pg.Pool.Phases.{get}
use cartel.Pg.Pool.Slot.{barriers}
use cartel.Pg.Pool.Turns.{Current, current}
use cartel.Pg.Pool.Ready.{
  Index, Links, Resident, attach, detach, entry, reprioritize, reprioritize_listed,
}
use cartel.Pg.Pool.Ready.Moves.{reindex, reindexed}
use cartel.Pg.Pool.Ready.Counts.{Inv, Wrote, is_some}
use cartel.Pg.Pool.Ready.Writes.{attach-Wrote, detach-Wrote, Wrote-trans, entry_of_Wrote}
use cartel.Pg.Pool.Ready.Keeps.{step-Inv}

module _ {K T F L : Type 0} (hooks : Links L) (ids : Ids K) where
  -- an entry that stays listed
  relisted-Inv :
      (x y : Index K T F L) (i : ℕ) (r : Resident K T F) (row : ℕ)
      → Inv hooks x
      → entry x i ≡ some r
      → is_some r.priority ≡ true
      → Wrote hooks x i (record r { priority = some row }) y
      → Inv hooks y
  relisted-Inv x y i r row inv e listed w =
      step-Inv hooks {y = y} {w = y} (get r.slot.phase) (get r.slot.phase) inv e refl refl w
        (refl, refl, refl) (omega (arith, w.live)) (omega (arith, w.blockers))
        (sym listed ∙ (inv.sound i e).listed) ((inv.sound i e).initialized)

  reprioritize-Inv :
      (x : Index K T F L) (i : ℕ) (r : Resident K T F) (depth : ℕ)
      → Inv hooks x
      → entry x i ≡ some r
      → Inv hooks (reprioritize hooks x i r.priority depth)
  unfolding reprioritize reprioritize_listed
  reprioritize-Inv x i r depth inv e = on r.priority refl
    where
      moved :
          (rank row : ℕ) (stays : Bool)
          → r.priority ≡ some rank
          → Inv hooks (if stays then x else attach hooks (detach hooks x i rank) i row)
      moved rank row true listed = inv
      moved rank row false listed =
          let first = detach-Wrote hooks x i rank e listed in
          relisted-Inv x (attach hooks (detach hooks x i rank) i row) i r row inv e
            (ap is_some listed)
            (Wrote-trans hooks first (
              attach-Wrote hooks (detach hooks x i rank) i row (entry_of_Wrote hooks e first) refl))

      on : (o : Option ℕ) → r.priority ≡ o → Inv hooks (reprioritize hooks x i o depth)
      on none listed = inv
      on (some rank) listed =
          let row = hooks.clamp x.links depth in
          moved rank row (rank == row && hooks.is_front x.links row i) listed

  pub reindex-Inv :
      (x : Index K T F L) (token : K) (depth : ℕ)
      → Inv hooks x
      → Inv hooks ((reindex hooks ids x token depth).1)
  unfolding reindex
  reindex-Inv x token depth inv = at (entry x (ids.index token)) refl
    where
      i : ℕ
      i = ids.index token

      on :
          (r : Resident K T F) (c : Current K)
          → entry x i ≡ some r
          → Inv hooks ((reindexed hooks ids x i r c token depth).1)
      on r Current.shared e = reprioritize-Inv x i r (depth + barriers r.slot) inv e
      on r Current.draining e = inv
      on r Current.stale e = inv
      on r Current.handshaking e = inv
      on r Current.closing e = inv
      on r (Current.reserved id) e = inv
      on r (Current.held id) e = inv
      on r (Current.finalizing id) e = inv

      at :
          (o : Option (Resident K T F))
          → entry x i ≡ o
          → Inv hooks (
              (elim o as (λ _. Option K × Index K T F L) [
                | none ↦ (none, x)
                | some r ↦ reindexed hooks ids x i r (current ids r.slot token) token depth
              ]).1)
      at none e = inv
      at (some r) e = on r (current ids r.slot token) e
