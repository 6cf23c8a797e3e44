-- ===== src/Pg/Pool/Ready/Finishes.antt =====
-- Finalizing a transaction keeps the counters right.
use cartel.Base.{
  ℕ, Bool, Option, ◌≡◌, arith, sym, ◌∙◌, refl, none, some, true, false, if◌then◌else◌, ap, not,
}
use cartel.Pg.Pool.{Ids}
use cartel.Pg.Pool.Phases.{Access, Bound, Phase, get}
use cartel.Pg.Pool.Life.{is_of, Transaction}
use cartel.Pg.Pool.Turns.{Finalization, finalize, finalize_in, holds, with_access}
use cartel.Pg.Pool.Ready.{Index, Links, Resident, entry, set_slot}
use cartel.Pg.Pool.Ready.Moves.{index_finalize, finalized, fewer_blockers}
use cartel.Pg.Pool.Ready.Counts.{Inv, blocks_of, blocks}
use cartel.Pg.Pool.Ready.Writes.{set_slot-Wrote}
use cartel.Pg.Pool.Ready.Keeps.{step-Inv, not_free, total-get, unmoved-Inv}
use cartel.Pg.Pool.Ready.Reserves.{get-set_access}

module _ {K T F L : Type 0} (hooks : Links L) (ids : Ids K) where
  pub index_finalize-Inv :
      (x : Index K T F L) (id : Transaction K)
      → Inv hooks x
      → Inv hooks ((index_finalize hooks ids x id).1)
  unfolding index_finalize finalize
  index_finalize-Inv x id inv = at (entry x (ids.index id.conn)) refl
    where
      i : ℕ
      i = ids.index id.conn

      held :
          (r : Resident K T F) (b : Bound K T) (g : ℕ)
          → entry x i ≡ some r
          → get r.slot.phase ≡ Phase.ready b (Access.held g)
          → Inv hooks (
              fewer_blockers hooks
                (set_slot x i (with_access r.slot (Access.finalizing id.generation))))
      held r b g e is =
          let slot = with_access r.slot (Access.finalizing id.generation) in
          let got = get-set_access r.slot.phase (Access.finalizing id.generation) is in
          let w = set_slot-Wrote hooks x i slot e in
          let count = total-get blocks x.residents i e in
          let one = ap blocks_of is in
          step-Inv hooks (Phase.ready b (Access.held g))
            (Phase.ready b (Access.finalizing id.generation)) inv e is got w (refl, refl, refl)
            (omega (arith, w.live)) (omega (arith, w.blockers, inv.blockers, count, one))
            ((inv.sound i e).listed ∙ not_free r.slot is refl ∙ sym (not_free slot got refl))
            (λ u. cc)

      of :
          (r : Resident K T F) (b : Bound K T) (a : Access) (own : Bool) (held_by : Bool)
          → entry x i ≡ some r
          → get r.slot.phase ≡ Phase.ready b a
          → holds a id.generation ≡ held_by
          → Inv hooks (
              (finalized hooks ids x i (
                if not own
                then (Finalization.lost id, r.slot)
                else if not held_by
                then (Finalization.reusable id, r.slot)
                else (
                  Finalization.pending id,
                  with_access r.slot (Access.finalizing id.generation),
                ))).1)
      of r b a false held_by e is h = unmoved-Inv hooks i inv e
      of r b a true false e is h = unmoved-Inv hooks i inv e
      of r b (Access.held g) true true e is h = held r b g e is
      of r b (Access.shared q) true true e is h = absurd (cc)
      of r b (Access.reserved q) true true e is h = absurd (cc)
      of r b (Access.finalizing q) true true e is h = absurd (cc)
      of r b Access.draining true true e is h = absurd (cc)

      on :
          (r : Resident K T F) (p : Phase K T F)
          → entry x i ≡ some r
          → get r.slot.phase ≡ p
          → Inv hooks ((finalized hooks ids x i (finalize_in ids p r.slot id)).1)
      on r (Phase.ready b a) e is = of r b a (is_of ids b id.conn) (holds a id.generation) e is refl
      on r Phase.vacant e is = unmoved-Inv hooks i inv e
      on r Phase.uninit e is = unmoved-Inv hooks i inv e
      on r (Phase.handshaking b) e is = unmoved-Inv hooks i inv e
      on r (Phase.closing b f d) e is = unmoved-Inv hooks i inv e

      at :
          (o : Option (Resident K T F))
          → entry x i ≡ o
          → Inv hooks (
              (elim o as (λ _. Finalization K × Index K T F L) [
                | none ↦ (Finalization.lost id, x)
                | some r ↦ finalized hooks ids x i (finalize ids r.slot id)
              ]).1)
      at none e = inv
      at (some r) e = on r (get r.slot.phase) e refl
