-- ===== src/Pg/Pool/Ready/Opens.antt =====
-- Binding, opening and reserving a connection keep the counters right.
use cartel.Base.{Bool, Option, ◌≡◌, arith, refl, none, some, true, false, if◌then◌else◌}
use cartel.Pg.Pool.{Ids}
use cartel.Pg.Pool.Phases.{Access, Bound, Phase, get, is_receiving, set_phase}
use cartel.Pg.Pool.Life.{bind, bind_in, ready_in, slot_ready, is_of}
use cartel.Pg.Pool.Ready.{Index, Links, Resident, entry, set_slot}
use cartel.Pg.Pool.Ready.Moves.{index_bind, try_ready, ready_at}
use cartel.Pg.Pool.Ready.Counts.{Inv}
use cartel.Pg.Pool.Ready.Writes.{slot_insert-Wrote}
use cartel.Pg.Pool.Ready.Keeps.{
  quiet-Inv, step-Inv, unmoved-Inv, not_free, not_receiving, not_listed,
}

module _ {K T F L : Type 0} (hooks : Links L) (ids : Ids K) where
  pub index_bind-Inv :
      (x : Index K T F L) (token : K) (target : T)
      → Inv hooks x
      → Inv hooks (index_bind hooks ids x token target)
  unfolding index_bind bind get set_phase is_receiving
  index_bind-Inv x token target inv = at (entry x (ids.index token)) refl
    where
      on :
          (r : Resident K T F) (p : Phase K T F)
          → entry x (ids.index token) ≡ some r
          → get r.slot.phase ≡ p
          → Inv hooks (set_slot x (ids.index token) ((bind_in p r.slot token target).1))
      on r Phase.vacant e is =
          quiet-Inv hooks (ids.index token) ((bind_in Phase.vacant r.slot token target).1)
            Phase.vacant (Phase.handshaking (record { token = token; ready = target })) inv e is
            refl refl refl (not_free r.slot is refl) (λ u. cc)
      on r Phase.uninit e is = unmoved-Inv hooks (ids.index token) inv e
      on r (Phase.handshaking b) e is = unmoved-Inv hooks (ids.index token) inv e
      on r (Phase.ready b a) e is = unmoved-Inv hooks (ids.index token) inv e
      on r (Phase.closing b f d) e is = unmoved-Inv hooks (ids.index token) inv e

      at :
          (o : Option (Resident K T F))
          → entry x (ids.index token) ≡ o
          → Inv hooks (elim o [
            | none ↦ x
            | some r ↦ set_slot x (ids.index token) ((bind r.slot token target).1)
          ])
      at none e = inv
      at (some r) e = on r (get r.slot.phase) e refl

  -- the invariant of what an operation leaves, if it succeeds
  abbrev pub After : Option (Index K T F L) → Type 0
  After none = Unit {0}
  After (some y) = Inv hooks y

  pub try_ready-Inv :
      (x : Index K T F L) (token : K) → Inv hooks x → After (try_ready hooks ids x token)
  unfolding try_ready slot_ready get set_phase is_receiving
  try_ready-Inv x token inv = at (entry x (ids.index token)) refl
    where
      opened :
          (r : Resident K T F) (b : Bound K T) (own : Bool)
          → entry x (ids.index token) ≡ some r
          → get r.slot.phase ≡ Phase.handshaking b
          → After (
              ready_at hooks ids x (ids.index token) (
                if own
                then some (record r.slot {
                  phase = set_phase r.slot.phase (Phase.ready b (Access.shared 0));
                })
                else none))
      opened r b false e is = tt
      opened r b true e is =
          let quiet = not_receiving r.slot.phase is refl (λ u. cc) in
          let slot = record r.slot {
            phase = set_phase r.slot.phase (Phase.ready b (Access.shared 0));
          } in
          let row = hooks.clamp (set_slot x (ids.index token) slot).links 0 in
          let w =
            slot_insert-Wrote hooks x (ids.index token) row slot e
              (not_listed hooks (ids.index token) inv e (not_free r.slot is refl)) in
          step-Inv hooks (Phase.handshaking b) (Phase.ready b (Access.shared 0)) inv e is refl w
            (refl, refl, refl) (omega (arith, w.live)) (omega (arith, w.blockers)) (rw (quiet) refl)
            (λ u. cc)

      on :
          (r : Resident K T F) (p : Phase K T F)
          → entry x (ids.index token) ≡ some r
          → get r.slot.phase ≡ p
          → After (ready_at hooks ids x (ids.index token) (ready_in ids p r.slot token))
      on r (Phase.handshaking b) e is = opened r b (is_of ids b token) e is
      on r Phase.vacant e is = tt
      on r Phase.uninit e is = tt
      on r (Phase.ready b a) e is = tt
      on r (Phase.closing b f d) e is = tt

      at :
          (o : Option (Resident K T F))
          → entry x (ids.index token) ≡ o
          → After (elim o [
            | none ↦ none
            | some r ↦ ready_at hooks ids x (ids.index token) (slot_ready ids r.slot token)
          ])
      at none e = tt
      at (some r) e = on r (get r.slot.phase) e refl
