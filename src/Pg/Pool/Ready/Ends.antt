-- ===== src/Pg/Pool/Ready/Ends.antt =====
-- Polling, finishing and closing a connection keep the counters right.
use cartel.Base.{
  ℕ, Bool, Option, ◌≡◌, arith, sym, ◌∙◌, refl, none, some, true, false, if◌then◌else◌, not, ap,
}
use cartel.Pg.Pool.{Ids}
use cartel.Pg.Pool.Phases.{Access, Bound, Phase, get, is_receiving, set_access}
use cartel.Pg.Pool.Slot.{Slot}
use cartel.Pg.Pool.Life.{Transaction, is_of}
use cartel.Pg.Pool.Turns.{Current, current, current_in, current_of, with_access}
use cartel.Pg.Pool.Ready.{Index, Links, Resident, entry, set_slot, insert}
use cartel.Pg.Pool.Ready.Moves.{Readiness, Status, poll_ready, polled, finished, Readiness}
use cartel.Pg.Pool.Ready.Counts.{Inv, shared_of, is_free, blocks_with}
use cartel.Pg.Pool.Ready.Writes.{slot_insert-Wrote}
use cartel.Pg.Pool.Ready.Keeps.{quiet-Inv, step-Inv, not_free, not_listed}
use cartel.Pg.Pool.Ready.Reserves.{get-set_access, receiving-set_access}

module _ {K T F L : Type 0} (hooks : Links L) (ids : Ids K) where
  -- an access that counts as the old one, and is not shared
  access-Inv :
      (x : Index K T F L) (i : ℕ) (r : Resident K T F) (b : Bound K T) (a a' : Access)
      → Inv hooks x
      → entry x i ≡ some r
      → get r.slot.phase ≡ Phase.ready b a
      → blocks_with a ≡ blocks_with a'
      → shared_of {F = F} (Phase.ready b a) ≡ false
      → shared_of {F = F} (Phase.ready b a') ≡ false
      → Inv hooks (set_slot x i (with_access r.slot a'))
  access-Inv x i r b a a' inv e is same old new =
      let got = get-set_access r.slot.phase a' is in
      quiet-Inv hooks i (with_access r.slot a') (Phase.ready b a) (Phase.ready b a') inv e is got
        refl same (not_free r.slot is old ∙ sym (not_free (with_access r.slot a') got new))
        (λ u. cc)

  -- a shared connection is free unless it receives
  shared_free :
      (s : Slot K T F) (g : ℕ) {b : Bound K T} {a : Access}
      → get s.phase ≡ Phase.ready b a
      → is_free (with_access s (Access.shared g)) ≡ not (is_receiving s.phase)
  shared_free s g is =
      rw
        (
          get-set_access s.phase (Access.shared g) is,
          receiving-set_access s.phase (Access.shared g),
        )
        refl

  -- a connection that is done finalizing is shared again, and listed unless it receives
  finished-Inv :
      (x : Index K T F L) (i : ℕ) (r : Resident K T F) (b : Bound K T) (g depth : ℕ)
      → Inv hooks x
      → entry x i ≡ some r
      → get r.slot.phase ≡ Phase.ready b (Access.finalizing g)
      → Inv hooks (finished hooks ids x i (with_access r.slot (Access.shared g)) depth)
  unfolding is_receiving set_access
  finished-Inv x i r b g depth inv e is = on (is_receiving r.slot.phase) refl
    where
      slot : Slot K T F
      slot = with_access r.slot (Access.shared g)

      on :
          (v : Bool)
          → is_receiving r.slot.phase ≡ v
          → Inv hooks (if v then set_slot x i slot else insert hooks (set_slot x i slot) i depth)
      on true quiet =
          let got = get-set_access r.slot.phase (Access.shared g) is in
          quiet-Inv hooks i slot (Phase.ready b (Access.finalizing g))
            (Phase.ready b (Access.shared g)) inv e is got refl refl
            (not_free r.slot is refl ∙ sym (shared_free r.slot g is ∙ ap not quiet)) (λ u. cc)
      on false quiet =
          let got = get-set_access r.slot.phase (Access.shared g) is in
          let w =
            slot_insert-Wrote hooks x i (hooks.clamp (set_slot x i slot).links depth) slot e
              (not_listed hooks i inv e (not_free r.slot is refl)) in
          step-Inv hooks (Phase.ready b (Access.finalizing g)) (Phase.ready b (Access.shared g)) inv
            e is got w (refl, refl, refl) (omega (arith, w.live)) (omega (arith, w.blockers))
            (sym (shared_free r.slot g is ∙ ap not quiet)) (λ u. cc)

  pub poll_ready-Inv :
      (x : Index K T F L) (token : K) (status : Status) (depth : ℕ)
      → Inv hooks x
      → Inv hooks ((poll_ready hooks ids x token status depth).1)
  unfolding poll_ready current
  poll_ready-Inv x token status depth inv = at (entry x (ids.index token)) refl
    where
      i : ℕ
      i = ids.index token

      of :
          (r : Resident K T F) (b : Bound K T) (a : Access) (status : Status)
          → entry x i ≡ some r
          → get r.slot.phase ≡ Phase.ready b a
          → Inv hooks ((polled hooks ids x i r.slot (current_of a token) status depth).1)
      of r b (Access.shared q) status e is = inv
      of r b (Access.reserved g) Status.idle e is = inv
      of r b (Access.reserved g) Status.transaction e is =
          access-Inv x i r b (Access.reserved g) (Access.held g) inv e is refl refl refl
      of r b (Access.held g) status e is = inv
      of r b (Access.finalizing g) Status.transaction e is = inv
      of r b (Access.finalizing g) Status.idle e is = finished-Inv x i r b g depth inv e is
      of r b Access.draining status e is = inv

      owned :
          (r : Resident K T F) (b : Bound K T) (a : Access) (own : Bool)
          → entry x i ≡ some r
          → get r.slot.phase ≡ Phase.ready b a
          → Inv hooks (
              (polled hooks ids x i r.slot
                (if not own then Current.stale else current_of a token)
                status
                depth).1)
      owned r b a true e is = of r b a status e is
      owned r b a false e is = inv

      known :
          (r : Resident K T F) (own : Bool) (c : Current K)
          → ((status : Status) → Inv hooks ((polled hooks ids x i r.slot c status depth).1))
          → Inv hooks
              ((polled hooks ids x i r.slot (if own then c else Current.stale) status depth).1)
      known r true c h = h status
      known r false c h = inv

      on :
          (r : Resident K T F) (p : Phase K T F)
          → entry x i ≡ some r
          → get r.slot.phase ≡ p
          → Inv hooks ((polled hooks ids x i r.slot (current_in ids p token) status depth).1)
      on r Phase.vacant e is = inv
      on r Phase.uninit e is = inv
      on r (Phase.handshaking b) e is = known r (is_of ids b token) Current.handshaking (λ s. inv)
      on r (Phase.ready b a) e is = owned r b a (is_of ids b token) e is
      on r (Phase.closing b f d) e is = known r (is_of ids b token) Current.closing (λ s. inv)

      at :
          (o : Option (Resident K T F))
          → entry x i ≡ o
          → Inv hooks (
              (elim o as (λ _. (Readiness × Option (Transaction K)) × Index K T F L) [
                | none ↦ ((Readiness.ready, none), x)
                | some r ↦ polled hooks ids x i r.slot (current ids r.slot token) status depth
              ]).1)
      at none e = inv
      at (some r) e = on r (get r.slot.phase) e refl
