-- ===== src/Pg/Pool/Ready/Receives.antt =====
-- Changing whether a connection receives keeps the counters right.
use mathlib.Core.Path.{subst}
use cartel.Base.{
  ℕ, Bool, Option, ◌≡◌, ◌+◌, arith, sym, ◌∙◌, ◌&&◌, refl, none, some, true, false, if◌then◌else◌,
  ap,
}
use cartel.Pg.Pool.{Ids}
use cartel.Pg.Pool.Phases.{
  Access, Bound, Lifecycle, Phase, get, is_receiving, same, set_receiving, set_receiving_in,
  bound_to, get_in, receiving_in,
}
use cartel.Pg.Pool.Slot.{Slot, barriers}
use cartel.Pg.Pool.Life.{is_of}
use cartel.Pg.Pool.Turns.{current, current_of}
use cartel.Pg.Pool.Ready.{Index, Links, Resident, entry, set_slot, insert}
use cartel.Pg.Pool.Ready.Moves.{index_receiving, is_shared, received_at, unlisted}
use cartel.Pg.Pool.Ready.Counts.{Inv, shared_of}
use cartel.Pg.Pool.Ready.Writes.{slot_insert-Wrote}
use cartel.Pg.Pool.Ready.Keeps.{quiet-Inv, step-Inv, not_free, not_listed}
use cartel.Pg.Pool.Ready.Shuts.{unlisted-Wrote}

flipped_lem : (v : Bool) → same v false ≡ false → v ≡ true
flipped_lem true h = refl
flipped_lem false h = absurd (cc)

module _ {K T F L : Type 0} (hooks : Links L) (ids : Ids K) where
  -- the slot of a connection that receives, or does not any more
  abbrev with_receiving : Slot K T F → Access → Bool → Slot K T F
  with_receiving s a receiving = record s {
    phase = record s.phase { phase = Lifecycle.ready a receiving };
  }

  -- a connection that receives is not free, and one that does not is free if it is shared
  module _ (x : Index K T F L) (token : K) (depth : ℕ) (inv : Inv hooks x) (i : ℕ)
      (r : Resident K T F) (e : entry x i ≡ some r) (b : Bound K T) (a : Access)
      (bound : r.slot.phase.bound ≡ some b) (is : get r.slot.phase ≡ Phase.ready b a) where
    receives-Inv :
        Inv hooks (unlisted hooks ids (set_slot x i (with_receiving r.slot a true)) i r.priority)
    unfolding get is_receiving
    receives-Inv =
        let w = unlisted-Wrote hooks ids x i (with_receiving r.slot a true) e in
        let got : get (with_receiving r.slot a true).phase ≡ Phase.ready b a = rw (bound) refl in
        step-Inv hooks (Phase.ready b a) (Phase.ready b a) inv e is got w (refl, refl, refl)
          (omega (arith, w.live)) (omega (arith, w.blockers))
          (closed_off (shared_of (get (with_receiving r.slot a true).phase))) (λ u. cc)
      where
        closed_off : (v : Bool) → false ≡ (v && false)
        closed_off true = refl
        closed_off false = refl

    -- whether it is shared, to a look at it
    shown_lem :
        is_of ids b token ≡ true
        → is_shared (current ids (with_receiving r.slot a false) token)
          ≡ shared_of {F = F} (Phase.ready b a)
    unfolding current get
    shown_lem own = rw (bound, own) (on a)
      where
        on : (c : Access) → is_shared (current_of c token) ≡ shared_of {F = F} (Phase.ready b c)
        on (Access.shared q) = refl
        on (Access.reserved q) = refl
        on (Access.held q) = refl
        on (Access.finalizing q) = refl
        on Access.draining = refl

    stops-Inv :
        is_of ids b token ≡ true
        → is_receiving r.slot.phase ≡ true
        → Inv hooks (
            if is_shared (current ids (with_receiving r.slot a false) token)
            then insert hooks
                (set_slot x i (with_receiving r.slot a false))
                i
                (depth + barriers (with_receiving r.slot a false))
            else set_slot x i (with_receiving r.slot a false))
    unfolding get is_receiving
    stops-Inv own takes =
        subst
          (λ v. Inv hooks (
            if v
            then insert hooks (set_slot x i slot) i (depth + barriers slot)
            else set_slot x i slot))
          (sym (shown_lem own)) (on (shared_of {F = F} (Phase.ready b a)) refl)
      where
        no_more : (v : Bool) → (v && false) ≡ false
        no_more true = refl
        no_more false = refl

        slot : Slot K T F
        slot = with_receiving r.slot a false

        got : get slot.phase ≡ Phase.ready b a
        got = rw (bound) refl

        on :
            (v : Bool)
            → shared_of {F = F} (Phase.ready b a) ≡ v
            → Inv hooks (
                if v
                then insert hooks (set_slot x i slot) i (depth + barriers slot)
                else set_slot x i slot)
        on true shares =
            let w =
              slot_insert-Wrote hooks x i
                (hooks.clamp (set_slot x i slot).links (depth + barriers slot)) slot e
                (not_listed hooks i inv e (rw (takes) (no_more (shared_of (get r.slot.phase))))) in
            step-Inv hooks (Phase.ready b a) (Phase.ready b a) inv e is got w (refl, refl, refl)
              (omega (arith, w.live)) (omega (arith, w.blockers)) (rw (got, shares) refl) (λ u. cc)
        on false shares =
            quiet-Inv hooks i slot (Phase.ready b a) (Phase.ready b a) inv e is got refl refl
              (not_free r.slot is shares ∙ sym (not_free slot got shares)) (λ u. cc)

  pub index_receiving-Inv :
      (x : Index K T F L) (token : K) (receiving : Bool) (depth : ℕ)
      → Inv hooks x
      → Inv hooks ((index_receiving hooks ids x token receiving depth).1)
  unfolding index_receiving set_receiving get is_receiving
  index_receiving-Inv x token receiving depth inv = at (entry x (ids.index token)) refl
    where
      i : ℕ
      i = ids.index token

      owned :
          (r : Resident K T F) (a : Access) (b : Bound K T) (own : Bool) (receiving : Bool)
          → entry x i ≡ some r
          → r.slot.phase.bound ≡ some b
          → get r.slot.phase ≡ Phase.ready b a
          → is_of ids b token ≡ own
          → same (is_receiving r.slot.phase) receiving ≡ false
          → Inv hooks (
              (received_at hooks ids x i r token receiving depth (
                if own
                then (true, record r.slot.phase { phase = Lifecycle.ready a receiving })
                else (false, r.slot.phase))).1)
      owned r a b false receiving e bound is own other = inv
      owned r a b true true e bound is own other = receives-Inv x token depth inv i r e b a bound is
      owned r a b true false e bound is own other =
          stops-Inv x token depth inv i r e b a bound is own
            (flipped_lem (is_receiving r.slot.phase) other)

      changed :
          (r : Resident K T F) (a : Access) (o : Option (Bound K T)) (c unchanged own : Bool)
          → entry x i ≡ some r
          → r.slot.phase.bound ≡ o
          → get r.slot.phase ≡ get_in (Lifecycle.ready a c) o
          → bound_to ids o token ≡ own
          → same (is_receiving r.slot.phase) receiving ≡ unchanged
          → Inv hooks (
              (received_at hooks ids x i r token receiving depth (
                if unchanged
                then (false, r.slot.phase)
                else if own
                then (true, record r.slot.phase { phase = Lifecycle.ready a receiving })
                else (false, r.slot.phase))).1)
      changed r a o c true own e bound is h other = inv
      changed r a none c false true e bound is h other = absurd (cc)
      changed r a none c false false e bound is h other = inv
      changed r a (some b) c false own e bound is h other =
          owned r a b own receiving e bound is h other

      on :
          (r : Resident K T F) (l : Lifecycle F) (o : Option (Bound K T))
          → entry x i ≡ some r
          → r.slot.phase.phase ≡ l
          → r.slot.phase.bound ≡ o
          → Inv hooks (
              (received_at hooks ids x i r token receiving depth
                (set_receiving_in ids r.slot.phase l token receiving)).1)
      on r (Lifecycle.ready a c) o e at bound =
          changed r a o c (same c receiving) (bound_to ids r.slot.phase.bound token) e bound
            (ap (λ l. get_in l r.slot.phase.bound) at
              ∙ ap (λ o. get_in (Lifecycle.ready a c) o) bound)
            (ap (λ o. bound_to ids o token) (sym bound))
            (ap (λ v. same v receiving) (ap receiving_in at))
      on r Lifecycle.vacant o e at bound = inv
      on r Lifecycle.handshaking o e at bound = inv
      on r (Lifecycle.closing f d) o e at bound = inv

      at :
          (o : Option (Resident K T F))
          → entry x i ≡ o
          → Inv hooks (
              (elim o as (λ _. Bool × Index K T F L) [
                | none ↦ (false, x)
                | some r ↦
                    received_at hooks ids x i r token receiving depth
                      (set_receiving ids r.slot.phase token receiving)
              ]).1)
      at none e = inv
      at (some r) e = on r r.slot.phase.phase r.slot.phase.bound e refl refl
