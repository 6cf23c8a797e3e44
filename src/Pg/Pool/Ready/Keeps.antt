-- ===== src/Pg/Pool/Ready/Keeps.antt =====
-- The operations that open a connection, reserve it, and give it back keep the counters right.
use cartel.Pg.Pool.Ready.Stored.{wrote, priority_in}
use cartel.Base.{
  ℕ, Option, ◌≡◌, ◌≢◌, ◌+◌, ◌≤◌, suc, zero, List, get_elem?, arith, refl, none, some, false, [],
  ◌∷◌, sym, ap, ◌∙◌,
}
use cartel.Pg.Pool.Phases.{Bound, Lifecycle, Phase, State, get, is_receiving}
use cartel.Pg.Pool.Slot.{Slot}
use cartel.Pg.Pool.Ready.{Index, Resident, entry, set_slot, Links}
use cartel.Pg.Pool.Ready.Counts.{
  Inv, Wrote, total, ready_of, blocks_of, shared_of, is_free, is_some,
}
use cartel.Pg.Pool.Ready.Writes.{Replaced-Inv, set_slot-Wrote}

module _ {K T F : Type 0} where
  -- a resident counts in the total
  pub total-get :
      (f : Resident K T F → ℕ) (rs : List (Resident K T F)) (i : ℕ) {r : Resident K T F}
      → get_elem? rs i ≡ some r
      → f r ≤ total f rs
  total-get f [] i e = absurd (cc)
  total-get f (q ∷ rs) zero {r = r} e =
      let same : q ≡ r = cc in let weighs = ap f same in omega (arith, weighs)
  total-get f (q ∷ rs) (suc i) e = omega (arith, total-get f rs i e)

  -- only a ready connection receives
  pub not_receiving :
      (s : State K T F) {p : Phase K T F}
      → get s ≡ p
      → ready_of p ≡ 0
      → p ≢ Phase.uninit
      → is_receiving s ≡ false
  unfolding get is_receiving
  not_receiving s {p = p} e quiet written = on s.phase s.bound refl refl
    where
      on :
          (l : Lifecycle F) (b : Option (Bound K T))
          → s.phase ≡ l
          → s.bound ≡ b
          → is_receiving s ≡ false
      on Lifecycle.vacant b at bound = rw (at, is_receiving) refl
      on Lifecycle.handshaking b at bound = rw (at, is_receiving) refl
      on (Lifecycle.closing f d) b at bound = rw (at, is_receiving) refl
      on (Lifecycle.ready a v) none at bound =
          let read : get s ≡ Phase.uninit = rw (at, bound, get) refl in
          absurd (written (sym e ∙ read))
      on (Lifecycle.ready a v) (some b) at bound =
          let read : get s ≡ Phase.ready b a = rw (at, bound, get) refl in
          absurd (omega (arith, quiet, ap ready_of (sym e ∙ read)))

  -- a phase that no request may take
  pub not_free :
      (s : Slot K T F) {p : Phase K T F} → get s.phase ≡ p → shared_of p ≡ false → is_free s ≡ false
  unfolding get is_receiving
  not_free s e other = rw (e, other) refl

  module _ {L : Type 0} (hooks : Links L) where
    -- an entry that no request may take is not listed
    pub not_listed :
        {x : Index K T F L} (i : ℕ) {r : Resident K T F}
        → Inv hooks x
        → entry x i ≡ some r
        → is_free r.slot ≡ false
        → r.priority ≡ none
    not_listed i {r = r} inv e off = on r.priority ((inv.sound i e).listed ∙ off)
      where
        on : (o : Option ℕ) → is_some o ≡ false → o ≡ none
        on none h = refl
        on (some row) h = absurd (cc)

    -- an index with other counters alone
    abbrev pub Same : Index K T F L → Index K T F L → Type 0
    Same y w = (y.residents ≡ w.residents) × (y.links ≡ w.links) × (y.minimum ≡ w.minimum)

    -- an operation on one entry, and the counters behind it
    pub step-Inv :
        {x y w : Index K T F L} {i : ℕ} {r r' : Resident K T F} (p p' : Phase K T F)
        → Inv hooks x
        → entry x i ≡ some r
        → get r.slot.phase ≡ p
        → get r'.slot.phase ≡ p'
        → Wrote hooks x i r' w
        → Same y w
        → y.live + ready_of p ≡ w.live + ready_of p'
        → y.blockers + blocks_of p ≡ w.blockers + blocks_of p'
        → is_some r'.priority ≡ is_free r'.slot
        → p' ≢ Phase.uninit
        → Inv hooks y
    step-Inv {y = y} {w = w'} p p' inv e was is w (same, links, minimum) live blockers listed
          written =
        let lived = ap ready_of was in
        let lives_now = ap ready_of is in
        let blocked = ap blocks_of was in
        let blocks_now = ap blocks_of is in
        Replaced-Inv hooks inv e
          (record { listed = listed; initialized = λ u. written (sym is ∙ u) })
          (record {
            residents = same ∙ w.residents;
            stored =
                wrote w' y (w.stored inv.stored) links minimum
                  (λ i. ap (λ rs. priority_in (get_elem? rs i)) same);
            live = omega (arith, live, lived, lives_now, w.live);
            blockers = omega (arith, blockers, blocked, blocks_now, w.blockers);
          })

    -- an operation that leaves counters and list alone
    pub quiet-Inv :
        {x : Index K T F L} (i : ℕ) {r : Resident K T F} (slot : Slot K T F) (p p' : Phase K T F)
        → Inv hooks x
        → entry x i ≡ some r
        → get r.slot.phase ≡ p
        → get slot.phase ≡ p'
        → ready_of p ≡ ready_of p'
        → blocks_of p ≡ blocks_of p'
        → is_free r.slot ≡ is_free slot
        → p' ≢ Phase.uninit
        → Inv hooks (set_slot x i slot)
    quiet-Inv {x = x} i {r = r} slot p p' inv e was is live blockers free written =
        step-Inv p p' inv e was is (set_slot-Wrote hooks x i slot e) (refl, refl, refl)
          (omega (arith, live)) (omega (arith, blockers)) ((inv.sound i e).listed ∙ free) written

    pub unmoved-Inv :
        {x : Index K T F L} (i : ℕ) {r : Resident K T F}
        → Inv hooks x
        → entry x i ≡ some r
        → Inv hooks (set_slot x i r.slot)
    unmoved-Inv i {r = r} inv e =
        quiet-Inv i r.slot (get r.slot.phase) (get r.slot.phase) inv e refl refl refl refl refl
          ((inv.sound i e).initialized)
