-- ===== src/Pg/Pool/Ready/Reserves.antt =====
-- A turn that reserves a connection keeps the counters right.
use cartel.Pg.Pool.Ready.{Links, Index, entry, Resident, remove, set_slot}
use cartel.Pg.Pool.Ready.Moves.{
  reserve_listed, release_reservation, reserve_turn, settled_turn, reserved_in,
}
use cartel.Pg.Pool.Turns.{with_access, reserve}
use cartel.Pg.Pool.Ready.Writes.{slot_insert-Wrote, slot_remove-Wrote, entry_of_Wrote}
use mathlib.Core.Path.{subst}
use cartel.Pg.Pool.Life.{Transaction}
use cartel.Base.{ℕ, Bool, Option, ◌≡◌, refl, none, true, false, some, ap, arith, sym, ◌∙◌, ◌+◌}
use cartel.Pg.Pool.Turns.{reserve, reserve_next, with_access}
use cartel.Pg.Pool.Phases.{
  Access, Bound, Phase, State, get, is_receiving, set_access, Lifecycle, next_generation,
}
use cartel.Pg.Pool.Slot.{Slot}
use cartel.Pg.Pool.Ready.Counts.{is_free, Inv, blocks, blocks_of, is_some}
use cartel.Pg.Pool.Ready.Keeps.{not_free, total-get, step-Inv}

module _ {K T F : Type 0} where
  -- what a free slot is
  pub free_lem :
      (s : Slot K T F)
      → is_free s ≡ true
      → ((b : Bound K T) × ((q : ℕ) × ((get s.phase ≡ Phase.ready b (Access.shared q))
              × (is_receiving s.phase ≡ false))))
  free_lem s free = on (get s.phase) refl (is_receiving s.phase) refl
    where
      on :
          (p : Phase K T F)
          → get s.phase ≡ p
          → (v : Bool) → is_receiving s.phase ≡ v
          → (b : Bound K T) × ((q : ℕ) × ((get s.phase ≡ Phase.ready b (Access.shared q))
                × (is_receiving s.phase ≡ false)))
      on (Phase.ready b (Access.shared q)) is false quiet = (b, (q, (is, quiet)))
      on (Phase.ready b (Access.shared q)) is true quiet =
          let h = rw (is, quiet) at free in absurd (cc)
      on (Phase.ready b (Access.reserved g)) is v quiet = absurd (cc (not_free s is refl))
      on (Phase.ready b (Access.held g)) is v quiet = absurd (cc (not_free s is refl))
      on (Phase.ready b (Access.finalizing g)) is v quiet = absurd (cc (not_free s is refl))
      on (Phase.ready b Access.draining) is v quiet = absurd (cc (not_free s is refl))
      on Phase.vacant is v quiet = absurd (cc (not_free s is refl))
      on Phase.uninit is v quiet = absurd (cc (not_free s is refl))
      on (Phase.handshaking b) is v quiet = absurd (cc (not_free s is refl))
      on (Phase.closing b f d) is v quiet = absurd (cc (not_free s is refl))

  -- a new access to a ready connection
  pub get-set_access :
      (s : State K T F) (access : Access) {b : Bound K T} {a : Access}
      → get s ≡ Phase.ready b a
      → get (set_access s access) ≡ Phase.ready b access
  unfolding get set_access is_receiving
  get-set_access s access {b = b} {a = a} e = on s.bound s.phase refl refl
    where
      on :
          (o : Option (Bound K T)) (l : Lifecycle F)
          → s.bound ≡ o
          → s.phase ≡ l
          → get (set_access s access) ≡ Phase.ready b access
      on o Lifecycle.vacant bound at = let h = rw (at, get) at e in absurd (cc)
      on none Lifecycle.handshaking bound at = let h = rw (at, bound, get) at e in absurd (cc)
      on none (Lifecycle.ready c v) bound at = let h = rw (at, bound, get) at e in absurd (cc)
      on none (Lifecycle.closing f d) bound at = let h = rw (at, bound, get) at e in absurd (cc)
      on (some c) Lifecycle.handshaking bound at = let h = rw (at, bound, get) at e in absurd (cc)
      on (some c) (Lifecycle.closing f d) bound at = let h = rw (at, bound, get) at e in absurd (cc)
      on (some c) (Lifecycle.ready q v) bound at =
          let h = rw (at, bound, get) at e in
          let same : c ≡ b = cc in rw (bound) (ap (λ x. Phase.ready x access) same)

  -- a new access keeps what is received
  pub receiving-set_access :
      (s : State K T F) (access : Access) → is_receiving (set_access s access) ≡ is_receiving s
  unfolding set_access is_receiving
  receiving-set_access s access = refl

  module _ {L : Type 0} (hooks : Links L) where
    -- an operation that succeeds, and leaves the counters right
    abbrev pub Succeeds : Option (Index K T F L) → Type 0
    Succeeds none = ⊥
    Succeeds (some y) = Inv hooks y

    -- a reservation that is given back
    released-Inv :
        (y : Index K T F L) (i rank : ℕ) (slot : Slot K T F) (b : Bound K T) (g : ℕ)
        → Inv hooks y
        → entry y i ≡ some (record { slot = slot; priority = none })
        → get slot.phase ≡ Phase.ready b (Access.reserved g)
        → is_receiving slot.phase ≡ false
        → Inv hooks
            (release_reservation hooks y i rank slot (record { conn = b.token; generation = g }))
    unfolding release_reservation
    released-Inv y i rank slot b g inv e is quiet =
        let freed = with_access slot (Access.shared g) in
        let got = get-set_access slot.phase (Access.shared g) is in
        let w = slot_insert-Wrote hooks y i rank freed e refl in
        let held = total-get blocks y.residents i e in
        let one = ap blocks_of is in
        step-Inv hooks (Phase.ready b (Access.reserved g)) (Phase.ready b (Access.shared g)) inv e
          is got w (refl, refl, refl) (omega (arith, w.live))
          (omega (arith, w.blockers, inv.blockers, held, one))
          (rw (got, receiving-set_access slot.phase (Access.shared g), quiet) refl) (λ u. cc)

    -- From an index whose counters are right: a turn that reserves a connection finds it shared if it is
    -- listed, and leaves the counters right, whether it commits the reservation or gives it back.
    pub reserve_turn-Inv :
        (x : Index K T F L) (i : ℕ) (commits : Bool)
        → Inv hooks x
        → Succeeds (reserve_turn hooks x i commits)
    unfolding reserve_turn settled_turn reserve_listed reserve release_reservation
    reserve_turn-Inv x i commits inv = at (entry x i) refl
      where
        kept :
            (r : Resident K T F) (rank : ℕ) (b : Bound K T) (g : ℕ) {q : ℕ}
            → entry x i ≡ some r
            → r.priority ≡ some rank
            → get r.slot.phase ≡ Phase.ready b (Access.shared q)
            → Succeeds (
                settled_turn hooks i rank true
                  (reserved_in hooks x i rank (reserve_next r.slot b (some g))))
        kept r rank b g {q = q} e listed is =
            let slot = with_access r.slot (Access.reserved g) in
            let got = get-set_access r.slot.phase (Access.reserved g) is in
            let w = slot_remove-Wrote hooks x i rank slot e listed in
            step-Inv hooks (Phase.ready b (Access.shared q)) (Phase.ready b (Access.reserved g)) inv
              e is got w (refl, refl, refl) (omega (arith, w.live)) (omega (arith, w.blockers))
              (sym (not_free slot got refl)) (λ u. cc)

        ended :
            (r : Resident K T F) (rank : ℕ) (b : Bound K T) (o : Option ℕ) (commits : Bool) {q : ℕ}
            → entry x i ≡ some r
            → r.priority ≡ some rank
            → get r.slot.phase ≡ Phase.ready b (Access.shared q)
            → is_receiving r.slot.phase ≡ false
            → Succeeds (
                settled_turn hooks i rank commits
                  (reserved_in hooks x i rank (reserve_next r.slot b o)))
        ended r rank b none commits {q = q} e listed is quiet =
            let slot = with_access r.slot Access.draining in
            let got = get-set_access r.slot.phase Access.draining is in
            let w = slot_remove-Wrote hooks x i rank slot e listed in
            step-Inv hooks (Phase.ready b (Access.shared q)) (Phase.ready b Access.draining) inv e
              is got w (refl, refl, refl) (omega (arith, w.live)) (omega (arith, w.blockers))
              (sym (not_free slot got refl)) (λ u. cc)
        ended r rank b (some g) true e listed is quiet = kept r rank b g e listed is
        ended r rank b (some g) false e listed is quiet =
            let slot = with_access r.slot (Access.reserved g) in
            let w = slot_remove-Wrote hooks x i rank slot e listed in
            let there = entry_of_Wrote hooks e w in
            let removed = remove hooks (set_slot x i slot) i rank in
            let y = record removed { blockers = removed.blockers + 1 } in
            let id : Transaction K = record { conn = b.token; generation = g } in
            subst
              (λ o. Succeeds (elim o [
                | none ↦ some y
                | some q ↦ some (release_reservation hooks y i rank q.slot id)
              ]))
              (sym there)
              (released-Inv y i rank slot b g (kept r rank b g e listed is) there
                (get-set_access r.slot.phase (Access.reserved g) is)
                (receiving-set_access r.slot.phase (Access.reserved g) ∙ quiet))

        turn :
            (r : Resident K T F) (o : Option ℕ)
            → entry x i ≡ some r
            → r.priority ≡ o
            → Succeeds (elim o [
              | none ↦ some x
              | some rank ↦ settled_turn hooks i rank commits (reserve_listed hooks x i rank r.slot)
            ])
        turn r none e listed = inv
        turn r (some rank) e listed =
            let free : is_free r.slot ≡ true = sym ((inv.sound i e).listed) ∙ ap is_some listed in
            let (b, (q, (is, quiet))) = free_lem r.slot free in
            rw (is) (ended r rank b (next_generation q) commits e listed is quiet)

        at :
            (o : Option (Resident K T F))
            → entry x i ≡ o
            → Succeeds (elim o [
              | none ↦ some x
              | some r ↦ elim r.priority [
                | none ↦ some x
                | some rank ↦
                    settled_turn hooks i rank commits (reserve_listed hooks x i rank r.slot)
              ]
            ])
        at none e = inv
        at (some r) e = turn r r.priority e refl
