-- ===== src/Pg/Pool/Ready/Writes.antt =====
-- What the storage of the index writes: one entry each time, and no counter.
use mathlib.Core.Path.{subst}
use native.Mathlib.Decide.{ℕ_discrete}
use cartel.Base.{
  lt_of_get_elem?, ℕ, Bool, Option, ◌≡◌, suc, zero, List, set, get_elem?, arith, get_elem?-set_self,
  get_elem?-set_ne, refl, none, some, true, false, [], if◌then◌else◌, ◌∷◌, ◌∙◌, ap, sym,
}
use cartel.Pg.Pool.Ready.Stored.{
  priority_of, wrote, attached, detached, pushed, unpushed, priority_in,
}
use cartel.Pg.Pool.Slot.{Slot}
use cartel.Pg.Pool.Ready.{
  Index, Links, Resident, attach, detach, entry, insert_rank, remove, set_priority, set_slot,
  occupy, vacate,
}
use cartel.Pg.Pool.Ready.Counts.{Inv, IsSound, Replaced, Wrote, lives, blocks, total, total-set}

set-set : {A : Type 0} (xs : List A) (i : ℕ) (a b : A) → set (set xs i a) i b ≡ set xs i b
set-set [] i a b = refl
set-set (x ∷ xs) zero a b = refl
set-set (x ∷ xs) (suc i) a b = ap (λ ys. x ∷ ys) (set-set xs i a b)

module _ {K T F L : Type 0} (hooks : Links L) where
  -- one write behind another
  pub Wrote-trans :
      {x y z : Index K T F L} {i : ℕ} {a b : Resident K T F}
      → Wrote hooks x i a y
      → Wrote hooks y i b z
      → Wrote hooks x i b z
  Wrote-trans {x = x} {i = i} {a = a} {b = b} u v = record {
    residents = v.residents ∙ ap (λ rs. set rs i b) u.residents ∙ set-set x.residents i a b;
    live = v.live ∙ u.live;
    blockers = v.blockers ∙ u.blockers;
    stored = λ s. v.stored (u.stored s);
  }

  -- the entry that was written
  pub entry_of_Wrote :
      {x y : Index K T F L} {i : ℕ} {r a : Resident K T F}
      → entry x i ≡ some r
      → Wrote hooks x i a y
      → entry y i ≡ some a
  entry_of_Wrote {x = x} {i = i} {a = a} e u =
      ap (λ rs. get_elem? rs i) u.residents
      ∙ get_elem?-set_self x.residents i a (lt_of_get_elem? i x.residents e)

  -- a slot that is written leaves the priorities
  priority-set_slot :
      (x : Index K T F L) (i : ℕ) (slot : Slot K T F) {r : Resident K T F}
      → entry x i ≡ some r
      → (j : ℕ) → priority_of (set_slot x i slot) j ≡ priority_of x j
  priority-set_slot x i slot {r = r} e j = elim (ℕ_discrete i j) [
    | yes same ↦
        rw (set_slot, e)
          (subst
            (λ k.
              priority_in (get_elem? (set x.residents i new) k)
              ≡ priority_in (get_elem? x.residents k))
            same
            (ap priority_in (get_elem?-set_self x.residents i new (lt_of_get_elem? i x.residents e))
              ∙ sym (ap priority_in e)))
    | no other ↦ rw (set_slot, e) (ap priority_in (get_elem?-set_ne x.residents new other))
  ]
    where
      new : Resident K T F
      new = record r { slot = slot }

  pub set_slot-Wrote :
      (x : Index K T F L) (i : ℕ) (slot : Slot K T F) {r : Resident K T F}
      → entry x i ≡ some r
      → Wrote hooks x i (record r { slot = slot }) (set_slot x i slot)
  set_slot-Wrote x i slot e = record {
    residents = rw (set_slot, e) refl;
    live = rw (set_slot, e) refl;
    blockers = rw (set_slot, e) refl;
    stored = λ s.
        wrote x (set_slot x i slot) s (rw (set_slot, e) refl) (rw (set_slot, e) refl)
          (priority-set_slot x i slot e);
  }

  -- a change of links and minimum alone
  abbrev Keeps : Index K T F L → Index K T F L → Type 0
  Keeps x y = (y.residents ≡ x.residents) × (y.live ≡ x.live) × (y.blockers ≡ x.blockers)

  if_Keeps :
      (b : Bool) (x y z : Index K T F L) → Keeps x y → Keeps x z → Keeps x (if b then y else z)
  if_Keeps true x y z u v = u
  if_Keeps false x y z u v = v

  occupy-Keeps : (x : Index K T F L) (row : ℕ) → Keeps x (occupy hooks x row)
  occupy-Keeps x row = if_Keeps _ x _ _ (refl, refl, refl) (refl, refl, refl)

  vacate-Keeps : (x : Index K T F L) (row : ℕ) → Keeps x (vacate hooks x row)
  vacate-Keeps x row = if_Keeps _ x _ _ (refl, refl, refl) (refl, refl, refl)

  -- what setting a priority writes
  set_priority_lem :
      (x : Index K T F L) (i : ℕ) (priority : Option ℕ) {r : Resident K T F}
      → entry x i ≡ some r
      → ((set_priority x i priority).residents
          ≡ set x.residents i (record r { priority = priority }))
        × ((set_priority x i priority).live ≡ x.live)
        × ((set_priority x i priority).blockers ≡ x.blockers)
  set_priority_lem x i priority e = rw (set_priority, e) (refl, refl, refl)

  pub attach-Wrote :
      (x : Index K T F L) (i row : ℕ) {r : Resident K T F}
      → entry x i ≡ some r
      → r.priority ≡ none
      → Wrote hooks x i (record r { priority = some row }) (attach hooks x i row)
  unfolding attach
  attach-Wrote x i row {r = r} e off =
      let held = if hooks.is_empty x.links row then occupy hooks x row else x in
      let (rs, l, b) : Keeps x held =
        if_Keeps (hooks.is_empty x.links row) x _ _ (occupy-Keeps x row) (refl, refl, refl) in
      let (rs', l', b') =
        set_priority_lem (record held { links = hooks.link_raw held.links row i }) i (some row)
          (ap (λ xs. get_elem? xs i) rs ∙ e) in
      record {
        residents = rs' ∙ ap (λ xs. set xs i (record r { priority = some row })) rs;
        live = l' ∙ l;
        blockers = b' ∙ b;
        stored = λ s. attached x i row s e off;
      }

  pub detach-Wrote :
      (x : Index K T F L) (i row : ℕ) {r : Resident K T F}
      → entry x i ≡ some r
      → r.priority ≡ some row
      → Wrote hooks x i (record r { priority = none }) (detach hooks x i row)
  unfolding detach
  detach-Wrote x i row {r = r} e on =
      let left = set_priority (record x { links = hooks.unlink_raw x.links row i }) i none in
      let (rs, l, b) : Keeps left
          (if hooks.is_empty left.links row then vacate hooks left row else left) =
        if_Keeps (hooks.is_empty left.links row) left _ _ (vacate-Keeps left row)
          (refl, refl, refl) in
      let (rs', l', b') =
        set_priority_lem (record x { links = hooks.unlink_raw x.links row i }) i none e in
      record {
        residents = rs ∙ rs';
        live = l ∙ l';
        blockers = b ∙ b';
        stored = λ s. detached x i row s e on;
      }

  insert_rank-Wrote :
      (x : Index K T F L) (i row : ℕ) {r : Resident K T F}
      → entry x i ≡ some r
      → r.priority ≡ none
      → Wrote hooks x i (record r { priority = some row }) (insert_rank hooks x i row)
  unfolding insert_rank
  insert_rank-Wrote x i row e off =
      let w = attach-Wrote (record x { links = hooks.cycle_push x.links i }) i row e off in
      record {
        residents = w.residents;
        live = w.live;
        blockers = w.blockers;
        stored = λ s. w.stored (pushed x i s);
      }

  remove-Wrote :
      (x : Index K T F L) (i row : ℕ) {r : Resident K T F}
      → entry x i ≡ some r
      → r.priority ≡ some row
      → Wrote hooks x i (record r { priority = none }) (remove hooks x i row)
  unfolding remove
  remove-Wrote x i row e on =
      let w = detach-Wrote (record x { links = hooks.cycle_unlink x.links i }) i row e on in
      record {
        residents = w.residents;
        live = w.live;
        blockers = w.blockers;
        stored = λ s. w.stored (unpushed x i s);
      }

  -- a slot that is written, and listed or removed from the list
  pub slot_insert-Wrote :
      (x : Index K T F L) (i row : ℕ) (slot : Slot K T F) {r : Resident K T F}
      → entry x i ≡ some r
      → r.priority ≡ none
      → Wrote hooks x i
          (record { slot = slot; priority = some row })
          (insert_rank hooks (set_slot x i slot) i row)
  slot_insert-Wrote x i row slot e off =
      let first = set_slot-Wrote x i slot e in
      Wrote-trans first (insert_rank-Wrote (set_slot x i slot) i row (entry_of_Wrote e first) off)

  pub slot_remove-Wrote :
      (x : Index K T F L) (i row : ℕ) (slot : Slot K T F) {r : Resident K T F}
      → entry x i ≡ some r
      → r.priority ≡ some row
      → Wrote hooks x i
          (record { slot = slot; priority = none })
          (remove hooks (set_slot x i slot) i row)
  slot_remove-Wrote x i row slot e on =
      let first = set_slot-Wrote x i slot e in
      Wrote-trans first (remove-Wrote (set_slot x i slot) i row (entry_of_Wrote e first) on)

  -- the invariant behind an operation that replaces a sound resident by a sound one
  pub Replaced-Inv :
      {x y : Index K T F L} {i : ℕ} {r r' : Resident K T F}
      → Inv hooks x
      → entry x i ≡ some r
      → IsSound r'
      → Replaced hooks x i r r' y
      → Inv hooks y
  Replaced-Inv {x = x} {y = y} {i = i} {r = r} {r' = r'} inv e good u = record {
    live =
        let counted = total-set lives x.residents i r' e in
        let same = ap (total lives) u.residents in omega (arith, inv.live, u.live, counted, same);
    blockers =
        let counted = total-set blocks x.residents i r' e in
        let same = ap (total blocks) u.residents in
        omega (arith, inv.blockers, u.blockers, counted, same);
    stored = u.stored;
    sound = λ j e'. at j e';
  }
    where
      at : (j : ℕ) {q : Resident K T F} → get_elem? y.residents j ≡ some q → IsSound q
      at j {q = q} e' = elim (ℕ_discrete i j) [
        | yes same ↦
            let here = get_elem?-set_self x.residents i r' (lt_of_get_elem? i x.residents e) in
            let there : get_elem? y.residents i ≡ some q =
              subst (λ k. get_elem? y.residents k ≡ some q) (sym same) e' in
            let is_it : some r' ≡ some q =
              sym here ∙ sym (ap (λ rs. get_elem? rs i) u.residents) ∙ there in
            let same_resident : r' ≡ q = cc in subst IsSound same_resident good
        | no other ↦ inv.sound j (
            sym (get_elem?-set_ne x.residents r' other)
            ∙ sym (ap (λ rs. get_elem? rs j) u.residents)
            ∙ e')
      ]
