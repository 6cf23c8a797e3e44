-- ===== src/Pg/Pool/Ready/Ranked.antt =====
-- The index keeps its lists, its bitmap and its minimum in step with the priorities.
use native.Mathlib.Decide.{ℕ_discrete}
use mathlib.Core.Path.{subst}
use cartel.Base.{
  lt_of_get_elem?, get_elem?-set_self, get_elem?-set_ne, ℕ, Bool, Option, Bool-cases, ◌≡◌, ◌==◌,
  ◌&&◌, ◌||◌, not, arith, if◌then◌else◌, sym, ap, ◌∙◌, some, refl, none, true, false, get_elem?,
  set, inl, inr,
}
use cartel.Pg.Pool.Ready.{
  Index, Links, Resident, attach, below, entry, occupy, set_priority, is_row,
}
use cartel.Pg.Pool.Ready.Stored.{priority_of, priority_in}
use cartel.Pg.Pool.Ready.Least.{
  IsLeast, IsLinks, IsRanked, occupied, same_empty, same-IsLeast, set-IsLeast,
}

-- the priorities behind a change of one
pub priority-set_priority :
    {K T F L : Type 0} (x : Index K T F L) (i : ℕ) (priority : Option ℕ) {r : Resident K T F}
    → entry x i ≡ some r
    → (j : ℕ)
    → priority_of (set_priority x i priority) j ≡ (if j == i then priority else priority_of x j)
priority-set_priority x i priority {r = r} e j = elim (ℕ_discrete i j) [
  | yes same ↦
      let at =
        get_elem?-set_self x.residents i (record r { priority = priority })
          (lt_of_get_elem? i x.residents e) in
      rw (set_priority, e)
        (subst
          (λ k.
            priority_in (get_elem? (set x.residents i (record r { priority = priority })) k)
            ≡ (if k == i then priority else priority_of x k))
          same (ap priority_in at ∙ ground arith))
  | no other ↦
      rw (set_priority, e)
        (ap priority_in (get_elem?-set_ne x.residents (record r { priority = priority }) other)
          ∙ ground arith)
]

-- an entry at a row that it joins
joined_lem :
    (o : Option ℕ) (q row j i : ℕ)
    → (j ≡ i → o ≡ none)
    → (is_row o q || (q == row && j == i)) ≡ is_row (if j == i then some row else o) q
joined_lem none q row j i off = ground arith
joined_lem (some m) q row j i off = elim (Bool-cases (j == i)) [
  | inl same ↦ let e = off (ground (arith, same)) in absurd (cc)
  | inr other ↦ ground (arith, other)
]

module _ {K T F L : Type 0} (hooks : Links L) (has : L → (row index : ℕ) → Bool)
    (bit : L → (row : ℕ) → Bool) (law : IsLinks hooks has bit) where
  -- an entry that joins a row
  pub attach-IsRanked :
      (x : Index K T F L) (i row : ℕ) {r : Resident K T F}
      → entry x i ≡ some r
      → r.priority ≡ none
      → IsRanked hooks has bit x
      → IsRanked hooks has bit (attach hooks x i row)
  unfolding attach
  attach-IsRanked x i row {r = r} e off ranked = on (hooks.is_empty x.links row) refl
    where
      marks :
          (l : L) (q : ℕ)
          → ((j : ℕ) → has l q j ≡ (has x.links q j || (q == row && j == i)))
          → (if q == row then true else bit x.links q) ≡ not (hooks.is_empty l q)
      marks l q holds = elim (Bool-cases (q == row)) [
        | inl at ↦
            let here : has l q i ≡ true = ground (arith, holds i, at) in
            rw (at, occupied hooks has bit law l q i here) refl
        | inr away ↦
            let kept =
              same_empty hooks has bit law x.links l q (λ j. ground (arith, holds j, away)) in
            rw (away, kept) (ranked.marked q)
      ]

      joined :
          (held : Index K T F L)
          → held.residents ≡ x.residents
          → ((q j : ℕ) → has held.links q j ≡ has x.links q j)
          → ((q : ℕ) → bit held.links q ≡ (if q == row then true else bit x.links q))
          → IsLeast (bit held.links) held.minimum
          → IsRanked hooks has bit
              (set_priority (record held { links = hooks.link_raw held.links row i }) i (some row))
      joined held rs kept bits least =
          let l = hooks.link_raw held.links row i in
          let linked = record held { links = l } in
          let there = ap (λ xs. get_elem? xs i) rs ∙ e in
          let was : (j : ℕ) → priority_of linked j ≡ priority_of x j =
            λ j. ap (λ xs. priority_in (get_elem? xs j)) rs in
          let none_yet : priority_of x i ≡ none = ap priority_in e ∙ off in
          let holds : (q j : ℕ) → has l q j ≡ (has x.links q j || (q == row && j == i)) = λ q j.
            law.has-link_raw held.links row i q j
            ∙ ap (λ v. v || (q == row && j == i)) (kept q j) in
          let same_links : (set_priority linked i (some row)).links ≡ l =
            rw (set_priority, there) refl in
          let same_least : (set_priority linked i (some row)).minimum ≡ held.minimum =
            rw (set_priority, there) refl in
          record {
            placed = λ q j.
                ap (λ v. has v q j) same_links
                ∙ holds q j
                ∙ ap (λ v. v || (q == row && j == i)) (ranked.placed q j)
                ∙ joined_lem (priority_of x j) q row j i
                    (λ same. ap (priority_of x) same ∙ none_yet)
                ∙ sym (
                    ap (λ o. is_row o q)
                      (priority-set_priority linked i (some row) there j
                        ∙ ap (λ o. if j == i then some row else o) (was j)));
            marked = λ q.
                ap (λ v. bit v q) same_links
                ∙ law.bit-link_raw held.links row i q
                ∙ bits q
                ∙ marks l q (holds q)
                ∙ sym (ap (λ v. not (hooks.is_empty v q)) same_links);
            least =
                subst (λ v. IsLeast (bit v) ((set_priority linked i (some row)).minimum))
                  (sym same_links)
                  (subst (λ m. IsLeast (bit l) m) (sym same_least)
                    (same-IsLeast (bit held.links) (bit l) held.minimum
                      (law.bit-link_raw held.links row i) least));
          }

      made :
          (c : Bool)
          → below row x.minimum ≡ c
          → (let marked = record x { links = hooks.update true x.links row } in
              let held = if c then record marked { minimum = some row } else marked in
              IsRanked hooks has bit (
                set_priority
                  (record held { links = hooks.link_raw held.links row i })
                  i
                  (some row)))
      made true e' =
          joined (record x { links = hooks.update true x.links row; minimum = some row }) refl
            (law.has-update true x.links row) (law.bit-update true x.links row)
            (subst
              (λ c.
                IsLeast (bit (hooks.update true x.links row)) (if c then some row else x.minimum))
              e'
              (set-IsLeast (bit x.links) (bit (hooks.update true x.links row)) row x.minimum
                (law.bit-update true x.links row) ranked.least))
      made false e' =
          joined (record x { links = hooks.update true x.links row }) refl
            (law.has-update true x.links row) (law.bit-update true x.links row)
            (subst
              (λ c.
                IsLeast (bit (hooks.update true x.links row)) (if c then some row else x.minimum))
              e'
              (set-IsLeast (bit x.links) (bit (hooks.update true x.links row)) row x.minimum
                (law.bit-update true x.links row) ranked.least))

      on :
          (b : Bool)
          → hooks.is_empty x.links row ≡ b
          → (let held = if b then occupy hooks x row else x in
              IsRanked hooks has bit (
                set_priority
                  (record held { links = hooks.link_raw held.links row i })
                  i
                  (some row)))
      on true h = made (below row x.minimum) refl
      on false h = joined x refl (λ q j. refl) (λ q. grind (arith, ranked.marked q, h)) ranked.least
