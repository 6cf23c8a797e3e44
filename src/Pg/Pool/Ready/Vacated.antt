-- ===== src/Pg/Pool/Ready/Vacated.antt =====
-- What an entry that leaves its row does to the lists, the bitmap and the minimum.
use mathlib.Core.Path.{subst}
use cartel.Base.{
  ℕ, Bool, Option, Bool-cases, ◌≡◌, ◌==◌, ◌&&◌, not, arith, if◌then◌else◌, sym, ap, ◌∙◌, some, refl,
  none, true, false, set, inl, inr, ◌+◌,
}
use cartel.Pg.Pool.Ready.{Index, Links, Resident, entry, set_priority, is_row, detach, vacate}
use cartel.Pg.Pool.Ready.Stored.{priority_of, priority_in}
use cartel.Pg.Pool.Ready.Least.{
  IsLeast, IsLinks, IsRanked, occupied, same_empty, same-IsLeast, cleared-IsLeast,
}
use cartel.Pg.Pool.Ready.Ranked.{priority-set_priority}

-- an entry at a row that it leaves
left_lem :
    (o : Option ℕ) (q row j i : ℕ)
    → (j ≡ i → o ≡ some row)
    → (is_row o q && not (q == row && j == i)) ≡ is_row (if j == i then none else o) q
left_lem none q row j i on = ground arith
left_lem (some m) q row j i on = elim (Bool-cases (j == i)) [
  | inl same ↦
      let e : some m ≡ some row = on (ground (arith, same)) in
      let at : m ≡ row = cc in ground (arith, same, at)
  | inr other ↦ ground (arith, other)
]

module _ {K T F L : Type 0} (hooks : Links L) (has : L → (row index : ℕ) → Bool)
    (bit : L → (row : ℕ) → Bool) (law : IsLinks hooks has bit) where
  -- an entry that leaves its row
  pub detach-IsRanked :
      (x : Index K T F L) (i row : ℕ) {r : Resident K T F}
      → entry x i ≡ some r
      → r.priority ≡ some row
      → IsRanked hooks has bit x
      → IsRanked hooks has bit (detach hooks x i row)
  unfolding detach
  detach-IsRanked x i row {r = r} e on_row ranked = on (hooks.is_empty left.links row) refl
    where
      l : L
      l = hooks.unlink_raw x.links row i

      left : Index K T F L
      left = set_priority (record x { links = l }) i none

      same_links : left.links ≡ l
      same_links = rw (set_priority, e) refl

      same_least : left.minimum ≡ x.minimum
      same_least = rw (set_priority, e) refl

      holds : (q j : ℕ) → has left.links q j ≡ (has x.links q j && not (q == row && j == i))
      holds q j = ap (λ v. has v q j) same_links ∙ law.has-unlink_raw x.links row i q j

      bits : (q : ℕ) → bit left.links q ≡ bit x.links q
      bits q = ap (λ v. bit v q) same_links ∙ law.bit-unlink_raw x.links row i q

      places : (q j : ℕ) → has left.links q j ≡ is_row (priority_of left j) q
      places q j =
          holds q j
          ∙ ap (λ v. v && not (q == row && j == i)) (ranked.placed q j)
          ∙ left_lem (priority_of x j) q row j i
              (λ same. ap (priority_of x) same ∙ ap priority_in e ∙ on_row)
          ∙ sym (ap (λ o. is_row o q) (priority-set_priority (record x { links = l }) i none e j))

      elsewhere :
          (q : ℕ) → (q == row) ≡ false → hooks.is_empty left.links q ≡ hooks.is_empty x.links q
      elsewhere q away =
          same_empty hooks has bit law x.links left.links q (λ j. ground (arith, holds q j, away))

      before : hooks.is_empty x.links row ≡ false
      before =
          let there : priority_of x i ≡ some row = ap priority_in e ∙ on_row in
          occupied hooks has bit law x.links row i
            (ranked.placed row i ∙ ap (λ o. is_row o row) there ∙ ground arith)

      least_left : IsLeast (bit left.links) left.minimum
      least_left =
          subst (λ m. IsLeast (bit left.links) m) (sym same_least)
            (same-IsLeast (bit x.links) (bit left.links) x.minimum bits ranked.least)

      cleared : L
      cleared = hooks.update false left.links row

      marks :
          hooks.is_empty left.links row ≡ true
          → (q : ℕ) → bit cleared q ≡ not (hooks.is_empty cleared q)
      marks gone q =
          let same =
            same_empty hooks has bit law left.links cleared q
              (law.has-update false left.links row q) in
          law.bit-update false left.links row q ∙ elim (Bool-cases (q == row)) [
            | inl at ↦
                let here : q ≡ row = ground (arith, at) in
                rw (at, same, ap (λ k. hooks.is_empty left.links k) here ∙ gone) refl
            | inr away ↦ rw (away, same, elsewhere q away) (bits q ∙ ranked.marked q)
          ]

      least :
          (c : Bool)
          → is_row left.minimum row ≡ c
          → IsLeast (bit cleared) (if c then hooks.find cleared (row + 1) else left.minimum)
      least c at =
          subst
            (λ c. IsLeast (bit cleared) (if c then hooks.find cleared (row + 1) else left.minimum))
            at
            (cleared-IsLeast (bit left.links) (bit cleared) row left.minimum
              (hooks.find cleared (row + 1)) (law.bit-update false left.links row)
              (law.not_found cleared (row + 1))
              (λ n e. let (set, from, between) = law.found cleared (row + 1) e in (set, between))
              least_left)

      vacated :
          (c : Bool)
          → is_row left.minimum row ≡ c
          → hooks.is_empty left.links row ≡ true
          → IsRanked hooks has bit (
              if c
              then record left { links = cleared; minimum = hooks.find cleared (row + 1) }
              else record left { links = cleared })
      vacated true at gone = record {
        placed = λ q j. law.has-update false left.links row q j ∙ places q j;
        marked = marks gone;
        least = least true at;
      }
      vacated false at gone = record {
        placed = λ q j. law.has-update false left.links row q j ∙ places q j;
        marked = marks gone;
        least = least false at;
      }

      on :
          (b : Bool)
          → hooks.is_empty left.links row ≡ b
          → IsRanked hooks has bit (if b then vacate hooks left row else left)
      on true gone = vacated (is_row left.minimum row) refl gone
      on false stays = record {
        placed = places;
        marked = λ q. elim (Bool-cases (q == row)) [
          | inl at ↦ ground (arith, bits q, ranked.marked q, at, stays, before)
          | inr away ↦ bits q ∙ ranked.marked q ∙ sym (ap not (elsewhere q away))
        ];
        least = least_left;
      }
