-- ===== src/Pg/Pool/Ready/Picks.antt =====
-- The connection that the index picks is one of the least rank.
use mathlib.Core.Path.{subst}
use native.Mathlib.Decide.{dec_lt}
use cartel.Base.{
  ℕ, Bool, Option, List, ◌≡◌, ◌≤◌, arith, sym, ap, ◌∙◌, zero, suc, refl, none, some, true, inl, inr,
  not, get_elem?, replicate, Option-cases, false,
}
use cartel.Pg.Pool.{Ids}
use cartel.Pg.Pool.Ready.{Index, Links, index_new, is_row, least, slot_new}
use cartel.Pg.Pool.Ready.Stored.{
  made, wrote, pushed, unpushed, attached, detached, Stored, priority_of, priority_in,
}
use cartel.Pg.Pool.Ready.Least.{
  IsLeast, IsLinks, IsRanked, occupied, same_empty, same-IsLeast, emptied,
}
use cartel.Pg.Pool.Ready.Ranked.{attach-IsRanked}
use cartel.Pg.Pool.Ready.Vacated.{detach-IsRanked}
use cartel.Pg.Pool.Ready.System.{Event, run}
use cartel.Pg.Pool.Ready.Runs.{run-Inv}
use cartel.Pg.Pool.Ready.Reserves.{Succeeds}

-- a listed entry with the least rank of all that are listed, or none if none is listed
abbrev pub IsPick : {K T F L : Type 0} → Index K T F L → Option (ℕ × ℕ) → Type 0
IsPick x none = (j : ℕ) → priority_of x j ≡ none
IsPick x (some (index, row)) =
    (priority_of x index ≡ some row) × ((j q : ℕ) → priority_of x j ≡ some q → row ≤ q)

module _ {K T F L : Type 0} (hooks : Links L) (has : L → (row index : ℕ) → Bool)
    (bit : L → (row : ℕ) → Bool) (law : IsLinks hooks has bit) where
  -- other links that hold the same, with the same rows
  relinked-IsRanked :
      (x : Index K T F L) (l : L)
      → ((q j : ℕ) → has l q j ≡ has x.links q j)
      → ((q : ℕ) → bit l q ≡ bit x.links q)
      → IsRanked hooks has bit x
      → IsRanked hooks has bit (record x { links = l })
  relinked-IsRanked x l holds bits ranked = record {
    placed = λ q j. holds q j ∙ ranked.placed q j;
    marked = λ q.
        bits q
        ∙ ranked.marked q
        ∙ sym (ap not (same_empty hooks has bit law x.links l q (holds q)));
    least = same-IsLeast (bit x.links) (bit l) x.minimum bits ranked.least;
  }

  -- the index that another is, but for slots and counters
  same-IsRanked :
      (x y : Index K T F L)
      → y.links ≡ x.links
      → y.minimum ≡ x.minimum
      → ((i : ℕ) → priority_of y i ≡ priority_of x i)
      → IsRanked hooks has bit x
      → IsRanked hooks has bit y
  same-IsRanked x y links minimum same ranked = record {
    placed =
        λ q j. ap (λ v. has v q j) links ∙ ranked.placed q j ∙ ap (λ o. is_row o q) (sym (same j));
    marked = λ q.
        ap (λ v. bit v q) links ∙ ranked.marked q ∙ sym (ap (λ v. not (hooks.is_empty v q)) links);
    least =
        subst (λ v. IsLeast (bit v) y.minimum) (sym links)
          (subst (λ m. IsLeast (bit x.links) m) (sym minimum) ranked.least);
  }

  index_new-IsRanked :
      (capacity buckets : ℕ)
      → IsRanked hooks has bit (index_new {K = K} {T = T} {F = F} hooks capacity buckets)
  index_new-IsRanked capacity buckets = record {
    placed = λ q j.
        law.has-vacant capacity buckets q j ∙ ap (λ o. is_row o q) (sym (unlisted capacity j));
    marked = λ q.
        law.bit-vacant capacity buckets q
        ∙ sym (
            ap not (
              emptied hooks has bit law (hooks.vacant capacity buckets) q
                (law.has-vacant capacity buckets q)));
    least = law.bit-vacant capacity buckets;
  }
    where
      unlisted :
          (n j : ℕ)
          → priority_in (
              get_elem?
                (replicate n (record { slot = slot_new {K = K} {T = T} {F = F}; priority = none }))
                j)
            ≡ none
      unlisted zero j = refl
      unlisted (suc n) zero = refl
      unlisted (suc n) (suc j) = unlisted n j

  -- the storage that an index comes to is in step
  Stored-IsRanked : (x : Index K T F L) → Stored hooks x → IsRanked hooks has bit x
  Stored-IsRanked x (made capacity buckets) = index_new-IsRanked capacity buckets
  Stored-IsRanked x (wrote y z s links minimum same) =
      same-IsRanked y z links minimum same (Stored-IsRanked y s)
  Stored-IsRanked x (pushed y i s) =
      relinked-IsRanked y (hooks.cycle_push y.links i) (law.has-cycle_push y.links i)
        (law.bit-cycle_push y.links i) (Stored-IsRanked y s)
  Stored-IsRanked x (unpushed y i s) =
      relinked-IsRanked y (hooks.cycle_unlink y.links i) (law.has-cycle_unlink y.links i)
        (law.bit-cycle_unlink y.links i) (Stored-IsRanked y s)
  Stored-IsRanked x (attached y i row s e off) =
      attach-IsRanked hooks has bit law y i row e off (Stored-IsRanked y s)
  Stored-IsRanked x (detached y i row s e on) =
      detach-IsRanked hooks has bit law y i row e on (Stored-IsRanked y s)

  least-IsPick : (x : Index K T F L) → IsRanked hooks has bit x → IsPick x (least hooks x)
  unfolding least
  least-IsPick x ranked = on x.minimum ranked.least
    where
      in_row : (o : Option ℕ) (q : ℕ) → is_row o q ≡ true → o ≡ some q
      in_row none q h = absurd (cc)
      in_row (some c) q h = let same : c ≡ q = ground (arith, h) in ap some same

      listed : (j q : ℕ) → priority_of x j ≡ some q → bit x.links q ≡ true
      listed j q h =
          let there = ranked.placed q j ∙ ap (λ o. is_row o q) h ∙ ground arith in
          ranked.marked q ∙ ap not (occupied hooks has bit law x.links q j there)

      filled : (b : Bool) → not b ≡ true → b ≡ false
      filled true h = absurd (cc)
      filled false h = refl

      on :
          (m : Option ℕ)
          → IsLeast (bit x.links) m
          → IsPick x (elim m [ none ↦ none | some row ↦ some (hooks.front x.links row, row) ])
      on none none_set = λ j. elim (Option-cases (priority_of x j)) [
        | inl e ↦ e
        | inr (q, e) ↦ absurd (cc (listed j q e, none_set q))
      ]
      on (some row) (set, under) = (
        in_row _ row (
            sym (ranked.placed row (hooks.front x.links row))
            ∙ law.front x.links row
                (filled (hooks.is_empty x.links row) (sym (ranked.marked row) ∙ set))),
        λ j q h. elim (dec_lt q row) [
          | yes lt ↦ absurd (cc (listed j q h, under q lt))
          | no le ↦ omega arith
        ],
      )

  -- Whatever happens to an index of connections from its start on: the connection with the least load is a
  -- listed one, and no listed one has a lower rank; if there is none, then none is listed.
  pub run-IsPick :
      (ids : Ids K) (es : List (Event K T F)) (capacity buckets : ℕ) {x : Index K T F L}
      → run hooks ids es (index_new hooks capacity buckets) ≡ some x
      → IsPick x (least hooks x)
  run-IsPick ids es capacity buckets {x = x} e =
      let inv = subst (λ o. Succeeds hooks o) e (run-Inv hooks ids es capacity buckets) in
      least-IsPick x (Stored-IsRanked x inv.stored)
