-- ===== src/Core/Queue/Drains.antt =====
-- Emptying a lane, as far as the work admitted goes.
use cartel.Base.{
  ℕ, zero, suc, refl, none, some, true, false, [], arith, if◌then◌else◌, inl, inr, List, map, ◌≡◌,
  length, Bool-cases, Bool, ◌≢◌, ◌++◌, Option, ◌==◌, ◌<◌, ◌∷◌, ap, ◌∙◌,
}
use cartel.Core.Queue.{
  Drain, Entry, Fair, clear, is_empty, pop_front, usize_weight, detached, popped,
}
use cartel.Core.Queue.Weights.{IsBalanced, IsFair, pop_front-IsBalanced}

-- what entries carry
abbrev pub values : {T : Type 0} → List (Entry T ℕ) → List T
values es = map (λ e. e.value) es

module _ {G T C : Type 0} (fair : Fair G T ℕ C) (overflow : (axis held requested : ℕ) → C)
    (entries : G → List (Entry T ℕ)) (law : IsFair fair entries) where
  -- what an end says of the lane that is left
  abbrev pub EndsAt : G → Drain → Type 0
  EndsAt g Drain.empty = entries g ≡ []
  EndsAt g Drain.exhausted = entries g ≢ []
  EndsAt g Drain.out_of_fuel = ⊥

  -- what the clearing of a lane leaves
  abbrev pub Cleared : G → Drain × List T × G → Type 0
  Cleared g (end, items, g') =
      EndsAt g' end
      × (values (entries g) ≡ items ++ values (entries g'))
      × IsBalanced fair overflow entries law g'

  empty_of_pop : (g : G) → pop_front fair (usize_weight overflow) g ≡ none → entries g ≡ []
  unfolding pop_front
  empty_of_pop g e = on (fair.take_front g) refl e
    where
      on :
          (o : Option (Entry T ℕ × G))
          → fair.take_front g ≡ o
          → popped fair (usize_weight overflow) (detached fair (usize_weight overflow) o) ≡ none
          → entries g ≡ []
      on none same h = law.fronted_none g same
      on (some (entry, g1)) same h = absurd (cc)

  empty_test : (es : List (Entry T ℕ)) → (length es == 0) ≡ true → es ≡ []
  empty_test [] e = refl
  empty_test (x ∷ es) e = absurd (ground (arith, e))

  filled_test : (es : List (Entry T ℕ)) → (length es == 0) ≡ false → es ≢ []
  filled_test [] e p = absurd (ground (arith, e))
  filled_test (x ∷ es) e p = absurd (omega (arith, ap length p))

  stopped :
      (g : G)
      → IsBalanced fair overflow entries law g
      → Cleared g
          (if is_empty fair (usize_weight overflow) g then Drain.empty else Drain.exhausted, [], g)
  stopped g balanced = elim (Bool-cases (length (entries g) == 0)) [
    | inl e ↦ rw (law.len g, e) (empty_test (entries g) e, refl, balanced)
    | inr e ↦ rw (law.len g, e) (filled_test (entries g) e, refl, balanced)
  ]

  -- From a lane in balance, whatever work is admitted: a clearing ends, and says that the lane is empty
  -- exactly if it is. It releases the values at the front, in their order, and leaves the others, in balance.
  pub clear-Cleared :
      {B : Type 0} (admits : B → Bool) (spend : B → B) (fuel : ℕ) (work : B) (g : G)
      → length (entries g) < fuel
      → IsBalanced fair overflow entries law g
      → Cleared g (clear fair (usize_weight overflow) admits spend fuel work g)
  unfolding clear
  clear-Cleared admits spend zero work g lt balanced = absurd (omega arith)
  clear-Cleared admits spend (suc fuel) work g lt balanced = elim (Bool-cases (admits work)) [
    | inr no_more ↦ rw (no_more, clear) (stopped g balanced)
    | inl one_more ↦
        rw (one_more, clear)
          (on (pop_front fair (usize_weight overflow) g) refl
            (λ g1 lt1 balanced1. clear-Cleared admits spend fuel (spend work) g1 lt1 balanced1))
  ]
    where
      on :
          (o : Option (T × G))
          → pop_front fair (usize_weight overflow) g ≡ o
          → ((g1 : G)
              → length (entries g1) < fuel
              → IsBalanced fair overflow entries law g1
              → Cleared g1 (clear fair (usize_weight overflow) admits spend fuel (spend work) g1))
          → Cleared g (elim o [
            | none ↦ (Drain.empty, [], g)
            | some (item, g') ↦
                let (end, items, left) =
                  clear fair (usize_weight overflow) admits spend fuel (spend work) g' in
                (end, item ∷ items, left)
          ])
      on none same go = (empty_of_pop g same, refl, balanced)
      on (some (item, g1)) same go =
          let (balanced1, (w, first)) =
            pop_front-IsBalanced fair overflow entries law g balanced same in
          let (end, released, left) = go g1 (omega (arith, lt, ap length first)) balanced1 in
          (end, ap values first ∙ ap (λ xs. item ∷ xs) released, left)
