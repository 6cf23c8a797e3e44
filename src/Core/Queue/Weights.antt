-- ===== src/Core/Queue/Weights.antt =====
-- The weight of a lane against the weights of its entries, over each operation and a whole publication.
use cartel.Base.{
  ℕ, refl, none, some, ok, err, [], arith, inl, inr, List, ◌≡◌, ◌∷◌, ◌++◌, length, ◌+◌, ◌≤◌,
  u64_max, u64_size, Result, ◌-◌, Bool-cases, ◌%◌, leb, sym, ◌∙◌, Option, ap, leb→le,
}
use cartel.Core.Queue.{
  Entry, Fair, Rejection, pop_front, release, try_reserve, usize_weight, popped, detached,
  prepared_with, try_with, publish,
}

-- what the queue relies on of a lane whose entries are `entries`
pub record IsFair {G T W C : Type 0} (fair : Fair G T W C) (entries : G → List (Entry T W))
    : Type 0 where
  pub state-set_state : (g : G) (w : W) → fair.state (fair.set_state g w) ≡ w
  pub entries-set_state : (g : G) (w : W) → entries (fair.set_state g w) ≡ entries g
  pub len : (g : G) → fair.len g ≡ length (entries g)
  pub reserved :
      (g : G) {g' : G}
      → fair.reserve g ≡ ok g'
      → (entries g' ≡ entries g) × (fair.state g' ≡ fair.state g)
  pub fronted :
      (g : G) {e : Entry T W} {g' : G}
      → fair.take_front g ≡ some (e, g')
      → (entries g ≡ e ∷ entries g') × (fair.state g' ≡ fair.state g)
  pub fronted_none : (g : G) → fair.take_front g ≡ none → entries g ≡ []
  pub entries-push_back :
      (g : G) (e : Entry T W) → entries (fair.push_back g e) ≡ entries g ++ e ∷ []
  pub entries-push_front : (g : G) (e : Entry T W) → entries (fair.push_front g e) ≡ e ∷ entries g
  pub state-push_back : (g : G) (e : Entry T W) → fair.state (fair.push_back g e) ≡ fair.state g
  pub state-push_front : (g : G) (e : Entry T W) → fair.state (fair.push_front g e) ≡ fair.state g
  pub entries-drop_permit : (g : G) → entries (fair.drop_permit g) ≡ entries g
  pub state-drop_permit : (g : G) → fair.state (fair.drop_permit g) ≡ fair.state g

-- the weights of entries together
unfoldable pub weight_sum : {T : Type 0} → List (Entry T ℕ) → ℕ
weight_sum [] = 0
weight_sum (e ∷ es) = e.weight + weight_sum es

weight_sum-append :
    {T : Type 0} (xs ys : List (Entry T ℕ)) → weight_sum (xs ++ ys) ≡ weight_sum xs + weight_sum ys
unfolding weight_sum
weight_sum-append [] ys = omega arith
weight_sum-append (x ∷ xs) ys = omega (arith, weight_sum-append xs ys)

module _ {G T C : Type 0} (fair : Fair G T ℕ C) (overflow : (axis held requested : ℕ) → C)
    (entries : G → List (Entry T ℕ)) (law : IsFair fair entries) where
  -- The weight of the lane is that of its entries, and a usize.
  pub record IsBalanced (g : G) : Type 0 where
    pub sum : fair.state g ≡ weight_sum (entries g)
    pub fits : fair.state g ≤ u64_max

  -- a lane with the same entries and weight
  abbrev pub Same : G → G → Type 0
  Same g g' = (entries g' ≡ entries g) × (fair.state g' ≡ fair.state g)

  pub reserved-Same :
      (g : G) (w : ℕ) {g' : G}
      → try_reserve fair (usize_weight overflow) g w ≡ ok g'
      → (entries g' ≡ entries g) × (fair.state g' ≡ fair.state g + w) × (fair.state g + w ≤ u64_max)
  unfolding try_reserve
  reserved-Same g w {g' = g'} e = elim (Bool-cases (leb (fair.state g + w) u64_max)) [
    | inl fits ↦
        on (fair.reserve g) refl (leb→le (fair.state g + w) u64_max fits)
          (rw (fits, try_reserve) at e)
    | inr above ↦ let e' = rw (above, try_reserve) at e in absurd (cc)
  ]
    where
      on :
          (r : Result C G)
          → fair.reserve g ≡ r
          → fair.state g + w ≤ u64_max
          → elim r [
            | err cause ↦ err (Rejection.capacity cause)
            | ok g1 ↦ ok (fair.set_state g1 (fair.state g + w))
          ]
            ≡ ok g'
          → (entries g' ≡ entries g)
            × (fair.state g' ≡ fair.state g + w)
            × (fair.state g + w ≤ u64_max)
      on (err cause) same fits h = absurd (cc)
      on (ok g1) same fits h =
          let (kept, weighs) = law.reserved g same in
          let here : fair.set_state g1 (fair.state g + w) ≡ g' = cc in
          (
            sym (ap entries here) ∙ law.entries-set_state g1 (fair.state g + w) ∙ kept,
            sym (ap fair.state here) ∙ law.state-set_state g1 (fair.state g + w),
            fits,
          )

  pub entries-release :
      (g : G) (w : ℕ) → entries (release fair (usize_weight overflow) g w) ≡ entries g
  entries-release g w = law.entries-drop_permit _ ∙ law.entries-set_state g _

  pub state-release :
      (g : G) (w : ℕ)
      → fair.state (release fair (usize_weight overflow) g w)
        ≡ (fair.state g + u64_size - w) % u64_size
  state-release g w = law.state-drop_permit _ ∙ law.state-set_state g _

  -- From a lane in balance: the entry that is popped was the first, and the lane that is left is in balance.
  pub pop_front-IsBalanced :
      (g : G) {value : T} {g' : G}
      → IsBalanced g
      → pop_front fair (usize_weight overflow) g ≡ some (value, g')
      → IsBalanced g' × ((w : ℕ) × (entries g ≡ record { value = value; weight = w } ∷ entries g'))
  unfolding pop_front weight_sum
  pop_front-IsBalanced g {value = value} {g' = g'} balanced e = on (fair.take_front g) refl e
    where
      on :
          (o : Option (Entry T ℕ × G))
          → fair.take_front g ≡ o
          → popped fair (usize_weight overflow) (detached fair (usize_weight overflow) o)
            ≡ some (value, g')
          → IsBalanced g'
            × ((w : ℕ) × (entries g ≡ record { value = value; weight = w } ∷ entries g'))
      on none same h = absurd (cc)
      on (some (entry, g1)) same h =
          let (first, weighs) = law.fronted g same in
          let here : release fair (usize_weight overflow) g1 entry.weight ≡ g' = cc in
          let named : entry.value ≡ value = cc in
          let left = sym (ap entries here) ∙ entries-release g1 entry.weight in
          let state = sym (ap fair.state here) ∙ state-release g1 entry.weight in
          let before = balanced.sum ∙ ap weight_sum first in
          let after = ap weight_sum left in
          (
            record {
              sum = omega (arith, before, after, state, weighs, balanced.fits);
              fits = omega (arith, before, state, weighs, balanced.fits);
            },
            (
              entry.weight,
              first
                  ∙ ap (λ v. record { value = v; weight = entry.weight } ∷ entries g1) named
                  ∙ ap (λ es. record { value = value; weight = entry.weight } ∷ es) (sym left),
            ),
          )

  -- an entry that is published on a reserved lane
  pub publish-Leaves :
      (g g2 : G) (charge : ℕ) (item : T)
      → IsBalanced g
      → entries g2 ≡ entries g
      → fair.state g2 ≡ fair.state g + charge
      → fair.state g + charge ≤ u64_max
      → IsBalanced (publish fair (usize_weight overflow) g2 charge item)
        × (entries (publish fair (usize_weight overflow) g2 charge item)
            ≡ entries g ++ record { value = item; weight = charge } ∷ [])
  unfolding weight_sum
  publish-Leaves g g2 charge item balanced kept weighs fits =
      let entry : Entry T ℕ = record { value = item; weight = charge } in
      let left = law.entries-push_back g2 entry ∙ ap (λ es. es ++ entry ∷ []) kept in
      let after = law.state-push_back g2 entry in
      let total = ap weight_sum left ∙ weight_sum-append (entries g) (entry ∷ []) in
      let one : weight_sum (entry ∷ []) ≡ charge = omega arith in
      (
        record {
          sum = omega (arith, balanced.sum, after, weighs, total, one);
          fits = omega (arith, after, weighs, fits);
        },
        left,
      )

  -- a reservation that is given back
  pub release-Leaves :
      (g g2 : G) (charge : ℕ)
      → IsBalanced g
      → entries g2 ≡ entries g
      → fair.state g2 ≡ fair.state g + charge
      → fair.state g + charge ≤ u64_max
      → IsBalanced (release fair (usize_weight overflow) g2 charge)
        × Same g (release fair (usize_weight overflow) g2 charge)
  release-Leaves g g2 charge balanced kept weighs fits =
      let after = state-release g2 charge in
      let left = entries-release g2 charge ∙ kept in
      let total = ap weight_sum left in
      (
        record {
          sum = omega (arith, balanced.sum, after, weighs, total, fits);
          fits = omega (arith, after, weighs, fits);
        },
        (left, omega (arith, after, weighs, fits)),
      )

  -- what a publication leaves: one more entry, or the lane as it was
  abbrev pub Leaves : {X R : Type 0} → G → (charge : ℕ) → Result X R × G → Type 0
  Leaves g charge (ok output, g') =
      IsBalanced g'
      × ((item : T) × (entries g' ≡ entries g ++ record { value = item; weight = charge } ∷ []))
  Leaves g charge (err error, g') = IsBalanced g' × Same g g'

  -- a preparation that leaves the lane alone
  abbrev pub IsAside : {X P I : Type 0} → (G → I → Result X P × G) → Type 0
  IsAside prepare = (g : G) (input : _) → Same g (prepare g input).1

  module _ {I J P R E : Type 0} (from : Rejection C → E)
      (prepare : G → I → Result (E × I) (P × J) × G) (build : J → P → T × R)
      (aside : IsAside prepare) where
    -- the part behind the reservation
    prepared-Leaves :
        (g g1 : G) (charge : ℕ) (input : I)
        → IsBalanced g
        → (entries g1 ≡ entries g)
          × (fair.state g1 ≡ fair.state g + charge)
          × (fair.state g + charge ≤ u64_max)
        → Leaves g charge
            (prepared_with fair (usize_weight overflow) build charge (prepare g1 input))
    prepared-Leaves g g1 charge input balanced (kept, weighs, fits) =
        on (prepare g1 input) (aside g1 input)
      where
        on :
            (r : Result (E × I) (P × J) × G)
            → Same g1 r.1
            → Leaves g charge (prepared_with fair (usize_weight overflow) build charge r)
        on (err error, g2) (same, state) =
            release-Leaves g g2 charge balanced (same ∙ kept) (state ∙ weighs) fits
        on (ok (proof, input'), g2) (same, state) =
            let item = (build input' proof).0 in
            let (left, after) =
              publish-Leaves g g2 charge item balanced (same ∙ kept) (state ∙ weighs) fits in
            (left, (item, after))

    -- From a lane in balance, with a preparation that leaves the lane alone: a publication that succeeds puts
    -- one entry with the weight at the back, and any other leaves the entries and the weight as they were.
    -- The lane stays in balance.
    pub try_with-Leaves :
        (g : G) (charge : ℕ) (input : I)
        → IsBalanced g
        → Leaves g charge (try_with fair (usize_weight overflow) from prepare build g charge input)
    unfolding try_with
    try_with-Leaves g charge input balanced =
        on (try_reserve fair (usize_weight overflow) g charge) (λ g1 e. reserved-Same g charge e)
      where
        on :
            (r : Result (Rejection C) G)
            → ((g1 : G)
                → r ≡ ok g1
                → (entries g1 ≡ entries g)
                  × (fair.state g1 ≡ fair.state g + charge)
                  × (fair.state g + charge ≤ u64_max))
            → Leaves {X = E × I} {R = R} g charge (elim r [
              | err cause ↦ (err (from cause, input), g)
              | ok reserved ↦
                  prepared_with fair (usize_weight overflow) build charge (prepare reserved input)
            ])
        on (err cause) reserved = (balanced, (refl, refl))
        on (ok g1) reserved = prepared-Leaves g g1 charge input balanced (reserved g1 refl)
