-- ===== src/Core/Queue/Sends.antt =====
-- Draining a lane into the final link.
use cartel.Base.{
  ℕ, zero, suc, refl, none, some, ok, err, [], arith, List, ◌≡◌, Option, Result, length, ◌∷◌, ◌++◌,
  ◌<◌, ◌∙◌, sym, ap,
}
use cartel.Core.Queue.{Admission, Entry, Fair, Requests, drain, release, restore, usize_weight}
use cartel.Core.Queue.Weights.{IsBalanced, IsFair, weight_sum, entries-release, state-release}

-- what the drain relies on: a claim takes the first entry, an answer leaves the lane alone and gives the
-- value back, and the link calls the closure once
pub record IsLink {G T C X : Type 0} (fair : Fair G T ℕ C) (entries : G → List (Entry T ℕ))
    (requests : Requests G T ℕ X) : Type 0 where
  pub claimed :
      (g : G) {e : Entry T ℕ} {g' : G}
      → requests.claim g ≡ some (e, g')
      → (entries g ≡ e ∷ entries g') × (fair.state g' ≡ fair.state g)
  pub entries-admit : (g : G) (v : T) → entries (requests.admit g v).1 ≡ entries g
  pub state-admit : (g : G) (v : T) → fair.state (requests.admit g v).1 ≡ fair.state g
  pub saturated :
      (g : G) (v : T) {back : T} → (requests.admit g v).0 ≡ Admission.saturated back → back ≡ v
  pub rejected :
      (g : G) (v : T) {back : T} {cause : X}
      → (requests.admit g v).0 ≡ Admission.rejected back cause
      → back ≡ v
  pub entries-push_with : (g : G) (f : G → G) → entries (requests.push_with g f) ≡ entries (f g)
  pub state-push_with : (g : G) (f : G → G) → fair.state (requests.push_with g f) ≡ fair.state (f g)

module _ {G T C X : Type 0} (fair : Fair G T ℕ C) (overflow : (axis held requested : ℕ) → C)
    (entries : G → List (Entry T ℕ)) (law : IsFair fair entries) (requests : Requests G T ℕ X)
    (link : IsLink fair entries requests) where
  -- The entries that the link claims one after the other and is ready for, each released as it is pushed,
  -- with the region behind them.
  pub Sends : G → List (Entry T ℕ) → G → Type 0
  Sends g [] h = g ≡ h
  Sends g (e ∷ sent) h =
      (g1 : G) × (g2 : G) × (requests.claim g ≡ some (e, g1))
      × (requests.admit g1 e.value ≡ (Admission.ready, g2))
      × Sends (requests.push_with g2 (λ k. release fair (usize_weight overflow) k e.weight)) sent h

  -- Why a drain stops at a region, with its result and the lane that is left: nothing is claimed, or the
  -- entry that is claimed is not taken and stands at the front.
  pub data Stops (h : G) : Result X (Unit {0}) → G → Type 0 where
    empty : requests.claim h ≡ none → Stops h (ok tt) h
    saturated :
        {e : Entry T ℕ} {h1 h2 : G} {value : T} (g' : G)
        → requests.claim h ≡ some (e, h1)
        → requests.admit h1 e.value ≡ (Admission.saturated value, h2)
        → entries g' ≡ e ∷ entries h1
        → Stops h (ok tt) g'
    rejected :
        {e : Entry T ℕ} {h1 h2 : G} {value : T} {cause : X} (g' : G)
        → requests.claim h ≡ some (e, h1)
        → requests.admit h1 e.value ≡ (Admission.rejected value cause, h2)
        → entries g' ≡ e ∷ entries h1
        → Stops h (err cause) g'

  -- The drain came to an end, sent the entries at the front and stopped behind them.
  abbrev pub Drained : G → Option (Result X (Unit {0})) × G → Type 0
  Drained g (none, g') = ⊥
  Drained g (some result, g') =
      IsBalanced fair overflow entries law g'
      × ((sent : List (Entry T ℕ)) × (h : G) × (entries g ≡ sent ++ entries g')
          × Sends g sent h
          × Stops h result g')

  -- an entry that goes back to the front
  restore-Drained :
      (g g1 : G) (e : Entry T ℕ) (value : T) (result : Result X (Unit {0}))
      → IsBalanced fair overflow entries law g
      → entries g ≡ e ∷ entries g1
      → fair.state g1 ≡ fair.state g
      → value ≡ e.value
      → (entries (restore fair (usize_weight overflow) g1 e.weight value) ≡ e ∷ entries g1
          → Stops g result (restore fair (usize_weight overflow) g1 e.weight value))
      → Drained g (some result, restore fair (usize_weight overflow) g1 e.weight value)
  unfolding weight_sum Sends
  restore-Drained g g1 e value result balanced first state same stop =
      let back : Entry T ℕ = record { value = value; weight = e.weight } in
      let front =
        law.entries-push_front g1 back
        ∙ ap (λ v. record { value = v; weight = e.weight } ∷ entries g1) same in
      let left = front ∙ sym first in
      let after = law.state-push_front g1 back in
      let total = ap weight_sum left in
      (
        record {
          sum = omega (arith, balanced.sum, after, state, total);
          fits = omega (arith, balanced.fits, after, state);
        },
        ([], g, sym left, refl, stop front),
      )

  -- an entry that was sent
  sent-IsBalanced :
      (g g1 : G) (e : Entry T ℕ)
      → IsBalanced fair overflow entries law g
      → entries g ≡ e ∷ entries g1
      → fair.state g1 ≡ fair.state g
      → IsBalanced fair overflow entries law
          (requests.push_with g1 (λ h. release fair (usize_weight overflow) h e.weight))
        × (entries (requests.push_with g1 (λ h. release fair (usize_weight overflow) h e.weight))
            ≡ entries g1)
  unfolding weight_sum
  sent-IsBalanced g g1 e balanced first state =
      let f : G → G = λ h. release fair (usize_weight overflow) h e.weight in
      let left =
        link.entries-push_with g1 f ∙ entries-release fair overflow entries law g1 e.weight in
      let after = link.state-push_with g1 f ∙ state-release fair overflow entries law g1 e.weight in
      let before = balanced.sum ∙ ap weight_sum first in
      let total = ap weight_sum left in
      (
        record {
          sum = omega (arith, before, after, state, total, balanced.fits);
          fits = omega (arith, before, after, state, balanced.fits);
        },
        left,
      )

  -- an answer leaves the lane alone
  aside :
      (g1 : G) (v : T) {answer : Admission T X} {g2 : G}
      → requests.admit g1 v ≡ (answer, g2)
      → (entries g2 ≡ entries g1) × (fair.state g2 ≡ fair.state g1)
  aside g1 v same = (
    sym (ap (λ r. entries (r.1)) same) ∙ link.entries-admit g1 v,
    sym (ap (λ r. fair.state (r.1)) same) ∙ link.state-admit g1 v,
  )

  -- what was drained behind an entry that was sent
  Drained-cons :
      (g g1 g2 : G) (e : Entry T ℕ)
      → requests.claim g ≡ some (e, g1)
      → requests.admit g1 e.value ≡ (Admission.ready, g2)
      → entries g
        ≡ e ∷ entries (requests.push_with g2 (λ k. release fair (usize_weight overflow) k e.weight))
      → (r : Option (Result X (Unit {0})) × G)
      → Drained (requests.push_with g2 (λ k. release fair (usize_weight overflow) k e.weight)) r
      → Drained g r
  unfolding Sends
  Drained-cons g g1 g2 e claimed ready first (none, g') drained = drained
  Drained-cons g g1 g2 e claimed ready first (some result, g')
        (balanced, (sent, h, rest, sends, stops)) =
      (
        balanced,
        (e ∷ sent, h, first ∙ ap (λ es. e ∷ es) rest, (g1, g2, claimed, ready, sends), stops),
      )

  -- From a lane in balance: a drain comes to an end, and leaves the lane in balance and with its entries but
  -- for those at the front that were sent, each of which the link claimed and was ready for, in their order.
  -- It ends well where the link then claims nothing or is saturated, and with the cause of a rejection. An
  -- entry that is claimed then and not taken stands at the front of the lane.
  pub drain-Drained :
      (fuel : ℕ) (g : G)
      → length (entries g) < fuel
      → IsBalanced fair overflow entries law g
      → Drained g (drain fair (usize_weight overflow) requests fuel g)
  unfolding drain Sends
  drain-Drained zero g lt balanced = absurd (omega arith)
  drain-Drained (suc fuel) g lt balanced =
      on (requests.claim g) refl (λ g1 lt1 balanced1. drain-Drained fuel g1 lt1 balanced1)
    where
      answered :
          (g1 : G) (e : Entry T ℕ) (r : Admission T X × G)
          → requests.claim g ≡ some (e, g1)
          → requests.admit g1 e.value ≡ r
          → entries g ≡ e ∷ entries g1
          → fair.state g1 ≡ fair.state g
          → ((h : G)
              → length (entries h) < fuel
              → IsBalanced fair overflow entries law h
              → Drained h (drain fair (usize_weight overflow) requests fuel h))
          → Drained g (elim (r.0) [
            | Admission.ready ↦
                drain fair
                  (usize_weight overflow)
                  requests
                  fuel
                  (requests.push_with r.1 (λ h. release fair (usize_weight overflow) h e.weight))
            | Admission.saturated value ↦
                (some (ok tt), restore fair (usize_weight overflow) r.1 e.weight value)
            | Admission.rejected value cause ↦
                (some (err cause), restore fair (usize_weight overflow) r.1 e.weight value)
          ])
      answered g1 e (Admission.ready, g2) claimed same first state go =
          let (kept, held) = aside g1 e.value same in
          let h = requests.push_with g2 (λ h. release fair (usize_weight overflow) h e.weight) in
          let (balanced2, left) =
            sent-IsBalanced g g2 e balanced (first ∙ ap (λ es. e ∷ es) (sym kept)) (held ∙ state) in
          let first2 = first ∙ ap (λ es. e ∷ es) (sym kept ∙ sym left) in
          Drained-cons g g1 g2 e claimed same first2
            (drain fair (usize_weight overflow) requests fuel h)
            (go h (omega (arith, lt, ap length first2)) balanced2)
      answered g1 e (Admission.saturated value, g2) claimed same first state go =
          let (kept, held) = aside g1 e.value same in
          restore-Drained g g2 e value (ok tt) balanced (first ∙ ap (λ es. e ∷ es) (sym kept))
            (held ∙ state) (link.saturated g1 e.value (ap (λ r. r.0) same))
            (λ front. Stops.saturated _ claimed same (front ∙ ap (λ es. e ∷ es) kept))
      answered g1 e (Admission.rejected value cause, g2) claimed same first state go =
          let (kept, held) = aside g1 e.value same in
          restore-Drained g g2 e value (err cause) balanced (first ∙ ap (λ es. e ∷ es) (sym kept))
            (held ∙ state) (link.rejected g1 e.value (ap (λ r. r.0) same))
            (λ front. Stops.rejected _ claimed same (front ∙ ap (λ es. e ∷ es) kept))

      on :
          (o : Option (Entry T ℕ × G))
          → requests.claim g ≡ o
          → ((h : G)
              → length (entries h) < fuel
              → IsBalanced fair overflow entries law h
              → Drained h (drain fair (usize_weight overflow) requests fuel h))
          → Drained g (elim o [
            | none ↦ (some (ok tt), g)
            | some (entry, g1) ↦
                let (answer, g2) = requests.admit g1 entry.value in
                elim answer [
                  | Admission.ready ↦ drain fair (usize_weight overflow) requests fuel (
                      requests.push_with g2
                        (λ g. release fair (usize_weight overflow) g entry.weight))
                  | Admission.saturated value ↦
                      (some (ok tt), restore fair (usize_weight overflow) g2 entry.weight value)
                  | Admission.rejected value cause ↦
                      (some (err cause), restore fair (usize_weight overflow) g2 entry.weight value)
                ]
          ])
      on none same go = (balanced, ([], g, refl, refl, Stops.empty same))
      on (some (e, g1)) same go =
          let (first, state) = link.claimed g same in
          answered g1 e (requests.admit g1 e.value) same refl first state go
