-- ===== src/Core/Handoff/Atomic.antt =====
-- What a hand-off publishes and attaches, by its outcome.
use cartel.Base.{
  ◌∙◌, ℕ, refl, ok, err, [], List, Result, ◌≡◌, ◌++◌, ◌+◌, ◌∷◌, ◌≤◌, u64_max, map_err, ◌∙◌,
}
use cartel.Core.Handoff.{Failure, attach_prepare, queue_prepare, try_publish}
use cartel.Core.Queue.{
  Entry, Fair, Rejection, prepared_with, publish, release, try_reserve, try_with, usize_weight,
}
use cartel.Core.Queue.Weights.{
  IsBalanced, IsFair, Same, publish-Leaves, release-Leaves, reserved-Same,
}

module _ {G T C A K I R : Type 0} (fair : Fair G T ℕ C) (overflow : (axis held requested : ℕ) → C)
    (entries : G → List (Entry T ℕ)) (law : IsFair fair entries)
    (try_tagged : G → K → Result A (Unit {0}) × G) (build : I → T × R)
    (aside : (g : G) (tag : K) → Same fair overflow entries law g (try_tagged g tag).1) where
  -- a lane that reserves, and what the attachment of the reply then gives
  abbrev pub Attaches : G → (charge : ℕ) → (tag : K) → Result A (Unit {0}) → G → Type 0
  Attaches g charge tag attached g2 =
      (g1 : G) × (try_reserve fair (usize_weight overflow) g charge ≡ ok g1)
      × (try_tagged g1 tag ≡ (attached, g2))

  -- what a hand-off leaves, by its outcome
  abbrev pub Handed : G → (charge : ℕ) → (tag : K) → I → Result (Failure A C × I) R × G → Type 0
  Handed g charge tag input (ok output, g') =
      (g2 : G) × Attaches g charge tag (ok tt) g2
      × (g' ≡ publish fair (usize_weight overflow) g2 charge (build input).0)
      × IsBalanced fair overflow entries law g'
      × (entries g' ≡ entries g ++ record { value = (build input).0; weight = charge } ∷ [])
      × (output ≡ (build input).1)
  Handed g charge tag input (err (Failure.queue cause, back), g') =
      (try_reserve fair (usize_weight overflow) g charge ≡ err cause) × (back ≡ input) × (g' ≡ g)
  Handed g charge tag input (err (Failure.reply cause, back), g') =
      (g2 : G) × Attaches g charge tag (err cause) g2
      × (g' ≡ release fair (usize_weight overflow) g2 charge)
      × (back ≡ input)
      × IsBalanced fair overflow entries law g'
      × Same fair overflow entries law g g'

  -- From a lane in balance, with an attachment of replies that leaves the lane of requests alone: a hand-off
  -- that succeeds has reserved, attached the reply under the tag and then published the request that was
  -- built, which stands with its weight at the back. One that the queue refuses attaches nothing and changes
  -- nothing. One whose reply is refused, with the cause of the refusal, releases what was reserved and leaves
  -- the entries and the weight as they were. Both give the input back. The lane stays in balance.
  pub try_publish-Handed :
      (g : G) (charge : ℕ) (tag : K) (input : I)
      → IsBalanced fair overflow entries law g
      → Handed g charge tag input
          (try_publish fair (usize_weight overflow) try_tagged build g charge tag input)
  unfolding try_with
  try_publish-Handed g charge tag input balanced =
      on (try_reserve fair (usize_weight overflow) g charge)
        (λ g1 e. reserved-Same fair overflow entries law g charge e) refl
    where
      attached :
          (g1 : G) (r : Result A (Unit {0}) × G)
          → try_reserve fair (usize_weight overflow) g charge ≡ ok g1
          → try_tagged g1 tag ≡ r
          → (entries r.1 ≡ entries g)
          → (fair.state r.1 ≡ fair.state g + charge)
          → (fair.state g + charge ≤ u64_max)
          → Handed g charge tag input (
              prepared_with fair
                (usize_weight overflow)
                (λ input proof. build input)
                charge
                (
                  map_err
                      (λ (cause, input). (Failure.reply cause, input))
                      (elim (r.0) [ ok done ↦ ok (tt, input) | err cause ↦ err (cause, input) ]),
                  r.1,
                ))
      attached g1 (ok done, g2) reserved same_reply kept weighs fits =
          let (left, after) =
            publish-Leaves fair overflow entries law g g2 charge (build input).0 balanced kept
              weighs fits in
          (g2, (g1, reserved, same_reply), refl, left, after, refl)
      attached g1 (err cause, g2) reserved same_reply kept weighs fits =
          let (left, same) =
            release-Leaves fair overflow entries law g g2 charge balanced kept weighs fits in
          (g2, (g1, reserved, same_reply), refl, refl, left, same)

      on :
          (r : Result (Rejection C) G)
          → ((g1 : G)
              → r ≡ ok g1
              → (entries g1 ≡ entries g)
                × (fair.state g1 ≡ fair.state g + charge)
                × (fair.state g + charge ≤ u64_max))
          → try_reserve fair (usize_weight overflow) g charge ≡ r
          → Handed g charge tag input (elim r [
            | err cause ↦ (err (Failure.queue cause, input), g)
            | ok reserved ↦
                prepared_with fair
                  (usize_weight overflow)
                  (λ input proof. build input)
                  charge
                  (queue_prepare fair
                    (usize_weight overflow)
                    (attach_prepare fair (usize_weight overflow) try_tagged)
                    tag
                    reserved
                    input)
          ])
      on (err cause) reserved is_reserved = (is_reserved, refl, refl)
      on (ok g1) reserved is_reserved =
          let (kept, weighs, fits) = reserved g1 refl in
          let (same, state) = aside g1 tag in
          attached g1 (try_tagged g1 tag) is_reserved refl (same ∙ kept) (state ∙ weighs) fits
