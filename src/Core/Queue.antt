-- ===== src/Core/Queue.antt =====
-- core/src/queue.rs: one lane of a fair queue, whose entries carry weights. The lanes and their permits are
-- the o3 crate's, and the final link the dope crate's: they are records of operations on the region `G`
-- that the code's token stands for.
pub mod Weights
pub mod Drains
pub mod Sends
use cartel.Base.{
  ℕ, none, some, ok, err, Result, checked_add, Option, Bool, u64_max, ◌==◌, ◌+◌, u64_size, ◌-◌, ◌%◌,
  zero, suc, true, false, [], if◌then◌else◌, List, ◌∷◌,
}

-- `Entry`
pub record Entry (T W : Type 0) : Type 0 where
  pub value : T
  pub weight : W

-- what the queue uses of a binding of `fair::Lanes` and of its permits, over a type `C` of causes
pub record Fair (G T W C : Type 0) : Type 0 where
  -- the index of the lane, its weight and how many entries it has
  pub index : ℕ
  pub state : G → W
  pub set_state : G → W → G
  pub len : G → ℕ
  -- `Binding::reserve` and `Binding::take_front`; the permit is the lane's
  pub reserve : G → Result C G
  pub take_front : G → Option (Entry T W × G)
  -- `Permit::push_back`, `Permit::push_front` and the drop of a permit
  pub push_back : G → Entry T W → G
  pub push_front : G → Entry T W → G
  pub drop_permit : G → G

-- `Weight`, its two methods; `Cause::Overflow` has an axis, what is held and what is requested
pub record Weight (W C : Type 0) : Type 0 where
  pub try_add : W → W → Result C W
  pub wrapping_sub : W → W → W

-- the weights of `usize`, of 64 bits, and of `()`
abbrev pub usize_weight : {C : Type 0} (overflow : (axis held requested : ℕ) → C) → Weight ℕ C
usize_weight overflow = record {
  try_add = λ held other. elim (checked_add u64_max held other) [
    | none ↦ err (overflow 0 held other)
    | some sum ↦ ok sum
  ];
  wrapping_sub = λ held other. (held + u64_size - other) % u64_size;
}

abbrev pub unit_weight : {C : Type 0} → Weight (Unit {0}) C
unit_weight = record { try_add = λ held other. ok tt; wrapping_sub = λ held other. tt }

-- `Rejection`
pub data Rejection (C : Type 0) : Type 0 where
  capacity : C → Rejection C
  weight : (lane : ℕ) → C → Rejection C

-- what the drain uses of `request::Requests`, and of the `Work` that a claim gives
pub data Admission (T X : Type 0) : Type 0 where
  ready : Admission T X
  saturated : T → Admission T X
  rejected : T → X → Admission T X

pub record Requests (G T W X : Type 0) : Type 0 where
  pub claim : G → Option (Entry T W × G)
  pub admit : G → T → Admission T X × G
  -- `push_with`, which calls its closure on the region
  pub push_with : G → (G → G) → G

-- `Drain`
pub data Drain : Type 0 where
  empty exhausted out_of_fuel : Drain

module _ {G T W C : Type 0} (fair : Fair G T W C) (weights : Weight W C) where
  -- `Lane::try_reserve`; the `Front` is the lane's permit and the weight
  unfoldable pub try_reserve : G → W → Result (Rejection C) G
  try_reserve g charge = elim (weights.try_add (fair.state g) charge) [
    | err cause ↦ err (Rejection.weight fair.index cause)
    | ok total ↦ elim (fair.reserve g) [
      | err cause ↦ err (Rejection.capacity cause)
      | ok g' ↦ ok (fair.set_state g' total)
    ]
  ]

  -- `Front::publish`, `Front::restore` and `Front::release`
  abbrev pub publish : G → W → T → G
  publish g charge value = fair.push_back g (record { value = value; weight = charge })

  abbrev pub restore : G → W → T → G
  restore g charge value = fair.push_front g (record { value = value; weight = charge })

  abbrev pub release : G → W → G
  release g charge =
      fair.drop_permit (fair.set_state g (weights.wrapping_sub (fair.state g) charge))

  -- `Lane::try_with`, with what `prepare` returned
  abbrev pub prepared_with :
      {I J P R E : Type 0} (build : J → P → T × R)
      → W
      → Result (E × I) (P × J) × G
      → Result (E × I) R × G
  prepared_with build charge (err error, g) = (err error, release g charge)
  prepared_with build charge (ok (proof, input), g) =
      let (item, output) = build input proof in (ok output, publish g charge item)

  -- `Lane::try_with`; `from` is `E::from`
  unfoldable pub try_with :
      {I J P R E : Type 0} (from : Rejection C → E) (prepare : G → I → Result (E × I) (P × J) × G)
      → (build : J → P → T × R) → G
      → W
      → I
      → Result (E × I) R × G
  unfolding try_reserve
  try_with from prepare build g charge input = elim (try_reserve g charge) [
    | err cause ↦ (err (from cause, input), g)
    | ok reserved ↦ prepared_with build charge (prepare reserved input)
  ]

  -- `Lane::try_push`; a `Rejected` is the cause and the value
  abbrev pub try_push : G → T → W → Result (Rejection C × T) (Unit {0}) × G
  try_push g item charge =
      try_with {P = Unit {0}} (λ cause. cause) (λ g item. (ok (tt, item), g)) (λ item p. (item, tt))
        g charge item

  -- `Lane::take_front`, of what the binding gives: the value and its `Front`
  abbrev pub detached : Option (Entry T W × G) → Option (T × W × G)
  detached none = none
  detached (some (entry, g)) = some (entry.value, entry.weight, g)

  -- `Lane::pop_front`, of what `take_front` gives
  abbrev pub popped : Option (T × W × G) → Option (T × G)
  popped none = none
  popped (some (value, charge, g)) = some (value, release g charge)

  -- `Lane::take_front` and `Lane::pop_front`
  abbrev pub take_front : G → Option (T × W × G)
  take_front g = detached (fair.take_front g)

  unfoldable pub pop_front : G → Option (T × G)
  pop_front g = popped (take_front g)

  -- `Lane::is_empty`
  abbrev pub is_empty : G → Bool
  is_empty g = fair.len g == 0

  -- `Lane::clear`, on fuel, with the values released; `admits` and `spend` are what `app::Work` does
  unfoldable pub clear :
      {B : Type 0} (admits : B → Bool) (spend : B → B) (fuel : ℕ) → B → G → Drain × List T × G
  unfolding pop_front
  clear admits spend zero work g = (Drain.out_of_fuel, [], g)
  clear admits spend (suc fuel) work g = elim (admits work) [
    | true ↦ elim (pop_front g) [
      | none ↦ (Drain.empty, [], g)
      | some (item, g') ↦
          let (end, items, left) = clear admits spend fuel (spend work) g' in
          (end, item ∷ items, left)
    ]
    | false ↦ (if is_empty g then Drain.empty else Drain.exhausted, [], g)
  ]

  -- `Lane::drain`, on fuel; `none` is a loop out of fuel
  unfoldable pub drain :
      {X : Type 0} → Requests G T W X → (fuel : ℕ) → G → Option (Result X (Unit {0})) × G
  drain requests zero g = (none, g)
  drain requests (suc fuel) g = elim (requests.claim g) [
    | none ↦ (some (ok tt), g)
    | some (entry, g1) ↦
        let (answer, g2) = requests.admit g1 entry.value in
        elim answer [
          | Admission.ready ↦
              drain requests fuel (requests.push_with g2 (λ g. release g entry.weight))
          | Admission.saturated value ↦ (some (ok tt), restore g2 entry.weight value)
          | Admission.rejected value cause ↦ (some (err cause), restore g2 entry.weight value)
        ]
  ]
