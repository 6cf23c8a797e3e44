-- ===== src/Resp/Gate/Charges.antt =====
-- How many lanes of the gate are taken, and by whom.
use native.Mathlib.Decide.{dec_lt, ℕ_discrete}
use mathlib.Core.Path.{subst}
use cartel.Base.{
  ℕ, zero, suc, refl, none, some, arith, ◌+◌, ◌<◌, Option, ◌≡◌, ◌≢◌, ◌⊎◌, ◌≤◌, u64_size, ap,
  if◌then◌else◌, ◌==◌, ◌∙◌, sym,
}
use cartel.Resp.Gate.{Fifo, Gate, Phase}

-- the sum of `f` over the first `n` numbers
unfoldable pub total : (ℕ → ℕ) → (n : ℕ) → ℕ
total f zero = 0
total f (suc n) = f n + total f n

total-same : (f g : ℕ → ℕ) (n : ℕ) → ((j : ℕ) → j < n → g j ≡ f j) → total g n ≡ total f n
unfolding total
total-same f g zero same = refl
total-same f g (suc n) same =
    let ih = total-same f g n (λ j lt. same j (omega arith)) in
    let last = same n (omega arith) in omega arith

-- a change at one place
pub total-change :
    (f g : ℕ → ℕ) (n i : ℕ)
    → i < n
    → ((j : ℕ) → j ≢ i → g j ≡ f j)
    → total g n + f i ≡ total f n + g i
unfolding total
total-change f g zero i lt same = absurd (omega arith)
total-change f g (suc n) i lt same = elim (dec_lt i n) [
  | yes before ↦
      let ih = total-change f g n i before same in
      let last = same n (λ e. omega arith) in omega arith
  | no here ↦
      let at : n ≡ i = omega arith in
      let rest = total-same f g n (λ j below. same j (λ e. omega arith)) in
      let ff : f n ≡ f i = ap f at in let gg : g n ≡ g i = ap g at in omega arith
]

-- the charges of one access: the one it holds, and the one granted to it
abbrev pub held_charge : Phase → ℕ
held_charge Phase.held = 1
held_charge _ = 0

abbrev pub granted_charge : Option ℕ → ℕ
granted_charge none = 0
granted_charge (some t) = 1

-- an access and its slot: a waiting one is queued, or else it has its grant
abbrev pub IsServed : (index : ℕ) → Phase → (queued granted : Option ℕ) → Type 0
IsServed i (Phase.waiting index target) queued granted =
    (index ≡ i)
    × (((queued ≡ some target) × (granted ≡ none)) ⊎ ((queued ≡ none) × (granted ≡ some target)))
IsServed i _ queued granted = (queued ≡ none) × (granted ≡ none)

-- what the gate relies on of the queue
pub record IsFifo {Q : Type 0} (fifo : Fifo Q) : Type 0 where
  pub get-push :
      (q : Q) (i t j : ℕ) → fifo.get (fifo.push q i t) j ≡ (if j == i then some t else fifo.get q j)
  pub get-clear :
      (q : Q) (i j : ℕ) → fifo.get (fifo.clear q i) j ≡ (if j == i then none else fifo.get q j)
  pub get-next :
      (q : Q) {i t : ℕ} {q' : Q}
      → fifo.next q ≡ some ((i, t), q')
      → (fifo.get q i ≡ some t)
        × ((j : ℕ) → fifo.get q' j ≡ (if j == i then none else fifo.get q j))
  pub get-next_none : (q : Q) (i : ℕ) → fifo.next q ≡ none → fifo.get q i ≡ none

-- `n` accesses, access `i` on slot `i`, and `out` lanes that are owned by replies
pub record Inv {Q : Type 0} (fifo : Fifo Q) (n : ℕ) (g : Gate Q) (phases : ℕ → Phase) (out : ℕ)
    : Type 0 where
  pub charged :
      g.active ≡ total (λ i. held_charge (phases i) + granted_charge (g.granted i)) n + out
  pub bounded : g.active ≤ g.lanes
  pub fits : g.lanes < u64_size
  pub beyond : (i : ℕ) → n ≤ i → phases i ≡ Phase.idle
  pub served : (i : ℕ) → IsServed i (phases i) (fifo.get g.waiters i) (g.granted i)

-- the phases with another one for access `a`
abbrev pub with_phase : (ℕ → Phase) → (a : ℕ) → Phase → (ℕ → Phase)
with_phase phases a phase = λ i. if i == a then phase else phases i

pub with_phase_at :
    (phases : ℕ → Phase) (a : ℕ) (phase : Phase) → with_phase phases a phase a ≡ phase
with_phase_at phases a phase = ground arith

pub with_phase_other :
    (phases : ℕ → Phase) (a : ℕ) (phase : Phase) (j : ℕ)
    → j ≢ a
    → with_phase phases a phase j ≡ phases j
with_phase_other phases a phase j ne = ground (arith, ne)

module _ {Q : Type 0} {fifo : Fifo Q} {n : ℕ} (g g' : Gate Q) (phases phases' : ℕ → Phase)
    (a out out' : ℕ) where
  -- An operation of access `a` changes its phase and its slot alone, and the accounts agree.
  pub change_at :
      Inv fifo n g phases out
      → a < n
      → g'.lanes ≡ g.lanes
      → ((j : ℕ) → j ≢ a → phases' j ≡ phases j)
      → ((j : ℕ) → j ≢ a → g'.granted j ≡ g.granted j)
      → ((j : ℕ) → j ≢ a → fifo.get g'.waiters j ≡ fifo.get g.waiters j)
      → g'.active + (held_charge (phases a) + granted_charge (g.granted a)) + out
        ≡ g.active + (held_charge (phases' a) + granted_charge (g'.granted a)) + out'
      → g'.active ≤ g.lanes
      → IsServed a (phases' a) (fifo.get g'.waiters a) (g'.granted a)
      → Inv fifo n g' phases' out'
  change_at inv lt lanes same_phase same_granted same_queue account bounded served = record {
    charged = charged;
    bounded = omega (arith, bounded, lanes);
    fits = omega (arith, inv.fits, lanes);
    beyond = λ i le. same_phase i (λ e. omega arith) ∙ inv.beyond i le;
    served = λ i. elim (ℕ_discrete i a) [
      | yes e ↦
          subst (λ k. IsServed k (phases' k) (fifo.get g'.waiters k) (g'.granted k)) (sym e) served
      | no ne ↦ rw (same_phase i ne, same_granted i ne, same_queue i ne) (inv.served i)
    ];
  }
    where
      charge : ℕ → ℕ
      charge i = held_charge (phases i) + granted_charge (g.granted i)

      charge' : ℕ → ℕ
      charge' i = held_charge (phases' i) + granted_charge (g'.granted i)

      charged : g'.active ≡ total charge' n + out'
      charged =
          let change =
            total-change charge charge' n a lt
              (λ j ne. rw (same_phase j ne, same_granted j ne) refl) in
          omega (arith, change, account, inv.charged)
