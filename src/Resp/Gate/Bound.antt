-- ===== src/Resp/Gate/Bound.antt =====
-- What the steps of a gate keep: the accounts, and with them the bound on the lanes that are in use.
use mathlib.Core.Path.{subst}
use cartel.Base.{ℕ, zero, suc, refl, none, arith, ◌≡◌, ◌≤◌, ◌<◌, ◌+◌, u64_size}
use cartel.Resp.Gate.{Fifo}
use cartel.Resp.Gate.Charges.{IsFifo, total, held_charge, granted_charge}
use cartel.Resp.Gate.Access.{finish-Inv}
use cartel.Resp.Gate.Lane.{drop_lane-Inv}
use cartel.Resp.Gate.Lanes.{lanes-Reaches}
use cartel.Resp.Gate.Moves.{Acquired, Released, acquire-Inv, release_access-Inv}
use cartel.Resp.Gate.System.{Step, System, Reaches, Good, initial}
use cartel.Resp.Gate.Wait.{Waited, wait-Inv}

module _ {Q : Type 0} (fifo : Fifo Q) (law : IsFifo fifo) (n : ℕ) where
  Step-Good : {s t : System Q} → Step fifo n s t → Good fifo n s → Good fifo n t
  Step-Good (Step.acquires s a lt e) good =
      subst (Acquired fifo law n s.out s.gate s.phases a lt good) e
        (acquire-Inv fifo law n s.out s.gate s.phases a lt good (s.phases a) refl)
  Step-Good (Step.waits s a target lt e) good =
      subst (Waited fifo law n s.out s.gate s.phases a lt good) e
        (wait-Inv fifo law n s.out s.gate s.phases a lt good (s.phases a) target refl)
  Step-Good (Step.releases s a lt e) good =
      subst (Released fifo law n s.out s.gate s.phases a lt good) e
        (release_access-Inv fifo law n s.out s.gate s.phases a lt good (s.phases a) refl)
  Step-Good (Step.finishes s a lt e) good = finish-Inv fifo law n s.out s.gate s.phases a lt good e
  Step-Good (Step.drops s {out = out} e) good =
      drop_lane-Inv fifo law n out s.gate s.phases (rw e at good)

  pub Reaches-Good : {s t : System Q} → Reaches fifo n s t → Good fifo n s → Good fifo n t
  Reaches-Good Reaches.here good = good
  Reaches-Good (Reaches.next r step) good = Step-Good step (Reaches-Good r good)

  total_zero : (f : ℕ → ℕ) (m : ℕ) → ((i : ℕ) → f i ≡ 0) → total f m ≡ 0
  unfolding total
  total_zero f zero h = refl
  total_zero f (suc m) h = let ih = total_zero f m h in let last = h m in omega arith

  pub initial-Good :
      (q : Q) (lanes : ℕ)
      → ((i : ℕ) → fifo.get q i ≡ none)
      → lanes < u64_size
      → Good fifo n (initial fifo n q lanes)
  initial-Good q lanes empty fits = record {
    charged = let none_charged = total_zero (λ i. 0 + 0) n (λ i. refl) in omega arith;
    bounded = omega arith;
    fits = fits;
    beyond = λ i le. refl;
    served = λ i. (empty i, refl);
  }

  -- the accesses that hold a charge
  abbrev pub held_count : System Q → ℕ
  held_count s = total (λ i. held_charge (s.phases i)) n

  total_le : (f g : ℕ → ℕ) (m : ℕ) → total f m ≤ total (λ i. f i + g i) m
  unfolding total
  total_le f g zero = omega arith
  total_le f g (suc m) = omega (arith, total_le f g m)

  -- From a new gate whose queue is empty, whatever `n` accesses and the owners of lanes do, the accesses
  -- that hold a charge and the lanes that replies own are together no more than the lanes of the gate.
  pub Reaches-bounded :
      (q : Q) (lanes : ℕ)
      → ((i : ℕ) → fifo.get q i ≡ none)
      → lanes < u64_size
      → (s : System Q) → Reaches fifo n (initial fifo n q lanes) s
      → held_count s + s.out ≤ lanes
  Reaches-bounded q lanes empty fits s r =
      let good = Reaches-Good r (initial-Good q lanes empty fits) in
      let part =
        total_le (λ i. held_charge (s.phases i)) (λ i. granted_charge (s.gate.granted i)) n in
      let fixed = lanes-Reaches fifo n r in omega (arith, fixed, part, good.charged, good.bounded)
