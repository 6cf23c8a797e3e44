-- ===== src/Resp/Gate/System.antt =====
-- All accesses of a gate, and the lanes that replies own: the steps that they take, in any order.
use cartel.Base.{ℕ, suc, some, Bool, ◌≡◌, ◌<◌}
use cartel.Resp.Gate.{
  Fifo, Gate, Phase, acquire, drop_lane, wait, release_access, finish_access, gate_new,
}
use cartel.Resp.Gate.Charges.{Inv, with_phase}

-- the gate, the phase of each access, and how many lanes replies own
pub record System (Q : Type 0) : Type 0 where
  pub gate : Gate Q
  pub phases : ℕ → Phase
  pub out : ℕ

module _ {Q : Type 0} (fifo : Fifo Q) (n : ℕ) where
  -- One of `n` accesses, or the owner of a lane, does something; an access waits on its own slot.
  pub data Step : System Q → System Q → Type 0 where
    acquires :
        (s : System Q) (a : ℕ) {done : Bool} {g : Gate Q} {phase : Phase}
        → a < n
        → acquire fifo s.gate (s.phases a) ≡ (done, g, phase)
        → Step s (record { gate = g; phases = with_phase s.phases a phase; out = s.out })
    waits :
        (s : System Q) (a target : ℕ) {g : Gate Q} {phase : Phase}
        → a < n
        → wait fifo s.gate (s.phases a) a target ≡ some (g, phase)
        → Step s (record { gate = g; phases = with_phase s.phases a phase; out = s.out })
    releases :
        (s : System Q) (a : ℕ) {g : Gate Q} {phase : Phase}
        → a < n
        → release_access fifo s.gate (s.phases a) ≡ (g, phase)
        → Step s (record { gate = g; phases = with_phase s.phases a phase; out = s.out })
    finishes :
        (s : System Q) (a : ℕ)
        → a < n
        → s.phases a ≡ Phase.held
        → Step s (record {
          gate = s.gate;
          phases = with_phase s.phases a (finish_access (s.phases a));
          out = suc s.out;
        })
    drops :
        (s : System Q) {out : ℕ}
        → s.out ≡ suc out
        → Step s (record { gate = drop_lane fifo s.gate; phases = s.phases; out = out })

  pub data Reaches (s : System Q) : System Q → Type 0 where
    here : Reaches s s
    next : {t u : System Q} → Reaches s t → Step t u → Reaches s u

  abbrev pub Good : System Q → Type 0
  Good s = Inv fifo n s.gate s.phases s.out

  -- a gate with no access and an empty queue
  abbrev pub initial : Q → (lanes : ℕ) → System Q
  initial q lanes = record { gate = gate_new fifo q lanes; phases = λ i. Phase.idle; out = 0 }
