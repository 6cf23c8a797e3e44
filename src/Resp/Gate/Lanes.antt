-- ===== src/Resp/Gate/Lanes.antt =====
-- The number of lanes of a gate is fixed.
use mathlib.Core.Path.{subst}
use cartel.Base.{ℕ, refl, none, some, arith, inl, inr, ◌≡◌, Option, ◌∙◌, Bool-cases, ◌==◌, ◌&&◌}
use cartel.Resp.Gate.{
  Fifo, Gate, Phase, acquire, cancel, drop_lane, enqueue, queued, wait, release_access, resume,
}
use cartel.Resp.Gate.System.{Step, System, Reaches}

module _ {Q : Type 0} (fifo : Fifo Q) where
  lanes-drop_lane : (g : Gate Q) → (drop_lane fifo g).lanes ≡ g.lanes
  unfolding drop_lane
  lanes-drop_lane g = ground arith

  lanes-cancel : (g : Gate Q) (i t : ℕ) → (cancel fifo g i t).lanes ≡ g.lanes
  unfolding cancel drop_lane
  lanes-cancel g i t = ground arith

  lanes-acquire : (g : Gate Q) (phase : Phase) → (acquire fifo g phase).1.lanes ≡ g.lanes
  unfolding acquire resume
  lanes-acquire g Phase.idle = ground arith
  lanes-acquire g Phase.held = refl
  lanes-acquire g (Phase.waiting i t) = ground arith

  abbrev Fixed : Gate Q → Option (Gate Q × Phase) → Type 0
  Fixed g none = Unit {0}
  Fixed g (some (g', phase)) = g'.lanes ≡ g.lanes

  lanes-queued : (g : Gate Q) (i t : ℕ) → (queued fifo g i t).lanes ≡ g.lanes
  lanes-queued g i t = ground arith

  enqueue-Fixed : (g : Gate Q) (phase : Phase) (i t : ℕ) → Fixed g (enqueue fifo g phase i t)
  unfolding enqueue
  enqueue-Fixed g phase i t = elim (Bool-cases (fifo.has_entry g.waiters i)) [
    | inl inside ↦ rw inside (at phase)
    | inr outside ↦ rw outside tt
  ]
    where
      at :
          (p : Phase)
          → Fixed g (elim p [
            | Phase.waiting old was ↦
                some (cancel fifo (queued fifo g i t) old was, Phase.waiting i t)
            | _ ↦ some (queued fifo g i t, Phase.waiting i t)
          ])
      at Phase.idle = lanes-queued g i t
      at Phase.held = lanes-queued g i t
      at (Phase.waiting old was) = lanes-cancel (queued fifo g i t) old was ∙ lanes-queued g i t

  wait-Fixed : (g : Gate Q) (phase : Phase) (i t : ℕ) → Fixed g (wait fifo g phase i t)
  unfolding wait
  wait-Fixed g Phase.idle i t = enqueue-Fixed g Phase.idle i t
  wait-Fixed g Phase.held i t = refl
  wait-Fixed g (Phase.waiting old was) i t = elim (Bool-cases (old == i && was == t)) [
    | inl same ↦ rw same refl
    | inr moves ↦ rw moves (enqueue-Fixed g (Phase.waiting old was) i t)
  ]

  lanes-release_access :
      (g : Gate Q) (phase : Phase) → (release_access fifo g phase).0.lanes ≡ g.lanes
  unfolding release_access
  lanes-release_access g Phase.idle = refl
  lanes-release_access g Phase.held = lanes-drop_lane g
  lanes-release_access g (Phase.waiting i t) = lanes-cancel g i t

  lanes-Step : (n : ℕ) {s t : System Q} → Step fifo n s t → t.gate.lanes ≡ s.gate.lanes
  lanes-Step n (Step.acquires s a lt e) =
      subst (λ r. r.1.lanes ≡ s.gate.lanes) e (lanes-acquire s.gate (s.phases a))
  lanes-Step n (Step.waits s a target lt e) =
      subst (Fixed s.gate) e (wait-Fixed s.gate (s.phases a) a target)
  lanes-Step n (Step.releases s a lt e) =
      subst (λ r. r.0.lanes ≡ s.gate.lanes) e (lanes-release_access s.gate (s.phases a))
  lanes-Step n (Step.finishes s a lt e) = refl
  lanes-Step n (Step.drops s e) = lanes-drop_lane s.gate

  pub lanes-Reaches : (n : ℕ) {s t : System Q} → Reaches fifo n s t → t.gate.lanes ≡ s.gate.lanes
  lanes-Reaches n Reaches.here = refl
  lanes-Reaches n (Reaches.next r step) = lanes-Step n step ∙ lanes-Reaches n r
