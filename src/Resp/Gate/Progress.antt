-- ===== src/Resp/Gate/Progress.antt =====
-- Accesses that wait: what the steps of a gate keep of them, and what the drop of a lane does for the one
-- that is served next.
use mathlib.Core.Path.{subst}
use cartel.Resp.Gate.Granted.{
  IsOther, AreOthers, Keeps, acquire-Keeps, KeepsSome, wait-Keeps, release_access-Keeps,
  drop_lane-Keeps,
}
use cartel.Resp.Gate.Bound.{Reaches-Good}
use cartel.Base.{
  if◌then◌else◌, ℕ, none, some, true, ◌≤◌, ◌≡◌, refl, arith, ◌==◌, suc, inl, inr, ◌∙◌,
}
use cartel.Resp.Gate.{Fifo, Phase, acquire, drop_lane, resume, finish_access}
use cartel.Resp.Gate.Charges.{IsFifo, IsServed, with_phase_other}
use cartel.Resp.Gate.Access.{is_target_self}
use cartel.Resp.Gate.Lane.{waiting_of_queued}
use cartel.Resp.Gate.System.{Step, System, Reaches, initial, Good}
use cartel.Resp.Gate.Wakes.{
  IsQuiet, Settled, drop_lane-IsQuiet, acquire-IsQuiet, release_access-IsQuiet, wait-IsQuiet,
}

module _ {Q : Type 0} (fifo : Fifo Q) (n : ℕ) where
  -- An access waits only while all lanes are taken, as it does after it was refused.
  abbrev pub IsPrompt : {s t : System Q} → Step fifo n s t → Type 0
  IsPrompt (Step.waits s a target lt e) = s.gate.lanes ≤ s.gate.active
  IsPrompt _ = Unit {0}

  abbrev pub ArePrompt : {s t : System Q} → Reaches fifo n s t → Type 0
  ArePrompt Reaches.here = Unit {0}
  ArePrompt (Reaches.next r step) = ArePrompt r × IsPrompt step

module _ {Q : Type 0} (fifo : Fifo Q) (law : IsFifo fifo) (n : ℕ) where
  Step-IsQuiet :
      {s t : System Q} (step : Step fifo n s t)
      → IsPrompt fifo n step
      → IsQuiet fifo s.gate
      → IsQuiet fifo t.gate
  Step-IsQuiet (Step.acquires s a lt e) prompt quiet =
      subst (λ r. IsQuiet fifo (r.1)) e (acquire-IsQuiet fifo law s.gate (s.phases a) quiet)
  Step-IsQuiet (Step.waits s a target lt e) prompt quiet =
      subst (Settled fifo law) e (wait-IsQuiet fifo law s.gate (s.phases a) a target quiet prompt)
  Step-IsQuiet (Step.releases s a lt e) prompt quiet =
      subst (λ r. IsQuiet fifo (r.0)) e (release_access-IsQuiet fifo law s.gate (s.phases a) quiet)
  Step-IsQuiet (Step.finishes s a lt e) prompt quiet = quiet
  Step-IsQuiet (Step.drops s e) prompt quiet = drop_lane-IsQuiet fifo law s.gate quiet

  -- From a new gate whose queue is empty, where accesses wait only while all lanes are taken, an access is
  -- never queued while a lane is free.
  pub Reaches-IsQuiet :
      (q : Q) (lanes : ℕ)
      → ((i : ℕ) → fifo.get q i ≡ none)
      → {s : System Q} (r : Reaches fifo n (initial fifo n q lanes) s) → ArePrompt fifo n r
      → (i target : ℕ) → fifo.get s.gate.waiters i ≡ some target
      → s.gate.lanes ≤ s.gate.active
  Reaches-IsQuiet q lanes empty Reaches.here prompt i target e =
      let none_at = empty i in absurd (cc)
  Reaches-IsQuiet q lanes empty (Reaches.next r step) (before, prompt) i target e =
      Step-IsQuiet step prompt (Reaches-IsQuiet q lanes empty r before) i target e

  -- access `i` waits for `t`, and has its grant
  abbrev pub IsGranted : (i t : ℕ) → System Q → Type 0
  IsGranted i t s = (s.phases i ≡ Phase.waiting i t) × (s.gate.granted i ≡ some t)

  -- an access with its grant is not queued
  unqueued_of_granted :
      (s : System Q) (i t : ℕ) → Good fifo n s → IsGranted i t s → fifo.get s.gate.waiters i ≡ none
  unqueued_of_granted s i t good (waits, granted) = on (rw waits at (good.served i))
    where
      on :
          IsServed i (Phase.waiting i t) (fifo.get s.gate.waiters i) (s.gate.granted i)
          → fifo.get s.gate.waiters i ≡ none
      on (at, inl (queued, free)) = absurd (cc)
      on (at, inr (left, grant)) = left

  Step-IsGranted :
      (i t : ℕ) {s u : System Q} (step : Step fifo n s u)
      → IsOther fifo n i step
      → Good fifo n s
      → IsGranted i t s
      → IsGranted i t u
  Step-IsGranted i t (Step.acquires s a {phase = phase} lt e) other good (waits, granted) =
      let keeps =
        subst (λ r. Keeps fifo law i s.gate (r.1)) e
          (acquire-Keeps fifo law i s.gate a (s.phases a) other (good.served a)) in
      (with_phase_other s.phases a phase i other ∙ waits, keeps ∙ granted)
  Step-IsGranted i t (Step.waits s a target {phase = phase} lt e) other good (waits, granted) =
      let keeps = subst (KeepsSome fifo law i s.gate) e (
        wait-Keeps fifo law i s.gate a target (s.phases a) other
          (unqueued_of_granted s i t good (waits, granted)) (good.served a)) in
      (with_phase_other s.phases a phase i other ∙ waits, keeps ∙ granted)
  Step-IsGranted i t (Step.releases s a {phase = phase} lt e) other good (waits, granted) =
      let keeps =
        subst (λ r. Keeps fifo law i s.gate (r.0)) e
          (release_access-Keeps fifo law i s.gate a (s.phases a) other
            (unqueued_of_granted s i t good (waits, granted)) (good.served a)) in
      (with_phase_other s.phases a phase i other ∙ waits, keeps ∙ granted)
  Step-IsGranted i t (Step.finishes s a lt e) other good (waits, granted) =
      (with_phase_other s.phases a (finish_access (s.phases a)) i other ∙ waits, granted)
  Step-IsGranted i t (Step.drops s e) other good (waits, granted) = (
    waits,
    drop_lane-Keeps fifo law i s.gate (unqueued_of_granted s i t good (waits, granted)) ∙ granted,
  )

  Reaches-IsGranted :
      (i t : ℕ) {s u : System Q} (r : Reaches fifo n s u)
      → AreOthers fifo n i r
      → Good fifo n s
      → IsGranted i t s
      → IsGranted i t u
  Reaches-IsGranted i t Reaches.here others good granted = granted
  Reaches-IsGranted i t (Reaches.next r step) (others, other) good granted =
      Step-IsGranted i t step other (Reaches-Good fifo law n r good)
        (Reaches-IsGranted i t r others good granted)

  acquire_granted :
      (s : System Q) (i t : ℕ)
      → IsGranted i t s
      → ((acquire fifo s.gate (s.phases i)).0 ≡ true)
        × ((acquire fifo s.gate (s.phases i)).2 ≡ Phase.held)
        × ((acquire fifo s.gate (s.phases i)).1.active ≡ s.gate.active)
  unfolding acquire resume
  acquire_granted s i t (waits, granted) = (
    rw waits (rw (granted, is_target_self t) refl),
    rw waits (rw (granted, is_target_self t) refl),
    rw waits (rw (granted, is_target_self t) refl),
  )

  drop_lane-IsGranted :
      (s : System Q) (i t : ℕ) {q : Q} (out : ℕ)
      → Good fifo n s
      → fifo.next s.gate.waiters ≡ some ((i, t), q)
      → IsGranted i t (record { gate = drop_lane fifo s.gate; phases = s.phases; out = out })
  unfolding drop_lane
  drop_lane-IsGranted s i t {q} out good e =
      let (at, others) = law.get-next s.gate.waiters e in
      let (waits, free) = waiting_of_queued i (s.phases i) (good.served i) at in
      let granted : (if i == i then some t else s.gate.granted i) ≡ some t = ground arith in
      (waits, rw (e, drop_lane) granted)

  -- In a system with its accounts in order, a lane that a reply owns is dropped while an access is the one
  -- that the queue serves next. Then, after any steps of other accesses and of the owners of lanes, this
  -- access still waits, and it acquires a lane as soon as it asks, without one more lane in use.
  pub acquire-drop_lane :
      (s : System Q) (i t out : ℕ) {q : Q}
      → Good fifo n s
      → s.out ≡ suc out
      → fifo.next s.gate.waiters ≡ some ((i, t), q)
      → {u : System Q}
      → (r : Reaches fifo n
          (record { gate = drop_lane fifo s.gate; phases = s.phases; out = out })
          u)
      → AreOthers fifo n i r
      → (u.phases i ≡ Phase.waiting i t)
        × ((acquire fifo u.gate (u.phases i)).0 ≡ true)
        × ((acquire fifo u.gate (u.phases i)).2 ≡ Phase.held)
        × ((acquire fifo u.gate (u.phases i)).1.active ≡ u.gate.active)
  acquire-drop_lane s i t out good owned e {u = u} r others =
      let dropped = Reaches-Good fifo law n (Reaches.next Reaches.here (Step.drops s owned)) good in
      let granted = Reaches-IsGranted i t r others dropped (drop_lane-IsGranted s i t out good e) in
      let (acquired, held, same) = acquire_granted u i t granted in
      (granted.0, acquired, held, same)
