-- ===== src/Resp/Gate/Granted.antt =====
-- A lane that was granted to a waiting access: what the steps of the others leave of it.
use cartel.Base.{
  ℕ, none, some, ◌≡◌, ◌≢◌, refl, true, false, arith, if◌then◌else◌, Option, ◌∙◌, Bool, ◌+◌,
  u64_size, leb, ◌-◌, ◌%◌, inl, inr, Bool-cases, ◌==◌, ◌&&◌,
}
use cartel.Resp.Gate.{
  Fifo, Gate, Phase, cancel, drop_lane, resume, set_granted, is_target, acquire, queued, enqueue,
  wait, release_access,
}
use cartel.Resp.Gate.Charges.{IsFifo, IsServed}
use cartel.Resp.Gate.System.{Reaches, Step, System}

module _ {Q : Type 0} (fifo : Fifo Q) (n i : ℕ) where
  -- a step of another access, or of the owner of a lane
  abbrev pub IsOther : {s t : System Q} → Step fifo n s t → Type 0
  IsOther (Step.acquires s a lt e) = i ≢ a
  IsOther (Step.waits s a target lt e) = i ≢ a
  IsOther (Step.releases s a lt e) = i ≢ a
  IsOther (Step.finishes s a lt e) = i ≢ a
  IsOther (Step.drops s e) = Unit {0}

  abbrev pub AreOthers : {s t : System Q} → Reaches fifo n s t → Type 0
  AreOthers Reaches.here = Unit {0}
  AreOthers (Reaches.next r step) = AreOthers r × IsOther step

module _ {Q : Type 0} (fifo : Fifo Q) (law : IsFifo fifo) (i : ℕ) where
  -- the grant of access `i` is as before
  abbrev pub Keeps : Gate Q → Gate Q → Type 0
  Keeps g g' = g'.granted i ≡ g.granted i

  abbrev pub KeepsSome : Gate Q → Option (Gate Q × Phase) → Type 0
  KeepsSome g none = Unit {0}
  KeepsSome g (some (g', phase)) = Keeps g g'

  set_granted-Keeps : (g : Gate Q) (a : ℕ) (o : Option ℕ) → i ≢ a → Keeps g (set_granted g a o)
  set_granted-Keeps g a o ne = ground (arith, ne)

  -- an access that is not queued is not served next
  pub drop_lane-Keeps : (g : Gate Q) → fifo.get g.waiters i ≡ none → Keeps g (drop_lane fifo g)
  unfolding drop_lane
  drop_lane-Keeps g out = at (fifo.next g.waiters) refl
    where
      at :
          (o : Option ((ℕ × ℕ) × Q))
          → fifo.next g.waiters ≡ o
          → Keeps g (elim o as (λ _. Gate Q) [
            | none ↦ record g { active = (g.active + u64_size - 1) % u64_size }
            | some ((index, target), waiters) ↦
                set_granted (record g { waiters = waiters }) index (some target)
          ])
      at none e = refl
      at (some ((j, t), q)) e =
          let (here, others) = law.get-next g.waiters e in
          set_granted-Keeps (record g { waiters = q }) j (some t)
            (λ same. let here' = rw (← same) at here in absurd (cc))

  cancel-Keeps :
      (g : Gate Q) (a t : ℕ) → i ≢ a → fifo.get g.waiters i ≡ none → Keeps g (cancel fifo g a t)
  unfolding cancel
  cancel-Keeps g a t ne out = on (is_target (fifo.get g.waiters a) t) (is_target (g.granted a) t)
    where
      cleared_out : fifo.get (fifo.clear g.waiters a) i ≡ none
      cleared_out = ground (arith, ne, out, law.get-clear g.waiters a i)

      dropped :
          (c : Gate Q)
          → Keeps g c
          → fifo.get c.waiters i ≡ none
          → Keeps g (drop_lane fifo (set_granted c a none))
      dropped c keeps none_queued =
          drop_lane-Keeps (set_granted c a none) none_queued ∙ set_granted-Keeps c a none ne ∙ keeps

      on :
          (clears grants : Bool)
          → Keeps g (
              let cleared = if clears then record g { waiters = fifo.clear g.waiters a } else g in
              if grants then drop_lane fifo (set_granted cleared a none) else cleared)
      on true true = dropped (record g { waiters = fifo.clear g.waiters a }) refl cleared_out
      on false true = dropped g refl out
      on true false = refl
      on false false = refl

  resume-Keeps : (g : Gate Q) (a t : ℕ) → i ≢ a → Keeps g (resume fifo g a t).1
  unfolding resume
  resume-Keeps g a t ne =
      on (is_target (g.granted a) t) (leb g.lanes g.active) (is_target (fifo.get g.waiters a) t)
    where
      on :
          (grants full clears : Bool)
          → let r : Bool × Gate Q =
              if grants then (true, set_granted g a none) else if full then (false, g) else (
                true,
                record (if clears then record g { waiters = fifo.clear g.waiters a } else g) {
                  active = g.active + 1;
                },
              ) in
            Keeps g (r.1)
      on true full clears = set_granted-Keeps g a none ne
      on false true clears = refl
      on false false true = refl
      on false false false = refl

  pub acquire-Keeps :
      (g : Gate Q) (a : ℕ) (phase : Phase)
      → i ≢ a
      → IsServed a phase (fifo.get g.waiters a) (g.granted a)
      → Keeps g (acquire fifo g phase).1
  unfolding acquire
  acquire-Keeps g a Phase.idle ne served = on (leb g.lanes g.active)
    where
      on :
          (full : Bool)
          → let r : Bool × Gate Q × Phase =
              if full
              then (false, g, Phase.idle)
              else (true, record g { active = g.active + 1 }, Phase.held) in
            Keeps g (r.1)
      on true = refl
      on false = refl
  acquire-Keeps g a Phase.held ne served = refl
  acquire-Keeps g a (Phase.waiting index t) ne served =
      resume-Keeps g index t (λ same. ne (same ∙ served.0))

  queued_out :
      (g : Gate Q) (a t : ℕ)
      → i ≢ a
      → fifo.get g.waiters i ≡ none
      → Keeps g (queued fifo g a t) × (fifo.get (queued fifo g a t).waiters i ≡ none)
  queued_out g a t ne out = on (is_target (fifo.get g.waiters a) t)
    where
      pushed_out : fifo.get (fifo.push g.waiters a t) i ≡ none
      pushed_out = ground (arith, ne, out, law.get-push g.waiters a t i)

      on :
          (there : Bool)
          → let r : Gate Q = if there then g else record g { waiters = fifo.push g.waiters a t } in
            Keeps g r × (fifo.get r.waiters i ≡ none)
      on true = (refl, out)
      on false = (refl, pushed_out)

  enqueue-Keeps :
      (g : Gate Q) (a t : ℕ) (phase : Phase)
      → i ≢ a
      → fifo.get g.waiters i ≡ none
      → IsServed a phase (fifo.get g.waiters a) (g.granted a)
      → KeepsSome g (enqueue fifo g phase a t)
  unfolding enqueue
  enqueue-Keeps g a t phase ne out served = elim (Bool-cases (fifo.has_entry g.waiters a)) [
    | inl inside ↦ rw inside (at phase served)
    | inr outside ↦ rw outside tt
  ]
    where
      same : Keeps g (queued fifo g a t) × (fifo.get (queued fifo g a t).waiters i ≡ none)
      same = queued_out g a t ne out

      at :
          (phase : Phase)
          → IsServed a phase (fifo.get g.waiters a) (g.granted a)
          → KeepsSome g (elim phase [
            | Phase.waiting old was ↦
                some (cancel fifo (queued fifo g a t) old was, Phase.waiting a t)
            | _ ↦ some (queued fifo g a t, Phase.waiting a t)
          ])
      at Phase.idle served = same.0
      at Phase.held served = same.0
      at (Phase.waiting old was) served =
          cancel-Keeps (queued fifo g a t) old was (λ e. ne (e ∙ served.0)) (same.1) ∙ same.0

  pub wait-Keeps :
      (g : Gate Q) (a t : ℕ) (phase : Phase)
      → i ≢ a
      → fifo.get g.waiters i ≡ none
      → IsServed a phase (fifo.get g.waiters a) (g.granted a)
      → KeepsSome g (wait fifo g phase a t)
  unfolding wait
  wait-Keeps g a t Phase.held ne out served = refl
  wait-Keeps g a t Phase.idle ne out served = enqueue-Keeps g a t Phase.idle ne out served
  wait-Keeps g a t (Phase.waiting old was) ne out served =
      elim (Bool-cases (old == a && was == t)) [
        | inl e ↦ rw e refl
        | inr e ↦ rw e (enqueue-Keeps g a t (Phase.waiting old was) ne out served)
      ]

  pub release_access-Keeps :
      (g : Gate Q) (a : ℕ) (phase : Phase)
      → i ≢ a
      → fifo.get g.waiters i ≡ none
      → IsServed a phase (fifo.get g.waiters a) (g.granted a)
      → Keeps g (release_access fifo g phase).0
  unfolding release_access
  release_access-Keeps g a Phase.idle ne out served = refl
  release_access-Keeps g a Phase.held ne out served = drop_lane-Keeps g out
  release_access-Keeps g a (Phase.waiting index t) ne out served =
      cancel-Keeps g index t (λ e. ne (e ∙ served.0)) out
