-- ===== src/Resp/Gate/Wakes.antt =====
-- No access sleeps on a free lane, and the one that a dropped lane is handed to gets it.
use cartel.Base.{
  if◌then◌else◌, ℕ, refl, none, some, true, false, inl, inr, ◌≡◌, Bool, Option, Bool-cases, ◌≤◌,
  sym, ◌∙◌, arith, leb, ◌==◌, ◌&&◌,
}
use cartel.Resp.Gate.{
  Fifo, Gate, Phase, acquire, cancel, drop_lane, enqueue, is_target, queued, wait, release_access,
  without, resume,
}
use cartel.Resp.Gate.Charges.{IsFifo}

module _ {Q : Type 0} (fifo : Fifo Q) where
  -- While an access is queued, all lanes are taken.
  abbrev pub IsQuiet : Gate Q → Type 0
  IsQuiet g = (j t : ℕ) → fifo.get g.waiters j ≡ some t → g.lanes ≤ g.active

module _ {Q : Type 0} (fifo : Fifo Q) (law : IsFifo fifo) where
  none_after : (b : Bool) {o : Option ℕ} {t : ℕ} → (if b then none else o) ≡ some t → o ≡ some t
  none_after true e = absurd (cc)
  none_after false e = e

  pub drop_lane-IsQuiet : (g : Gate Q) → IsQuiet fifo g → IsQuiet fifo (drop_lane fifo g)
  unfolding drop_lane
  drop_lane-IsQuiet g quiet = at (fifo.next g.waiters) refl
    where
      at : (o : Option ((ℕ × ℕ) × Q)) → fifo.next g.waiters ≡ o → IsQuiet fifo (drop_lane fifo g)
      at none e =
          rw (e, drop_lane) (λ j t h. let empty = law.get-next_none g.waiters j e in absurd (cc))
      at (some ((i, t), q)) e =
          rw (e, drop_lane)
            (λ j u h. quiet j u (none_after _ (sym ((law.get-next g.waiters e).1 j) ∙ h)))

  without-IsQuiet : (g : Gate Q) (i t : ℕ) → IsQuiet fifo g → IsQuiet fifo (without fifo g i t)
  without-IsQuiet g i t quiet = elim (Bool-cases (is_target (fifo.get g.waiters i) t)) [
    | inl e ↦ rw e (λ j u h. quiet j u (none_after _ (sym (law.get-clear g.waiters i j) ∙ h)))
    | inr e ↦ rw e quiet
  ]

  cancel-IsQuiet : (g : Gate Q) (i t : ℕ) → IsQuiet fifo g → IsQuiet fifo (cancel fifo g i t)
  unfolding cancel
  cancel-IsQuiet g i t quiet = elim (Bool-cases (is_target (g.granted i) t)) [
    | inl e ↦ rw e (drop_lane-IsQuiet _ (without-IsQuiet g i t quiet))
    | inr e ↦ rw e (without-IsQuiet g i t quiet)
  ]

  queued-IsQuiet : (g : Gate Q) (i t : ℕ) → g.lanes ≤ g.active → IsQuiet fifo (queued fifo g i t)
  queued-IsQuiet g i t full = elim (Bool-cases (is_target (fifo.get g.waiters i) t)) [
    | inl e ↦ rw e (λ j u h. full)
    | inr e ↦ rw e (λ j u h. full)
  ]

  active-without : (g : Gate Q) (i t : ℕ) → (without fifo g i t).active ≡ g.active
  active-without g i t = ground arith

  lanes-without : (g : Gate Q) (i t : ℕ) → (without fifo g i t).lanes ≡ g.lanes
  lanes-without g i t = ground arith

  resume-IsQuiet : (g : Gate Q) (i t : ℕ) → IsQuiet fifo g → IsQuiet fifo ((resume fifo g i t).1)
  unfolding resume
  resume-IsQuiet g i t quiet = elim (Bool-cases (is_target (g.granted i) t)) [
    | inl e ↦ rw e quiet
    | inr e ↦ elim (Bool-cases (leb g.lanes g.active)) [
      | inl full ↦ rw (e, full) quiet
      | inr room ↦
          rw (e, room)
            (λ j u h.
              let before = without-IsQuiet g i t quiet j u h in
              omega (arith, before, active-without g i t))
    ]
  ]

  pub acquire-IsQuiet :
      (g : Gate Q) (phase : Phase) → IsQuiet fifo g → IsQuiet fifo ((acquire fifo g phase).1)
  unfolding acquire
  acquire-IsQuiet g Phase.idle quiet = elim (Bool-cases (leb g.lanes g.active)) [
    | inl full ↦ rw full quiet
    | inr room ↦ rw room (λ j u h. omega (arith, quiet j u h))
  ]
  acquire-IsQuiet g Phase.held quiet = quiet
  acquire-IsQuiet g (Phase.waiting i t) quiet = resume-IsQuiet g i t quiet

  pub release_access-IsQuiet :
      (g : Gate Q) (phase : Phase) → IsQuiet fifo g → IsQuiet fifo ((release_access fifo g phase).0)
  unfolding release_access
  release_access-IsQuiet g Phase.idle quiet = quiet
  release_access-IsQuiet g Phase.held quiet = drop_lane-IsQuiet g quiet
  release_access-IsQuiet g (Phase.waiting i t) quiet = cancel-IsQuiet g i t quiet

  abbrev pub Settled : Option (Gate Q × Phase) → Type 0
  Settled none = Unit {0}
  Settled (some (g, phase)) = IsQuiet fifo g

  enqueue-IsQuiet :
      (g : Gate Q) (phase : Phase) (i t : ℕ)
      → g.lanes ≤ g.active
      → Settled (enqueue fifo g phase i t)
  unfolding enqueue
  enqueue-IsQuiet g phase i t full = elim (Bool-cases (fifo.has_entry g.waiters i)) [
    | inl inside ↦ rw inside (at phase)
    | inr outside ↦ rw outside tt
  ]
    where
      at :
          (p : Phase)
          → Settled (elim p [
            | Phase.waiting old was ↦
                some (cancel fifo (queued fifo g i t) old was, Phase.waiting i t)
            | _ ↦ some (queued fifo g i t, Phase.waiting i t)
          ])
      at Phase.idle = queued-IsQuiet g i t full
      at Phase.held = queued-IsQuiet g i t full
      at (Phase.waiting old was) =
          cancel-IsQuiet (queued fifo g i t) old was (queued-IsQuiet g i t full)

  pub wait-IsQuiet :
      (g : Gate Q) (phase : Phase) (i t : ℕ)
      → IsQuiet fifo g
      → g.lanes ≤ g.active
      → Settled (wait fifo g phase i t)
  unfolding wait
  wait-IsQuiet g Phase.idle i t quiet full = enqueue-IsQuiet g Phase.idle i t full
  wait-IsQuiet g Phase.held i t quiet full = quiet
  wait-IsQuiet g (Phase.waiting old was) i t quiet full = elim (Bool-cases (old == i && was == t)) [
    | inl same ↦ rw same quiet
    | inr moves ↦ rw moves (enqueue-IsQuiet g (Phase.waiting old was) i t full)
  ]
