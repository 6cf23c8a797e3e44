-- ===== src/Pg/Pool/Once.antt =====
-- A transaction of a connection is finalized once.
use mathlib.Core.Path.{subst}
use cartel.Base.{
  ℕ, Bool, List, ◌≡◌, ◌<◌, u64_size, arith, sym, refl, true, false, [], if◌then◌else◌, ◌∷◌, not,
  ◌≢◌,
}
use cartel.Pg.Pool.{Ids}
use cartel.Pg.Pool.Phases.{Access, Bound, Phase, get}
use cartel.Pg.Pool.Slot.{Slot}
use cartel.Pg.Pool.Life.{Transaction, is_of}
use cartel.Pg.Pool.Turns.{finalize, with_access, current_of, Finalization, holds, finalize_in}
use cartel.Pg.Pool.Uses.{
  Use, IsPast, IsPastPhase, activated, released, finished, use_slot, use_all, past_access,
  reserve-IsPast, current-IsPast,
}

module _ {K T F : Type 0} (ids : Ids K) where
  -- a finalization of a slot, by its phase and by whether the transaction holds it
  finalize_cases :
      (P : Finalization K × Slot K T F → Type 0) (s : Slot K T F) (id : Transaction K)
      → P (Finalization.lost id, s)
      → P (Finalization.reusable id, s)
      → ((b : Bound K T) (q : ℕ)
          → get s.phase ≡ Phase.ready b (Access.held q)
          → q ≡ id.generation
          → P (Finalization.pending id, with_access s (Access.finalizing id.generation)))
      → P (finalize ids s id)
  unfolding finalize
  finalize_cases P s id lost reusable pending = on (get s.phase) refl
    where
      held :
          (b : Bound K T) (a : Access) (c : Bool)
          → get s.phase ≡ Phase.ready b a
          → holds a id.generation ≡ c
          → P (
              if not c
              then (Finalization.reusable id, s)
              else (Finalization.pending id, with_access s (Access.finalizing id.generation)))
      held b a false is h = reusable
      held b (Access.held q) true is h = pending b q is (ground (arith, h))
      held b (Access.shared q) true is h = absurd (cc)
      held b (Access.reserved q) true is h = absurd (cc)
      held b (Access.finalizing q) true is h = absurd (cc)
      held b Access.draining true is h = absurd (cc)

      owned :
          (b : Bound K T) (a : Access) (own : Bool)
          → get s.phase ≡ Phase.ready b a
          → P (
              if not own
              then (Finalization.lost id, s)
              else if not (holds a id.generation)
              then (Finalization.reusable id, s)
              else (Finalization.pending id, with_access s (Access.finalizing id.generation)))
      owned b a false is = lost
      owned b a true is = held b a (holds a id.generation) is refl

      on : (p : Phase K T F) → get s.phase ≡ p → P (finalize_in ids p s id)
      on (Phase.ready b a) is = owned b a (is_of ids b id.conn) is
      on Phase.vacant is = lost
      on Phase.uninit is = lost
      on (Phase.handshaking b) is = lost
      on (Phase.closing b f d) is = lost

  use_slot-IsPast :
      (g : ℕ) (u : Use K) (s : Slot K T F)
      → IsPastPhase ids g (get s.phase)
      → IsPastPhase ids g (get (use_slot ids u s).phase)
  unfolding use_slot
  use_slot-IsPast g Use.reserves s past = reserve-IsPast ids g s past
  use_slot-IsPast g (Use.activates token) s past =
      current-IsPast ids g s token (activated s) past on refl refl refl
    where
      on :
          (b : Bound K T) (a : Access)
          → get s.phase ≡ Phase.ready b a
          → IsPast g a
          → IsPastPhase ids g (get (activated s (current_of a token)).phase)
      on b (Access.reserved q) is here =
          past_access ids g s b (Access.reserved q) (Access.held q) is here
      on b (Access.shared q) is here = past
      on b (Access.held q) is here = past
      on b (Access.finalizing q) is here = past
      on b Access.draining is here = past
  use_slot-IsPast g (Use.releases token) s past =
      current-IsPast ids g s token (released s) past on refl refl refl
    where
      on :
          (b : Bound K T) (a : Access)
          → get s.phase ≡ Phase.ready b a
          → IsPast g a
          → IsPastPhase ids g (get (released s (current_of a token)).phase)
      on b (Access.reserved q) is (lt, fits) =
          past_access ids g s b (Access.reserved q) (Access.shared q) is (omega arith, fits)
      on b (Access.shared q) is here = past
      on b (Access.held q) is here = past
      on b (Access.finalizing q) is here = past
      on b Access.draining is here = past
  use_slot-IsPast g (Use.finishes token) s past =
      current-IsPast ids g s token (finished s) past on refl refl refl
    where
      on :
          (b : Bound K T) (a : Access)
          → get s.phase ≡ Phase.ready b a
          → IsPast g a
          → IsPastPhase ids g (get (finished s (current_of a token)).phase)
      on b (Access.finalizing q) is here =
          past_access ids g s b (Access.finalizing q) (Access.shared q) is here
      on b (Access.shared q) is here = past
      on b (Access.held q) is here = past
      on b (Access.reserved q) is here = past
      on b Access.draining is here = past
  use_slot-IsPast g (Use.finalizes id) s past =
      finalize_cases (λ r. IsPastPhase ids g (get (r.1).phase)) s id past past
        (λ b q is same. past_access ids g s b (Access.held q) (Access.finalizing id.generation) is (
          let (lt, fits) = subst (IsPastPhase ids g) is past in
          (omega (arith, lt, same), omega (arith, fits, same))))

  use_all-IsPast :
      (g : ℕ) (us : List (Use K)) (s : Slot K T F)
      → IsPastPhase ids g (get s.phase)
      → IsPastPhase ids g (get (use_all ids us s).phase)
  unfolding use_all
  use_all-IsPast g [] s past = past
  use_all-IsPast g (u ∷ us) s past =
      use_all-IsPast g us (use_slot ids u s) (use_slot-IsPast g u s past)

  -- a finalization behind the generation
  finalize_stale :
      (s : Slot K T F) (id : Transaction K)
      → IsPastPhase ids id.generation (get s.phase)
      → (finalize ids s id).0 ≢ Finalization.pending id
  finalize_stale s id past =
      finalize_cases (λ r. r.0 ≢ Finalization.pending id) s id (λ e. cc) (λ e. cc)
        (λ b q is same.
          let (lt, fits) = subst (IsPastPhase ids id.generation) is past in
          absurd (omega (arith, lt, same)))

  finalize-IsPast :
      (s : Slot K T F) (id : Transaction K)
      → id.generation < u64_size
      → (finalize ids s id).0 ≡ Finalization.pending id
      → IsPastPhase ids id.generation (get (finalize ids s id).1.phase)
  finalize-IsPast s id fits =
      finalize_cases
        (λ r. r.0 ≡ Finalization.pending id → IsPastPhase ids id.generation (get (r.1).phase)) s id
        (λ e. absurd (cc)) (λ e. absurd (cc))
        (λ b q is same e.
          past_access ids id.generation s b (Access.held q) (Access.finalizing id.generation) is
            (omega arith, fits))

  -- Of a transaction whose generation is a u64: once it was finalized, then whatever transactions do to the
  -- slot, no transaction of the same generation is finalized on it again.
  pub finalize_once :
      (s : Slot K T F) (us : List (Use K)) (id later : Transaction K)
      → id.generation < u64_size
      → (finalize ids s id).0 ≡ Finalization.pending id
      → later.generation ≡ id.generation
      → (finalize ids (use_all ids us ((finalize ids s id).1)) later).0 ≢ Finalization.pending later
  finalize_once s us id later fits first same =
      finalize_stale (use_all ids us ((finalize ids s id).1)) later (
        subst (λ g. IsPastPhase ids g (get (use_all ids us ((finalize ids s id).1)).phase))
          (sym same)
          (use_all-IsPast id.generation us ((finalize ids s id).1)
            (finalize-IsPast s id fits first)))
