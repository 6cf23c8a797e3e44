-- ===== src/Pg/Pool/Uses.antt =====
-- What transactions do to a slot, and how the generations of its accesses grow.
use mathlib.Core.Path.{subst}
use native.Mathlib.Decide.{dec_lt}
use cartel.Base.{
  ℕ, Bool, List, ◌≡◌, ◌+◌, ◌≤◌, ◌<◌, ◌%◌, ◌==◌, u64_size, arith, sym, refl, none, some, true, false,
  [], if◌then◌else◌, ◌∷◌, not,
}
use cartel.Pg.Pool.{Ids}
use cartel.Pg.Pool.Phases.{Access, Bound, Phase, get}
use cartel.Pg.Pool.Slot.{Slot}
use cartel.Pg.Pool.Life.{Transaction, is_of}
use cartel.Pg.Pool.Turns.{
  Current, Reserved, activate, current, finalize, finish, release, reserve, reserve_in,
  reserve_next, with_access, current_of, current_in,
}
use cartel.Pg.Pool.Ready.Reserves.{get-set_access}

-- what transactions do to a slot
pub data Use (K : Type 0) : Type 0 where
  reserves : Use K
  activates releases finishes : (token : K) → Use K
  finalizes : Transaction K → Use K

-- the slot behind a reservation
abbrev pub reserved_slot : {K T F : Type 0} → Slot K T F → Reserved K T F → Slot K T F
reserved_slot s Reserved.unlisted = s
reserved_slot s (Reserved.exhausted t) = t
reserved_slot s (Reserved.reserved id t) = t

abbrev pub activated : {K T F : Type 0} → Slot K T F → Current K → Slot K T F
activated s (Current.reserved id) = activate s id
activated s _ = s

abbrev pub released : {K T F : Type 0} → Slot K T F → Current K → Slot K T F
released s (Current.reserved id) = release s id
released s _ = s

abbrev pub finished : {K T F : Type 0} → Slot K T F → Current K → Slot K T F
finished s (Current.finalizing id) = finish s id
finished s _ = s

-- an access behind a generation
abbrev pub IsPast : (g : ℕ) → Access → Type 0
IsPast g (Access.shared q) = (g ≤ q) × (q < u64_size)
IsPast g (Access.reserved q) = (g < q) × (q < u64_size)
IsPast g (Access.held q) = (g < q) × (q < u64_size)
IsPast g (Access.finalizing q) = (g ≤ q) × (q < u64_size)
IsPast g Access.draining = Unit {0}

-- the next number, unless it wraps
wrap_lem :
    (g q : ℕ)
    → ((q + 1) % u64_size == 0) ≡ false
    → g ≤ q
    → q < u64_size
    → (g < (q + 1) % u64_size) × ((q + 1) % u64_size < u64_size)
wrap_lem g q z le lt = elim (dec_lt (q + 1) u64_size) [
  | yes small ↦ (omega arith, omega arith)
  | no big ↦ absurd (ground (arith, z))
]

module _ {K T F : Type 0} (ids : Ids K) where
  -- one use, by the proofs that the slot gives out
  unfoldable pub use_slot : Use K → Slot K T F → Slot K T F
  unfolding reserve current finalize
  use_slot Use.reserves s = reserved_slot s (reserve s)
  use_slot (Use.activates token) s = activated s (current ids s token)
  use_slot (Use.releases token) s = released s (current ids s token)
  use_slot (Use.finishes token) s = finished s (current ids s token)
  use_slot (Use.finalizes id) s = (finalize ids s id).1

  unfoldable pub use_all : List (Use K) → Slot K T F → Slot K T F
  unfolding use_slot
  use_all [] s = s
  use_all (u ∷ us) s = use_all us (use_slot u s)

  abbrev pub IsPastPhase : (g : ℕ) → Phase K T F → Type 0
  IsPastPhase g (Phase.ready b a) = IsPast g a
  IsPastPhase g _ = Unit {0}

  -- a new access behind the generation
  pub past_access :
      (g : ℕ) (s : Slot K T F) (b : Bound K T) (a a' : Access)
      → get s.phase ≡ Phase.ready b a
      → IsPast g a'
      → IsPastPhase g (get (with_access s a').phase)
  past_access g s b a a' is past = subst (IsPastPhase g) (sym (get-set_access s.phase a' is)) past

  pub reserve-IsPast :
      (g : ℕ) (s : Slot K T F)
      → IsPastPhase g (get s.phase)
      → IsPastPhase g (get (reserved_slot s (reserve s)).phase)
  unfolding reserve
  reserve-IsPast g s past = on (get s.phase) refl past
    where
      next :
          (b : Bound K T) (q : ℕ) (zero_next : Bool)
          → ((q + 1) % u64_size == 0) ≡ zero_next
          → get s.phase ≡ Phase.ready b (Access.shared q)
          → (g ≤ q) × (q < u64_size)
          → IsPastPhase g (
              get
                (reserved_slot s
                  (reserve_next s b (if zero_next then none else some ((q + 1) % u64_size)))).phase)
      next b q true z is past = past_access g s b (Access.shared q) Access.draining is tt
      next b q false z is (le, lt) =
          past_access g s b (Access.shared q) (Access.reserved ((q + 1) % u64_size)) is
            (wrap_lem g q z le lt)

      on :
          (p : Phase K T F)
          → get s.phase ≡ p
          → IsPastPhase g p
          → IsPastPhase g (get (reserved_slot s (reserve_in p s)).phase)
      on (Phase.ready b (Access.shared q)) is past = next b q ((q + 1) % u64_size == 0) refl is past
      on (Phase.ready b (Access.reserved q)) is past = subst (IsPastPhase g) (sym is) past
      on (Phase.ready b (Access.held q)) is past = subst (IsPastPhase g) (sym is) past
      on (Phase.ready b (Access.finalizing q)) is past = subst (IsPastPhase g) (sym is) past
      on (Phase.ready b Access.draining) is past = subst (IsPastPhase g) (sym is) past
      on Phase.vacant is past = subst (IsPastPhase g) (sym is) past
      on Phase.uninit is past = subst (IsPastPhase g) (sym is) past
      on (Phase.handshaking b) is past = subst (IsPastPhase g) (sym is) past
      on (Phase.closing b f d) is past = subst (IsPastPhase g) (sym is) past

  -- a use by the proof that the slot gives out
  pub current-IsPast :
      (g : ℕ) (s : Slot K T F) (token : K) (f : Current K → Slot K T F)
      → IsPastPhase g (get s.phase)
      → ((b : Bound K T) (a : Access)
          → get s.phase ≡ Phase.ready b a
          → IsPast g a
          → IsPastPhase g (get (f (current_of a token)).phase))
      → f Current.stale ≡ s
      → f Current.handshaking ≡ s
      → f Current.closing ≡ s
      → IsPastPhase g (get (f (current ids s token)).phase)
  unfolding current
  current-IsPast g s token f past ready stale handshaking closing = on (get s.phase) refl past
    where
      unmoved : {c : Current K} → f c ≡ s → IsPastPhase g (get (f c).phase)
      unmoved same = subst (λ t. IsPastPhase g (get t.phase)) (sym same) past

      on :
          (p : Phase K T F)
          → get s.phase ≡ p
          → IsPastPhase g p
          → IsPastPhase g (get (f (current_in ids p token)).phase)
      on (Phase.ready b a) is here = owned (is_of ids b token)
        where
          owned :
              (own : Bool)
              → IsPastPhase g
                  (get (f (if not own then Current.stale else current_of a token)).phase)
          owned true = ready b a is here
          owned false = unmoved stale
      on (Phase.handshaking b) is here = owned (is_of ids b token)
        where
          owned :
              (own : Bool)
              → IsPastPhase g (get (f (if own then Current.handshaking else Current.stale)).phase)
          owned true = unmoved handshaking
          owned false = unmoved stale
      on (Phase.closing b x d) is here = owned (is_of ids b token)
        where
          owned :
              (own : Bool)
              → IsPastPhase g (get (f (if own then Current.closing else Current.stale)).phase)
          owned true = unmoved closing
          owned false = unmoved stale
      on Phase.vacant is here = unmoved stale
      on Phase.uninit is here = unmoved stale
