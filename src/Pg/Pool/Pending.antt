-- ===== src/Pg/Pool/Pending.antt =====
-- How many Syncs a connection waits for.
use cartel.Base.{
  ℕ, Bool, Result, List, ◌≡◌, ◌+◌, ◌%◌, ◌<◌, ◌∷◌, zero, suc, u64_size, if◌then◌else◌, arith, ap,
  refl, ok, err, [], true, false, ◌>>=◌, ◌≤◌, u32_size, length,
}
use cartel.Pg.Pool.{Boundary, Error, Ids}
use cartel.Pg.Pool.Sync.{Sync, next_batch, try_next}
use cartel.Pg.Pool.Phases.{Phase, get}
use cartel.Pg.Pool.Slot.{
  Permit, Settle, Slot, commit, permit, sends_sync, settled, try_finish, try_reply, finish_at,
  pending_max,
}
use cartel.Pg.Pool.Life.{Flush, flush, flush_at, is_of, settle, settle_in}

-- what a connection that stays open is used for
pub data Act (K : Type 0) : Type 0 where
  replies : Boundary → Act K
  copies : Act K
  flushes settles : (token : K) → Act K

-- the permit of a reply, a copy or a flush
pub data Grant : Type 0 where
  refused : Grant
  granted : Permit → Grant

abbrev pub granted_by : Result Error Permit → Grant
granted_by (ok p) = Grant.granted p
granted_by (err e) = Grant.refused

abbrev pub granted_of : Flush → Grant
granted_of Flush.idle = Grant.refused
granted_of (Flush.pending p) = Grant.granted p

abbrev pub applied : Settle → ℕ
applied Settle.applied = 1
applied _ = 0

-- the Syncs that are sent and those that are answered, and the slot
abbrev pub Account : (K T F : Type 0) → Type 0
Account K T F = (ℕ × ℕ) × Slot K T F

unfoldable pub used : {K T F : Type 0} → Slot K T F → Grant → Account K T F
unfolding commit
used s Grant.refused = ((0, 0), s)
used s (Grant.granted p) = ((if sends_sync p.boundary then 1 else 0, 0), (commit p s).1)

module _ {K T F : Type 0} (ids : Ids K) where
  unfoldable pub act : Act K → Slot K T F → Account K T F
  unfolding try_reply try_finish flush settle used
  act (Act.replies boundary) s = used s (granted_by (try_reply s boundary))
  act Act.copies s = used s (granted_by (try_finish s))
  act (Act.flushes token) s = used s (granted_of (flush ids s token))
  act (Act.settles token) s = ((0, applied (settle ids s token).0), (settle ids s token).1)

  -- the sums over several
  unfoldable pub act_all : List (Act K) → Slot K T F → Account K T F
  unfolding act
  act_all [] s = ((0, 0), s)
  act_all (a ∷ acts) s =
      let ((sent, answered), t) = act a s in
      let ((sent', answered'), u) = act_all acts t in ((sent + sent', answered + answered'), u)

  -- the accounts of a slot
  abbrev pub IsAccount : Slot K T F → Account K T F → Type 0
  IsAccount s r =
      ((r.1).pending + (r.0).1 ≡ s.pending + (r.0).0)
      × ((r.1).batch ≡ (s.batch + (r.0).0) % u64_size)

  -- a permit that the slot gave out, for its current batch
  abbrev IsCurrent : Slot K T F → Grant → Type 0
  IsCurrent s Grant.refused = Unit {0}
  IsCurrent s (Grant.granted p) = p.current ≡ s.batch

  -- a batch and a count within their bounds
  abbrev Fits : Slot K T F → Type 0
  Fits s = (s.batch < u64_size) × (s.pending ≤ pending_max)

  -- an account of at most one Sync
  abbrev pub IsStep : Slot K T F → Account K T F → Type 0
  IsStep s r = IsAccount s r × ((r.0).0 ≤ 1)

  used-IsStep : (s : Slot K T F) (g : Grant) → Fits s → IsCurrent s g → IsStep s (used s g)
  unfolding used commit
  used-IsStep s Grant.refused (fits, room) same = ((refl, omega arith), omega arith)
  used-IsStep s (Grant.granted p) (fits, room) same = on (sends_sync p.boundary)
    where
      on :
          (b : Bool)
          → IsStep s (
            (if b then 1 else 0, 0),
            if b
                then record s {
                  sync = p.next;
                  batch = next_batch p.current;
                  pending = (s.pending + 1) % u32_size;
                }
                else record s { sync = p.next },
          )
      on true = ((omega arith, ap (λ n. (n + 1) % u64_size) same), omega arith)
      on false = ((refl, omega arith), omega arith)

  settle-IsAccount :
      (s : Slot K T F) (token : K)
      → s.batch < u64_size
      → IsAccount s ((0, applied (settle ids s token).0), (settle ids s token).1)
  unfolding settle
  settle-IsAccount s token fits = on (get s.phase)
    where
      counted :
          (n : ℕ) → s.pending ≡ n → IsAccount s ((0, applied (settled s n).0), (settled s n).1)
      counted zero h = (refl, omega arith)
      counted (suc n) h = (omega (arith, h), omega arith)

      owned :
          (b : Bool)
          → IsAccount s (
            (0, applied (if b then settled s s.pending else (Settle.stale, s)).0),
            (if b then settled s s.pending else (Settle.stale, s)).1,
          )
      owned true = counted s.pending refl
      owned false = (refl, omega arith)

      closing :
          (b : Bool) → IsAccount s ((0, applied (if b then Settle.closing else Settle.stale)), s)
      closing true = (refl, omega arith)
      closing false = (refl, omega arith)

      on :
          (p : Phase K T F)
          → IsAccount s ((0, applied (settle_in ids p s token).0), (settle_in ids p s token).1)
      on (Phase.ready b a) = owned (is_of ids b token)
      on (Phase.closing b f d) = closing (is_of ids b token)
      on Phase.vacant = (refl, omega arith)
      on Phase.uninit = (refl, omega arith)
      on (Phase.handshaking b) = (refl, omega arith)

  reply-IsCurrent :
      (s : Slot K T F) (boundary : Boundary) → IsCurrent s (granted_by (try_reply s boundary))
  unfolding try_reply
  reply-IsCurrent s boundary = on (try_next s.sync boundary)
    where
      on :
          (r : Result Error Sync)
          → IsCurrent s (granted_by (r >>= λ next. ok (permit s next boundary)))
      on (ok next) = refl
      on (err e) = tt

  finish-IsCurrent : (s : Slot K T F) → IsCurrent s (granted_by (try_finish s))
  unfolding try_finish
  finish-IsCurrent s = on s.sync
    where
      on : (x : Sync) → IsCurrent s (granted_by (finish_at s x))
      on Sync.synced = tt
      on (Sync.automatic depth) = tt
      on (Sync.explicit depth) = refl

  flush-IsCurrent : (s : Slot K T F) (token : K) → IsCurrent s (granted_of (flush ids s token))
  unfolding flush
  flush-IsCurrent s token = on (get s.phase)
    where
      at : (x : Sync) → IsCurrent s (granted_of (flush_at s x))
      at Sync.synced = tt
      at (Sync.automatic depth) = refl
      at (Sync.explicit depth) = tt

      owned : (b : Bool) → IsCurrent s (granted_of (if b then flush_at s s.sync else Flush.idle))
      owned true = at s.sync
      owned false = tt

      on :
          (p : Phase K T F)
          → IsCurrent s (
              granted_of (elim p as (λ _. Flush) [
                | Phase.ready b a ↦ if is_of ids b token then flush_at s s.sync else Flush.idle
                | _ ↦ Flush.idle
              ]))
      on (Phase.ready b a) = owned (is_of ids b token)
      on Phase.vacant = tt
      on Phase.uninit = tt
      on (Phase.handshaking b) = tt
      on (Phase.closing b f d) = tt

  act-IsStep : (a : Act K) (s : Slot K T F) → Fits s → IsStep s (act a s)
  unfolding act
  act-IsStep (Act.replies boundary) s fits =
      used-IsStep s (granted_by (try_reply s boundary)) fits (reply-IsCurrent s boundary)
  act-IsStep Act.copies s fits = used-IsStep s (granted_by (try_finish s)) fits (finish-IsCurrent s)
  act-IsStep (Act.flushes token) s fits =
      used-IsStep s (granted_of (flush ids s token)) fits (flush-IsCurrent s token)
  act-IsStep (Act.settles token) s fits = (settle-IsAccount s token (fits.0), omega arith)

  -- every Sync that is sent finds room in the count, up to the bound of its type
  unfoldable pub HasRoom : List (Act K) → Slot K T F → Type 0
  HasRoom [] s = s.pending ≤ pending_max
  HasRoom (a ∷ acts) s = (s.pending + ((act a s).0).0 ≤ pending_max) × HasRoom acts ((act a s).1)

  -- few enough acts have room
  pub length-HasRoom :
      (acts : List (Act K)) (s : Slot K T F)
      → s.batch < u64_size
      → s.pending + length acts ≤ pending_max
      → HasRoom acts s
  unfolding HasRoom
  length-HasRoom [] s fits few = omega arith
  length-HasRoom (a ∷ acts) s fits few =
      let ((waits, batch), once) = act-IsStep a s (fits, omega arith) in
      (
        omega (arith, once, few),
        length-HasRoom acts ((act a s).1) (omega (arith, batch)) (omega (arith, waits, once, few)),
      )
