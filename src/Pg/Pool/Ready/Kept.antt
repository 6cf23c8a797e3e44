-- ===== src/Pg/Pool/Ready/Kept.antt =====
-- What replies, settlements and retirements do to the index.
use cartel.Pg.Pool.Sync.{next_batch}
use cartel.Base.{
  ℕ, Bool, Option, Result, ◌≡◌, sym, refl, none, some, ok, err, ap, ◌&&◌, not, zero, suc, true,
  false, if◌then◌else◌, ◌+◌, ◌%◌, u32_size,
}
use cartel.Pg.Pool.{Disposition, Error, Ids}
use cartel.Pg.Pool.Phases.{get, is_receiving, set_phase, Bound, Phase}
use cartel.Pg.Pool.Slot.{Permit, Slot, commit, settled, Settle, sends_sync}
use cartel.Pg.Pool.Life.{Flush, settle, try_retire, settle_in, is_of, retire_in}
use cartel.Pg.Pool.Ready.{Index, Links, Resident, entry, set_slot}
use cartel.Pg.Pool.Ready.Counts.{Inv, shared_of}
use cartel.Pg.Pool.Ready.Keeps.{quiet-Inv, not_free, unmoved-Inv}
use cartel.Pg.Pool.Ready.System.{permitted, flushed, retired, over_slot}
use cartel.Pg.Pool.Ready.Counts.{shared_of}

module _ {K T F L : Type 0} (hooks : Links L) (ids : Ids K) where
  -- a change of a slot that keeps its phase
  pub over_slot-Inv :
      (x : Index K T F L) (i : ℕ) (f : Slot K T F → Slot K T F)
      → ((s : Slot K T F) → (f s).phase ≡ s.phase)
      → Inv hooks x
      → Inv hooks (over_slot x i f)
  over_slot-Inv x i f keeps inv = at (entry x i) refl
    where
      at :
          (o : Option (Resident K T F))
          → entry x i ≡ o
          → Inv hooks
              (elim o as (λ _. Index K T F L) [ none ↦ x | some r ↦ set_slot x i (f r.slot) ])
      at none e = inv
      at (some r) e =
          quiet-Inv hooks i (f r.slot) (get r.slot.phase) (get r.slot.phase) inv e refl
            (ap get (keeps r.slot)) refl refl
            (sym (ap (λ p. shared_of (get p) && not (is_receiving p)) (keeps r.slot)))
            ((inv.sound i e).initialized)

  commit-phase : (p : Permit) (s : Slot K T F) → (commit p s).1.phase ≡ s.phase
  unfolding commit
  commit-phase p s = on (sends_sync p.boundary)
    where
      on :
          (b : Bool)
          → (if b
              then record s {
                sync = p.next;
                batch = next_batch p.current;
                pending = (s.pending + 1) % u32_size;
              }
              else record s { sync = p.next }).phase
            ≡ s.phase
      on true = refl
      on false = refl

  pub permitted-phase : (s : Slot K T F) (r : Result Error Permit) → (permitted s r).phase ≡ s.phase
  permitted-phase s (ok p) = commit-phase p s
  permitted-phase s (err e) = refl

  pub flushed-phase : (s : Slot K T F) (f : Flush) → (flushed s f).phase ≡ s.phase
  flushed-phase s Flush.idle = refl
  flushed-phase s (Flush.pending p) = commit-phase p s

  pub settle-phase : (s : Slot K T F) (token : K) → (settle ids s token).1.phase ≡ s.phase
  unfolding settle
  settle-phase s token = on (get s.phase)
    where
      counted : (n : ℕ) → (settled s n).1.phase ≡ s.phase
      counted zero = refl
      counted (suc n) = refl

      owned :
          (own : Bool) → (if own then settled s s.pending else (Settle.stale, s)).1.phase ≡ s.phase
      owned true = counted s.pending
      owned false = refl

      on : (p : Phase K T F) → (settle_in ids p s token).1.phase ≡ s.phase
      on (Phase.ready b a) = owned (is_of ids b token)
      on Phase.vacant = refl
      on Phase.uninit = refl
      on (Phase.handshaking b) = refl
      on (Phase.closing b f d) = refl

  pub retire-Inv :
      (x : Index K T F L) (token : K)
      → Inv hooks x
      → Inv hooks (over_slot x (ids.index token) (λ s. retired s (try_retire ids s token)))
  unfolding try_retire get set_phase is_receiving
  retire-Inv x token inv = at (entry x i) refl
    where
      i : ℕ
      i = ids.index token

      closed :
          (r : Resident K T F) (b : Bound K T) (f : F) (d : Disposition) (own : Bool)
          → entry x i ≡ some r
          → get r.slot.phase ≡ Phase.closing b f d
          → Inv hooks (
              set_slot x i (
                if own
                then record r.slot { phase = set_phase r.slot.phase Phase.vacant }
                else r.slot))
      closed r b f d true e is =
          quiet-Inv hooks i (record r.slot { phase = set_phase r.slot.phase Phase.vacant })
            (Phase.closing b f d) Phase.vacant inv e is refl refl refl (not_free r.slot is refl)
            (λ u. cc)
      closed r b f d false e is = unmoved-Inv hooks i inv e

      refused :
          (r : Resident K T F) (own : Bool) (cause : Error)
          → entry x i ≡ some r
          → Inv hooks (set_slot x i (retired r.slot (if own then err cause else ok r.slot)))
      refused r true cause e = unmoved-Inv hooks i inv e
      refused r false cause e = unmoved-Inv hooks i inv e

      on :
          (r : Resident K T F) (p : Phase K T F)
          → entry x i ≡ some r
          → get r.slot.phase ≡ p
          → Inv hooks (set_slot x i (retired r.slot (retire_in ids p r.slot token)))
      on r (Phase.closing b f d) e is = closed r b f d (is_of ids b token) e is
      on r (Phase.handshaking b) e is = refused r (is_of ids b token) _ e
      on r (Phase.ready b a) e is = refused r (is_of ids b token) _ e
      on r Phase.vacant e is = unmoved-Inv hooks i inv e
      on r Phase.uninit e is = unmoved-Inv hooks i inv e

      at :
          (o : Option (Resident K T F))
          → entry x i ≡ o
          → Inv hooks (elim o as (λ _. Index K T F L) [
            | none ↦ x
            | some r ↦ set_slot x i (retired r.slot (try_retire ids r.slot token))
          ])
      at none e = inv
      at (some r) e = on r (get r.slot.phase) e refl
