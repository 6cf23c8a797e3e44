-- ===== src/Pg/Pool/Ready/Runs.antt =====
-- Whatever happens to the index of connections keeps its counters right.
use cartel.Pg.Pool.Ready.Reserves.{Succeeds, reserve_turn-Inv}
use cartel.Pg.Pool.Ready.Opens.{index_bind-Inv, After, try_ready-Inv}
use cartel.Pg.Pool.Ready.Ends.{poll_ready-Inv}
use cartel.Pg.Pool.Ready.Finishes.{index_finalize-Inv}
use cartel.Pg.Pool.Ready.Shuts.{Closes, index_close-Inv}
use mathlib.Core.Path.{subst}
use cartel.Pg.Pool.Ready.Ranks.{reindex-Inv}
use cartel.Pg.Pool.Ready.Receives.{index_receiving-Inv}
use cartel.Pg.Pool.Ready.Stored.{made}
use cartel.Base.{
  ℕ, Option, ◌≡◌, sym, List, refl, none, some, [], ◌∷◌, zero, suc, arith, replicate, get_elem?,
}
use cartel.Pg.Pool.{Ids}
use cartel.Pg.Pool.Phases.{get, is_receiving}
use cartel.Pg.Pool.Slot.{try_finish, try_reply}
use cartel.Pg.Pool.Life.{flush, Close}
use cartel.Pg.Pool.Ready.{Index, Links, Resident, index_new, slot_new}
use cartel.Pg.Pool.Ready.Moves.{index_close, try_ready}
use cartel.Pg.Pool.Ready.Counts.{Inv, total, lives, blocks, IsSound}
use cartel.Pg.Pool.Life.{Close}
use cartel.Pg.Pool.Ready.Counts.{IsSound}
use cartel.Pg.Pool.Ready.System.{Event, perform, run, kept_or}
use cartel.Pg.Pool.Ready.Kept.{
  over_slot-Inv, permitted-phase, flushed-phase, settle-phase, retire-Inv,
}

module _ {K T F L : Type 0} (hooks : Links L) (ids : Ids K) where
  perform-Succeeds :
      (e : Event K T F) (x : Index K T F L) → Inv hooks x → Succeeds hooks (perform hooks ids e x)
  unfolding perform
  perform-Succeeds (Event.binds token target) x inv = index_bind-Inv hooks ids x token target inv
  perform-Succeeds (Event.opens token) x inv =
      on (try_ready hooks ids x token) (try_ready-Inv hooks ids x token inv)
    where
      on : (o : Option (Index K T F L)) → After hooks ids o → Inv hooks (kept_or x o)
      on none h = inv
      on (some y) h = h
  perform-Succeeds (Event.reserves index commits) x inv = reserve_turn-Inv hooks x index commits inv
  perform-Succeeds (Event.polls token status depth) x inv =
      poll_ready-Inv hooks ids x token status depth inv
  perform-Succeeds (Event.finalizes id) x inv = index_finalize-Inv hooks ids x id inv
  perform-Succeeds (Event.closes token cause fate) x inv =
      on (index_close hooks ids x token cause fate)
        (index_close-Inv hooks ids x token cause fate inv)
    where
      on :
          (o : Option (Close K F × Index K T F L))
          → Closes hooks ids o
          → Succeeds hooks (elim o [ none ↦ some x | some (close, y) ↦ some y ])
      on none h = inv
      on (some (close, y)) h = h
  perform-Succeeds (Event.reindexes token depth) x inv = reindex-Inv hooks ids x token depth inv
  perform-Succeeds (Event.receives token receiving depth) x inv =
      index_receiving-Inv hooks ids x token receiving depth inv
  perform-Succeeds (Event.retires token) x inv = retire-Inv hooks ids x token inv
  perform-Succeeds (Event.replies index boundary) x inv =
      over_slot-Inv hooks ids x index _ (λ s. permitted-phase hooks ids s (try_reply s boundary))
        inv
  perform-Succeeds (Event.copies index) x inv =
      over_slot-Inv hooks ids x index _ (λ s. permitted-phase hooks ids s (try_finish s)) inv
  perform-Succeeds (Event.flushes token) x inv =
      over_slot-Inv hooks ids x (ids.index token) _
        (λ s. flushed-phase hooks ids s (flush ids s token)) inv
  perform-Succeeds (Event.settles token) x inv =
      over_slot-Inv hooks ids x (ids.index token) _ (λ s. settle-phase hooks ids s token) inv

  run-Succeeds :
      (es : List (Event K T F)) (x : Index K T F L)
      → Inv hooks x
      → Succeeds hooks (run hooks ids es x)
  unfolding run
  run-Succeeds [] x inv = inv
  run-Succeeds (e ∷ es) x inv =
      on (perform hooks ids e x) (perform-Succeeds e x inv) (λ y h. run-Succeeds es y h)
    where
      on :
          (o : Option (Index K T F L))
          → Succeeds hooks o
          → ((y : Index K T F L) → Inv hooks y → Succeeds hooks (run hooks ids es y))
          → Succeeds hooks (elim o [ none ↦ none | some y ↦ run hooks ids es y ])
      on none h rest = h
      on (some y) h rest = rest y h

  -- an index that was just made
  index_new-Inv :
      (capacity buckets : ℕ) → Inv hooks (index_new {K = K} {T = T} {F = F} hooks capacity buckets)
  unfolding get is_receiving
  index_new-Inv capacity buckets = record {
    live = sym (idle capacity);
    blockers = sym (free capacity);
    sound = λ i e. new capacity i e;
    stored = made capacity buckets;
  }
    where
      fresh : Resident K T F
      fresh = record { slot = slot_new; priority = none }

      idle : (n : ℕ) → total lives (replicate n fresh) ≡ 0
      idle zero = refl
      idle (suc n) = omega (arith, idle n)

      free : (n : ℕ) → total blocks (replicate n fresh) ≡ 0
      free zero = refl
      free (suc n) = omega (arith, free n)

      new : (n i : ℕ) {r : Resident K T F} → get_elem? (replicate n fresh) i ≡ some r → IsSound r
      new zero i e = absurd (cc)
      new (suc n) zero {r = r} e =
          let same : fresh ≡ r = cc in
          subst IsSound same (record { listed = refl; initialized = λ u. cc })
      new (suc n) (suc i) e = new n i e

  -- Whatever happens to an index of connections from its start on: a reservation finds its connection
  -- shared, the counters are the numbers of connections that are ready and of those a transaction has
  -- reserved or holds, exactly those are listed that are ready, shared and not receiving, and no binding
  -- is read before it is written.
  pub run-Inv :
      (es : List (Event K T F)) (capacity buckets : ℕ)
      → Succeeds hooks (run hooks ids es (index_new hooks capacity buckets))
  run-Inv es capacity buckets =
      run-Succeeds es (index_new hooks capacity buckets) (index_new-Inv capacity buckets)
