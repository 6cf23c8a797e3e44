-- ===== src/Pg/Pool/Ready/System.antt =====
-- The index of connections as a system: what happens to it from its start on.
use cartel.Base.{ℕ, Bool, Option, Result, List, none, some, ok, err, [], ◌∷◌}
use cartel.Pg.Pool.{Boundary, Disposition, Error, Ids}
use cartel.Pg.Pool.Slot.{Permit, Slot, commit, try_finish, try_reply}
use cartel.Pg.Pool.Life.{Flush, Transaction, flush, settle, try_retire}
use cartel.Pg.Pool.Ready.{Index, Links, entry, set_slot}
use cartel.Pg.Pool.Ready.Moves.{
  Status, index_bind, index_close, index_finalize, index_receiving, poll_ready, reindex,
  reserve_turn, try_ready,
}

-- what happens: the calls of the index, in turns, and those on one slot
pub data Event (K T F : Type 0) : Type 0 where
  binds : (token : K) → (target : T) → Event K T F
  opens : (token : K) → Event K T F
  reserves : (index : ℕ) → (commits : Bool) → Event K T F
  polls : (token : K) → Status → (depth : ℕ) → Event K T F
  finalizes : Transaction K → Event K T F
  closes : (token : K) → (cause : F) → Disposition → Event K T F
  reindexes : (token : K) → (depth : ℕ) → Event K T F
  receives : (token : K) → (receiving : Bool) → (depth : ℕ) → Event K T F
  retires : (token : K) → Event K T F
  replies : (index : ℕ) → Boundary → Event K T F
  copies : (index : ℕ) → Event K T F
  flushes : (token : K) → Event K T F
  settles : (token : K) → Event K T F

-- the slot behind a permit, or the one that was refused it
abbrev pub permitted : {K T F : Type 0} → Slot K T F → Result Error Permit → Slot K T F
permitted s (ok p) = (commit p s).1
permitted s (err e) = s

abbrev pub flushed : {K T F : Type 0} → Slot K T F → Flush → Slot K T F
flushed s Flush.idle = s
flushed s (Flush.pending p) = (commit p s).1

-- the slot that a retirement leaves
abbrev pub retired : {K T F : Type 0} → Slot K T F → Result Error (Slot K T F) → Slot K T F
retired s (ok left) = left
retired s (err e) = s

-- what stays if a call fails
abbrev pub kept_or : {A : Type 0} → A → Option A → A
kept_or x none = x
kept_or x (some y) = y

module _ {K T F L : Type 0} where
  -- the index behind a change of one slot
  abbrev pub over_slot : Index K T F L → (index : ℕ) → (Slot K T F → Slot K T F) → Index K T F L
  over_slot x index f = elim (entry x index) [ none ↦ x | some r ↦ set_slot x index (f r.slot) ]

  module _ (hooks : Links L) (ids : Ids K) where
    -- what an event does; `none` is an `unreachable!` of the source
    unfoldable pub perform : Event K T F → Index K T F L → Option (Index K T F L)
    unfolding index_bind try_ready poll_ready index_finalize index_close reindex index_receiving
        try_retire try_reply try_finish commit flush settle
    perform (Event.binds token target) x = some (index_bind hooks ids x token target)
    perform (Event.opens token) x = some (kept_or x (try_ready hooks ids x token))
    perform (Event.reserves index commits) x = reserve_turn hooks x index commits
    perform (Event.polls token status depth) x =
        some ((poll_ready hooks ids x token status depth).1)
    perform (Event.finalizes id) x = some ((index_finalize hooks ids x id).1)
    perform (Event.closes token cause fate) x = elim (index_close hooks ids x token cause fate) [
      | none ↦ some x
      | some (close, y) ↦ some y
    ]
    perform (Event.reindexes token depth) x = some ((reindex hooks ids x token depth).1)
    perform (Event.receives token receiving depth) x =
        some ((index_receiving hooks ids x token receiving depth).1)
    perform (Event.retires token) x =
        some (over_slot x (ids.index token) (λ s. retired s (try_retire ids s token)))
    perform (Event.replies index boundary) x =
        some (over_slot x index (λ s. permitted s (try_reply s boundary)))
    perform (Event.copies index) x = some (over_slot x index (λ s. permitted s (try_finish s)))
    perform (Event.flushes token) x =
        some (over_slot x (ids.index token) (λ s. flushed s (flush ids s token)))
    perform (Event.settles token) x =
        some (over_slot x (ids.index token) (λ s. (settle ids s token).1))

    -- what events do, one behind the other
    unfoldable pub run : List (Event K T F) → Index K T F L → Option (Index K T F L)
    unfolding perform
    run [] x = some x
    run (e ∷ es) x = elim (perform e x) [ none ↦ none | some y ↦ run es y ]
