-- ===== src/Pg/Pool/Tests.antt =====
-- A connection of the pool at work.
use cartel.Base.{ℕ, ◌≡◌, ◌≢◌, ◌∷◌, ◌==◌, arith, refl, some, false, [], List}
use cartel.Pg.Pool.{Boundary, Disposition, Ids}
use cartel.Pg.Pool.Sync.{Sync, try_next}
use cartel.Pg.Pool.Phases.{Access, Bound, Lifecycle, Phase, get, set_phase}
use cartel.Pg.Pool.Slot.{Slot, slot_new}
use cartel.Pg.Pool.Life.{Closed, Transaction, closing_slot, try_close}
use cartel.Pg.Pool.Turns.{Finalization, finalize}
use cartel.Pg.Pool.Owes.{Owes, try_all, try_all-Owes}
use cartel.Pg.Pool.Once.{finalize_once}
use cartel.Pg.Pool.Uses.{Use, use_all}
use cartel.Pg.Pool.Closings.{close_all, close_all-worst, worst}
use cartel.Pg.Pool.Pending.{Act}

abbrev numbers : Ids ℕ
numbers = record { index = λ k. k; equal = λ a b. a == b }

abbrev binding : Bound ℕ ℕ
binding = record { token = 3; ready = 9 }

-- the third connection, held by its first transaction
abbrev held_slot : Slot ℕ ℕ ℕ
held_slot = record slot_new {
  phase = record { bound = some binding; phase = Lifecycle.ready (Access.held 1) false };
}

abbrev first_transaction : Transaction ℕ
first_transaction = record { conn = 3; generation = 1 }

try_all-Owes_example :
    Owes (Boundary.begin ∷ Boundary.opening ∷ Boundary.opening ∷ []) (Sync.automatic 2)
unfolding try_all try_next
try_all-Owes_example =
    try_all-Owes (Boundary.begin ∷ Boundary.opening ∷ Boundary.opening ∷ []) {t = Sync.automatic 2}
      refl

finalize_once_example :
    (finalize numbers
      (use_all numbers
        (Use.finishes 3 ∷ Use.reserves ∷ Use.activates 3 ∷ [])
        ((finalize numbers held_slot first_transaction).1))
      first_transaction).0
    ≢ Finalization.pending first_transaction
unfolding finalize get
finalize_once_example =
    finalize_once numbers held_slot (Use.finishes 3 ∷ Use.reserves ∷ Use.activates 3 ∷ [])
      first_transaction first_transaction (omega arith) refl refl

abbrev causes : List (ℕ × Disposition)
causes = (6, Disposition.permanent) ∷ (7, Disposition.reconnect) ∷ []

close_all-worst_example :
    (b : Bound ℕ ℕ) × (get
        (close_all numbers 3 causes (closing_slot held_slot binding 5 Disposition.reconnect)).phase
      ≡ Phase.closing b 5 (worst Disposition.reconnect causes))
unfolding try_close get set_phase
close_all-worst_example =
    close_all-worst numbers held_slot 3 5 Disposition.reconnect causes
      {close = record { state = Closed.held first_transaction; failure = 5 }}
      {t = closing_slot held_slot binding 5 Disposition.reconnect} refl (λ e. cc)

abbrev four_acts : List (Act ℕ)
four_acts =
    Act.replies Boundary.opening ∷ Act.flushes 3 ∷ Act.replies Boundary.group ∷ Act.settles 3 ∷ []
