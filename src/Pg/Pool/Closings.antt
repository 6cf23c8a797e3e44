-- ===== src/Pg/Pool/Closings.antt =====
-- Closing a connection again keeps the first cause, and only makes the end more final.
use mathlib.Core.Path.{subst}
use cartel.Base.{
  Bool, Option, List, ◌≡◌, ◌≢◌, ◌∷◌, ap, ◌∙◌, refl, none, some, true, false, [], if◌then◌else◌,
}
use cartel.Pg.Pool.{Disposition, Ids}
use cartel.Pg.Pool.Phases.{Bound, Phase, get, set_phase}
use cartel.Pg.Pool.Slot.{Slot}
use cartel.Pg.Pool.Life.{
  Close, Closed, close_in, closed_as, closing_slot, is_of, later_fate, try_close,
}

-- the slot behind a close, if it took one
abbrev pub closed_slot :
    {K T F : Type 0} → Slot K T F → Option (Close K F × Slot K T F) → Slot K T F
closed_slot s none = s
closed_slot s (some (close, t)) = t

-- the disposition of several closes: permanent if one of them is
abbrev pub worst : {F : Type 0} → Disposition → List (F × Disposition) → Disposition
worst fate [] = fate
worst fate ((cause, Disposition.permanent) ∷ causes) = Disposition.permanent
worst fate ((cause, Disposition.reconnect) ∷ causes) = worst fate causes

worst_permanent :
    {F : Type 0} (causes : List (F × Disposition))
    → worst Disposition.permanent causes ≡ Disposition.permanent
worst_permanent [] = refl
worst_permanent ((cause, Disposition.permanent) ∷ causes) = refl
worst_permanent ((cause, Disposition.reconnect) ∷ causes) = worst_permanent causes

module _ {K T F : Type 0} (ids : Ids K) where
  -- closes, one behind the other
  unfoldable pub close_all : K → List (F × Disposition) → Slot K T F → Slot K T F
  unfolding try_close
  close_all token [] s = s
  close_all token ((cause, fate) ∷ causes) s =
      close_all token causes (closed_slot s (try_close ids s token cause fate))

  -- closes of a connection that is closing
  close_all_closing :
      (token : K) (causes : List (F × Disposition)) (s : Slot K T F) (b : Bound K T) (f : F)
      (d : Disposition)
      → is_of ids b token ≡ true
      → get s.phase ≡ Phase.closing b f d
      → get (close_all token causes s).phase ≡ Phase.closing b f (worst d causes)
  unfolding close_all try_close get set_phase
  close_all_closing token [] s b f d own is = is
  close_all_closing token ((cause, fate) ∷ causes) s b f d own is =
      let next : get (closed_slot s (try_close ids s token cause fate)).phase
          ≡ Phase.closing b f (later_fate fate d) =
        rw (is, own) refl in
      close_all_closing token causes (closed_slot s (try_close ids s token cause fate)) b f
        (later_fate fate d) own next
      ∙ ap (λ e. Phase.closing b f e) (on fate)
    where
      on :
          (fate : Disposition) → worst (later_fate fate d) causes ≡ worst d ((cause, fate) ∷ causes)
      on Disposition.permanent = worst_permanent causes
      on Disposition.reconnect = refl

  -- what the first close of a connection leaves
  abbrev Closes : K → (cause : F) → Disposition → Option (Close K F × Slot K T F) → Type 0
  Closes token cause fate none = Unit {0}
  Closes token cause fate (some (close, s)) =
      close.state ≢ Closed.closing
      → (b : Bound K T) × ((is_of ids b token ≡ true) × (get s.phase ≡ Phase.closing b cause fate))

  try_close-Closes :
      (s : Slot K T F) (token : K) (cause : F) (fate : Disposition)
      → Closes token cause fate (try_close ids s token cause fate)
  unfolding try_close get set_phase
  try_close-Closes s token cause fate = on (get s.phase)
    where
      owned :
          (b : Bound K T) (own : Bool) (state : Closed K)
          → is_of ids b token ≡ own
          → Closes token cause fate (
              if own
              then some (record { state = state; failure = cause }, closing_slot s b cause fate)
              else none)
      owned b true state h = λ first. (b, (h, refl))
      owned b false state h = tt

      again :
          (b : Bound K T) (f : F) (d : Disposition) (own : Bool)
          → Closes token cause fate (
              if own
              then some (
                record { state = Closed.closing; failure = f },
                closing_slot s b f (later_fate fate d),
              )
              else none)
      again b f d true = λ first. absurd (first refl)
      again b f d false = tt

      on : (p : Phase K T F) → Closes token cause fate (close_in ids p s token cause fate)
      on (Phase.handshaking b) = owned b (is_of ids b token) Closed.handshaking refl
      on (Phase.ready b a) = owned b (is_of ids b token) (closed_as token a) refl
      on (Phase.closing b f d) = again b f d (is_of ids b token)
      on Phase.vacant = tt
      on Phase.uninit = tt

  -- If a connection that was not closing is closed, and closed again any number of times, then it is closing
  -- with the cause of the first close, for good if one of the closes was, and else to reconnect.
  pub close_all-worst :
      (s : Slot K T F) (token : K) (cause : F) (fate : Disposition)
      (causes : List (F × Disposition)) {close : Close K F} {t : Slot K T F}
      → try_close ids s token cause fate ≡ some (close, t)
      → close.state ≢ Closed.closing
      → (b : Bound K T) × (get (close_all token causes t).phase
          ≡ Phase.closing b cause (worst fate causes))
  close_all-worst s token cause fate causes {t = t} e first =
      let (b, (own, is)) =
        subst (Closes token cause fate) e (try_close-Closes s token cause fate) first in
      (b, close_all_closing token causes t b cause fate own is)
