-- ===== src/Resp/Init/Ready.antt =====
-- A connection is ready only once its plan is done.
use mathlib.Core.List.{append-nil}
use mathlib.Core.List.{append-nil, append_assoc}
use mathlib.Core.Path.{subst}
use cartel.Base.{
  if◌then◌else◌, ◌∙◌, ℕ, suc, refl, none, some, true, false, [], inl, inr, List, ◌⊎◌, Bool, ◌≡◌,
  Option, length, ◌≢◌, ◌++◌, ◌∷◌, sym, ◌∙◌, arith, length-append, ap, not, ◌&&◌,
}
use cartel.Resp.Init.{Command, ConnPhase, Plan, Step, first, next, received, step_of, unexpected}
use cartel.Resp.Init.Handshake.{
  Conn, Event, Input, Steps, advance, fail, flushed, flushed_in, fresh, proceed, replied,
  replied_in, start,
}
use cartel.Resp.Init.Order.{commands_from, commands_from-first, planned, commands_from-next}

module _ {A N : Type 0} (plan : Plan A N) where
  -- the commands behind a step
  abbrev rest : Step → List (Command A N)
  rest step = commands_from plan 3 (next plan step)

  -- how far the plan is
  abbrev IsAt : ConnPhase → (sent : List (Command A N)) → (answered : ℕ) → Type 0
  IsAt ConnPhase.offline sent answered = sent ≡ []
  IsAt ConnPhase.unsolicited sent answered = Unit {0}
  IsAt ConnPhase.ready sent answered = (sent ≡ planned plan) × (answered ≡ length sent)
  IsAt (ConnPhase.init step) sent answered =
      (sent ++ rest step ≡ planned plan) × (suc answered ≡ length sent)
  IsAt (ConnPhase.advance step) sent answered =
      (sent ++ rest step ≡ planned plan) × (answered ≡ length sent)

  -- on track, or closed and not ready
  abbrev IsTracked : Conn A N → Type 0
  IsTracked h = IsAt h.phase h.sent h.answered ⊎ ((h.closed ≡ true) × (h.phase ≢ ConnPhase.ready))

  fail-IsTracked : (h : Conn A N) → IsTracked h → IsTracked (fail h)
  fail-IsTracked h (inl at) = inl at
  fail-IsTracked h (inr (closed, off)) = inr (refl, off)

  if_IsTracked :
      (b : Bool) (x y : Conn A N)
      → (b ≡ true → IsTracked x)
      → (b ≡ false → IsTracked y)
      → IsTracked (if b then x else y)
  if_IsTracked true x y on_true on_false = on_true refl
  if_IsTracked false x y on_true on_false = on_false refl

  -- the next command goes out, or there is none left
  proceed-IsTracked :
      (sends marked : Bool) (o : Option (Command A N)) (h : Conn A N)
      → h.phase ≢ ConnPhase.ready
      → h.sent ++ commands_from plan 4 o ≡ planned plan
      → h.answered ≡ length h.sent
      → IsTracked h
      → IsTracked (proceed sends marked o h)
  unfolding commands_from
  proceed-IsTracked sends true none h off left count at =
      inl (sym (append-nil h.sent) ∙ left, count)
  proceed-IsTracked sends false none h off left count at = fail-IsTracked h at
  proceed-IsTracked true marked (some c) h off left count at =
      let size = length-append h.sent (c ∷ []) in
      inl (append_assoc h.sent (c ∷ []) (rest (step_of c)) ∙ left, omega (arith, size, count))
  proceed-IsTracked false marked (some c) h off left count at = inr (refl, λ e. cc)

  start-IsTracked : (sends marked : Bool) → IsTracked (start plan sends marked fresh)
  unfolding start
  start-IsTracked sends marked =
      proceed-IsTracked sends marked (first plan) fresh (λ e. cc) (commands_from-first plan 1) refl
        (inl refl)

  replied-IsTracked : (event : Event) (h : Conn A N) → IsTracked h → IsTracked (replied event h)
  unfolding replied
  replied-IsTracked event h at = on h.phase refl event at
    where
      on :
          (phase : ConnPhase)
          → h.phase ≡ phase
          → (event : Event) → IsTracked h
          → IsTracked (replied_in phase event h)
      on (ConnPhase.init step) e Event.ok_event (inl at) =
          let here : IsAt (ConnPhase.init step) h.sent h.answered =
            subst (λ p. IsAt p h.sent h.answered) e at in
          inl (here.0, omega (arith, here.1))
      on (ConnPhase.init step) e Event.ok_event (inr (closed, off)) = inr (closed, λ e. cc)
      on (ConnPhase.init step) e Event.error_event at = fail-IsTracked h at
      on (ConnPhase.init step) e Event.other_event at = fail-IsTracked h at
      on ConnPhase.ready e event at = at
      on ConnPhase.offline e event at = fail-IsTracked h at
      on ConnPhase.unsolicited e event at = fail-IsTracked h at
      on (ConnPhase.advance step) e event at = fail-IsTracked h at

  advance-IsTracked :
      (sends marked : Bool) (step : Step) (input : Input) (h : Conn A N)
      → h.phase ≡ ConnPhase.advance step
      → IsTracked h
      → IsTracked (advance plan sends marked step input h)
  advance-IsTracked sends marked step input h e at =
      if_IsTracked h.closed h _ (λ closed. at) (λ still_open. on still_open input at)
    where
      on :
          h.closed ≡ false
          → (input : Input) → IsTracked h
          → IsTracked (elim input [
            | Input.empty ↦ proceed sends marked (next plan step) h
            | Input.partial ↦ fail h
            | Input.yielded ↦ h
            | Input.blocked ↦ h
          ])
      on still_open Input.empty (inl here) =
          let (left, count) : IsAt (ConnPhase.advance step) h.sent h.answered =
            subst (λ p. IsAt p h.sent h.answered) e here in
          proceed-IsTracked sends marked (next plan step) h (λ r. absurd (cc))
            (ap (λ cs. h.sent ++ cs) (commands_from-next plan step) ∙ left) count (inl here)
      on still_open Input.empty (inr (closed, off)) = absurd (cc)
      on still_open Input.partial at = fail-IsTracked h at
      on still_open Input.yielded at = at
      on still_open Input.blocked at = at

  flushed-IsTracked :
      (sends marked : Bool) (input : Input) (h : Conn A N)
      → IsTracked h
      → IsTracked (flushed plan sends marked input h)
  unfolding flushed
  flushed-IsTracked sends marked input h at = on h.phase refl input
    where
      on :
          (phase : ConnPhase)
          → h.phase ≡ phase
          → (input : Input) → IsTracked (flushed_in plan sends marked phase input h)
      on (ConnPhase.advance step) e input = advance-IsTracked sends marked step input h e at
      on ConnPhase.unsolicited e Input.partial =
          if_IsTracked h.closed h (fail h) (λ c. at) (λ c. fail-IsTracked h at)
      on ConnPhase.unsolicited e Input.empty = at
      on ConnPhase.unsolicited e Input.yielded = at
      on ConnPhase.unsolicited e Input.blocked = at
      on ConnPhase.offline e input = at
      on ConnPhase.ready e input = at
      on (ConnPhase.init step) e input = at

  if_IsAt :
      (b : Bool) (phase : ConnPhase) (sent : List (Command A N)) (answered : ℕ)
      → IsAt phase sent answered
      → IsAt (if b then ConnPhase.unsolicited else phase) sent answered
  if_IsAt true phase sent answered at = tt
  if_IsAt false phase sent answered at = at

  if_not_ready :
      (b : Bool) (phase : ConnPhase)
      → phase ≢ ConnPhase.ready
      → (if b then ConnPhase.unsolicited else phase) ≢ ConnPhase.ready
  if_not_ready true phase off = λ e. cc
  if_not_ready false phase off = off

  received-IsTracked :
      (step : Option Step) (has_prefix : Bool) (h : Conn A N)
      → IsTracked h
      → IsTracked (record h { phase = received h.phase step has_prefix })
  unfolding received
  received-IsTracked step has_prefix h (inl at) =
      inl (if_IsAt (not has_prefix && unexpected h.phase step) h.phase h.sent h.answered at)
  received-IsTracked step has_prefix h (inr (closed, off)) =
      inr (closed, if_not_ready (not has_prefix && unexpected h.phase step) h.phase off)

  Steps-IsTracked : {h : Conn A N} → Steps plan h → IsTracked h
  Steps-IsTracked (Steps.starts sends marked) = start-IsTracked sends marked
  Steps-IsTracked (Steps.replies {h = h} event before) =
      replied-IsTracked event h (Steps-IsTracked before)
  Steps-IsTracked (Steps.flushes {h = h} sends marked input before) =
      flushed-IsTracked sends marked input h (Steps-IsTracked before)
  Steps-IsTracked (Steps.receives {h = h} step has_prefix before) =
      received-IsTracked step has_prefix h (Steps-IsTracked before)
  Steps-IsTracked (Steps.closes {h = h} before) = fail-IsTracked h (Steps-IsTracked before)

  -- Whatever happens to a connection from its start on, with sends that fail, replies, flushes and closes in
  -- any order: when it is ready, then the commands of its plan were sent, once each and in the order
  -- authentication, database and name, and each was answered with OK.
  pub Steps-ready :
      (h : Conn A N)
      → Steps plan h
      → h.phase ≡ ConnPhase.ready
      → (h.sent ≡ planned plan) × (h.answered ≡ length (planned plan))
  Steps-ready h steps e = on (Steps-IsTracked steps)
    where
      on : IsTracked h → (h.sent ≡ planned plan) × (h.answered ≡ length (planned plan))
      on (inl at) =
          let (all, count) : IsAt ConnPhase.ready h.sent h.answered =
            subst (λ p. IsAt p h.sent h.answered) e at in
          (all, count ∙ ap length all)
      on (inr (closed, off)) = absurd (off e)
