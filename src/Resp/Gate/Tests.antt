-- ===== src/Resp/Gate/Tests.antt =====
-- A gate with one lane and two accesses, whose queue is a list, at work.
use cartel.Resp.Gate.Granted.{AreOthers}
use cartel.Base.{
  ℕ, refl, none, some, true, [], arith, List, Option, ltb, ◌≡◌, ◌∷◌, ◌+◌, ◌≤◌, if◌then◌else◌, ◌==◌,
}
use cartel.Resp.Gate.{Fifo, Phase, acquire, drop_lane, enqueue, wait}
use cartel.Resp.Gate.Bound.{Reaches-Good, Reaches-bounded, held_count, initial-Good}
use cartel.Resp.Gate.Charges.{Inv, IsFifo, with_phase}
use cartel.Resp.Gate.Progress.{ArePrompt, Reaches-IsQuiet, acquire-drop_lane}
use cartel.Resp.Gate.System.{Reaches, Step, System, initial}

abbrev Queue : Type 0
Queue = List (ℕ × ℕ)

abbrev lookup : Queue → ℕ → Option ℕ
lookup [] i = none
lookup ((j, t) ∷ q) i = if i == j then some t else lookup q i

abbrev remove : Queue → ℕ → Queue
remove [] i = []
remove ((j, t) ∷ q) i = let rest = remove q i in if j == i then rest else (j, t) ∷ rest

abbrev next_of : Queue → Option ((ℕ × ℕ) × Queue)
next_of [] = none
next_of ((i, t) ∷ q) = some ((i, t), remove q i)

abbrev list_fifo : Fifo Queue
list_fifo = record {
  has_entry = λ q i. ltb i 2;
  get = lookup;
  push = λ q i t. (i, t) ∷ q;
  clear = remove;
  next = next_of;
}

lookup-remove :
    (q : Queue) (i j : ℕ) → lookup (remove q i) j ≡ (if j == i then none else lookup q j)
lookup-remove [] i j = ground arith
lookup-remove ((k, t) ∷ q) i j = ground (arith, lookup-remove q i j)

next_lem :
    (q : Queue) {i t : ℕ} {q' : Queue}
    → next_of q ≡ some ((i, t), q')
    → (lookup q i ≡ some t) × ((j : ℕ) → lookup q' j ≡ (if j == i then none else lookup q j))
next_lem [] e = absurd (cc)
next_lem ((k, u) ∷ q) {i = i} {t = t} {q' = q'} e =
    let ei : k ≡ i = cc in
    let et : u ≡ t = cc in
    let eq : remove q k ≡ q' = cc in
    (ground (arith, ei, et), λ j. ground (arith, ei, eq, lookup-remove q k j))

next_none_lem : (q : Queue) (i : ℕ) → next_of q ≡ none → lookup q i ≡ none
next_none_lem [] i e = refl
next_none_lem ((k, u) ∷ q) i e = absurd (cc)

list_fifo-IsFifo : IsFifo list_fifo
list_fifo-IsFifo = record {
  get-push = λ q i t j. refl;
  get-clear = lookup-remove;
  get-next = next_lem;
  get-next_none = next_none_lem;
}

abbrev start : System Queue
start = initial list_fifo 2 [] 1

abbrev one_held : System Queue
one_held = record {
  gate = record start.gate { active = 1 };
  phases = with_phase start.phases 0 Phase.held;
  out = 0;
}

abbrev one_waits : System Queue
one_waits = record {
  gate = record one_held.gate { waiters = (1, 7) ∷ [] };
  phases = with_phase one_held.phases 1 (Phase.waiting 1 7);
  out = 0;
}

abbrev replied : System Queue
replied = record {
  gate = one_waits.gate;
  phases = with_phase one_waits.phases 0 Phase.idle;
  out = 1;
}

first_step : Step list_fifo 2 start one_held
unfolding acquire
first_step = Step.acquires start 0 (omega arith) refl

second_step : Step list_fifo 2 one_held one_waits
unfolding wait enqueue
second_step = Step.waits one_held 1 7 (omega arith) refl

third_step : Step list_fifo 2 one_waits replied
third_step = Step.finishes one_waits 0 (omega arith) refl

abbrev waiting_run : Reaches list_fifo 2 start one_waits
waiting_run = Reaches.next (Reaches.next Reaches.here first_step) second_step

replied_run : Reaches list_fifo 2 start replied
replied_run = Reaches.next waiting_run third_step

Reaches-bounded_example : held_count list_fifo list_fifo-IsFifo 2 replied + 1 ≤ 1
Reaches-bounded_example =
    Reaches-bounded list_fifo list_fifo-IsFifo 2 [] 1 (λ i. refl) (omega arith) replied replied_run

waiting_run-ArePrompt : ArePrompt list_fifo 2 waiting_run
unfolding first_step second_step
waiting_run-ArePrompt = ((tt, tt), omega arith)

Reaches-IsQuiet_example : 1 ≤ one_waits.gate.active
Reaches-IsQuiet_example =
    Reaches-IsQuiet list_fifo list_fifo-IsFifo 2 [] 1 (λ i. refl) waiting_run waiting_run-ArePrompt
      1 7 refl

replied-Inv : Inv list_fifo 2 replied.gate replied.phases 1
replied-Inv =
    Reaches-Good list_fifo list_fifo-IsFifo 2 replied_run
      (initial-Good list_fifo list_fifo-IsFifo 2 [] 1 (λ i. refl) (omega arith))

-- the lane is handed on, and the other access asks for one
abbrev handed_on : System Queue
handed_on = record { gate = drop_lane list_fifo replied.gate; phases = replied.phases; out = 0 }

abbrev other_asks : System Queue
other_asks = record {
  gate = handed_on.gate;
  phases = with_phase handed_on.phases 0 Phase.idle;
  out = 0;
}

fourth_step : Step list_fifo 2 handed_on other_asks
unfolding acquire drop_lane
fourth_step = Step.acquires handed_on 0 (omega arith) refl

abbrev other_run : Reaches list_fifo 2 handed_on other_asks
other_run = Reaches.next Reaches.here fourth_step

other_run-AreOthers : AreOthers list_fifo 2 1 other_run
unfolding fourth_step
other_run-AreOthers = (tt, λ e. omega arith)

acquire-drop_lane_example :
    (other_asks.phases 1 ≡ Phase.waiting 1 7)
    × ((acquire list_fifo other_asks.gate (other_asks.phases 1)).0 ≡ true)
    × ((acquire list_fifo other_asks.gate (other_asks.phases 1)).2 ≡ Phase.held)
    × ((acquire list_fifo other_asks.gate (other_asks.phases 1)).1.active ≡ other_asks.gate.active)
acquire-drop_lane_example =
    acquire-drop_lane list_fifo list_fifo-IsFifo 2 replied 1 7 0 replied-Inv refl refl other_run
      other_run-AreOthers
