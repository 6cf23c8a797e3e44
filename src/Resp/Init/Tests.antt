-- ===== src/Resp/Init/Tests.antt =====
-- A connection whose plan has a secret and a name, from its start until it is ready.
use cartel.Base.{ℕ, refl, none, some, true, false, [], ◌∷◌, ◌≡◌}
use cartel.Resp.Init.{Command, ConnPhase, Plan, first, next}
use cartel.Resp.Init.Handshake.{Conn, Event, Input, Steps, flushed, replied, start}
use cartel.Resp.Init.Order.{planned}
use cartel.Resp.Init.Ready.{Steps-ready}

abbrev named : Plan ℕ ℕ
named = record { auth = some 7; database = none; client_name = some 9 }

abbrev set_up : Conn ℕ ℕ
set_up = record {
  phase = ConnPhase.ready;
  closed = false;
  sent = Command.authenticate 7 ∷ Command.name 9 ∷ [];
  answered = 2;
}

set_up_run : Steps named set_up
unfolding start first next replied flushed
set_up_run = Steps.flushes true true Input.empty (
    Steps.replies Event.ok_event
      (Steps.flushes true true Input.empty (Steps.replies Event.ok_event (Steps.starts true true))))

Steps-ready_example : (set_up.sent ≡ planned named) × (set_up.answered ≡ 2)
Steps-ready_example = Steps-ready named set_up set_up_run refl
