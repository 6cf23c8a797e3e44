-- ===== src/Resp/Init/Handshake.antt =====
-- redis/src/client/logic/init.rs, and the dispatch on phases of logic/reply.rs and logic/mod.rs: how a new
-- connection is set up. What is sent is kept as a list; whether a send or `Schedule::mark_ready` succeeds
-- is an argument.
use cartel.Base.{ℕ, suc, none, some, true, false, [], if◌then◌else◌, Bool, List, ◌++◌, Option, ◌∷◌}
use cartel.Resp.Init.{Command, ConnPhase, Plan, Step, first, next, received, step_of}

-- the event that a reply starts with
pub data Event : Type 0 where
  ok_event error_event other_event : Event

-- `session::Input`
pub data Input : Type 0 where
  empty partial yielded blocked : Input

-- a connection: its phase, whether its close was requested, the commands sent and how many were answered
-- with OK
pub record Conn (A N : Type 0) : Type 0 where
  pub phase : ConnPhase
  pub closed : Bool
  pub sent : List (Command A N)
  pub answered : ℕ

module _ {A N : Type 0} where
  -- a connection before `start`
  abbrev pub fresh : Conn A N
  fresh = record { phase = ConnPhase.offline; closed = false; sent = []; answered = 0 }

  -- `Plan::fail`
  abbrev pub fail : Conn A N → Conn A N
  fail h = record h { closed = true }

  -- `Plan::begin`; `sends` is whether `Plan::send` succeeds
  abbrev pub begin : (sends : Bool) → Command A N → Conn A N → Conn A N
  begin true command h = record h {
    phase = ConnPhase.init (step_of command);
    sent = h.sent ++ command ∷ [];
  }
  begin false command h = fail (record h { phase = ConnPhase.init (step_of command) })

  -- `Plan::ready`; `marked` is whether `mark_ready` accepts
  abbrev pub mark_ready : (marked : Bool) → Conn A N → Conn A N
  mark_ready true h = record h { phase = ConnPhase.ready }
  mark_ready false h = fail h

  -- the command that comes now, or else the end
  abbrev pub proceed : (sends marked : Bool) → Option (Command A N) → Conn A N → Conn A N
  proceed sends marked none h = mark_ready marked h
  proceed sends marked (some command) h = begin sends command h

  -- `Plan::start`
  unfoldable pub start : Plan A N → (sends marked : Bool) → Conn A N → Conn A N
  start plan sends marked h =
      proceed sends marked (first plan) (record h { phase = ConnPhase.offline })

  -- `Plan::response`
  abbrev pub response : Step → Event → Conn A N → Conn A N
  response step Event.ok_event h = record h {
    phase = ConnPhase.advance step;
    answered = suc h.answered;
  }
  response step _ h = fail h

  -- `Plan::advance`
  abbrev pub advance : Plan A N → (sends marked : Bool) → Step → Input → Conn A N → Conn A N
  advance plan sends marked step input h = if h.closed then h else elim input [
    | Input.empty ↦ proceed sends marked (next plan step) h
    | Input.partial ↦ fail h
    | Input.yielded ↦ h
    | Input.blocked ↦ h
  ]

  -- the dispatch of a frame; a ready connection passes it on
  abbrev pub replied_in : ConnPhase → Event → Conn A N → Conn A N
  replied_in (ConnPhase.init step) event h = response step event h
  replied_in ConnPhase.ready event h = h
  replied_in _ event h = fail h

  unfoldable pub replied : Event → Conn A N → Conn A N
  replied event h = replied_in h.phase event h

  -- the dispatch of a flush; a ready connection goes on to its schedule
  abbrev pub flushed_in : Plan A N → (sends marked : Bool) → ConnPhase → Input → Conn A N → Conn A N
  flushed_in plan sends marked (ConnPhase.advance step) input h =
      advance plan sends marked step input h
  flushed_in plan sends marked ConnPhase.unsolicited Input.partial h =
      if h.closed then h else fail h
  flushed_in plan sends marked _ input h = h

  unfoldable pub flushed : Plan A N → (sends marked : Bool) → Input → Conn A N → Conn A N
  flushed plan sends marked input h = flushed_in plan sends marked h.phase input h

  -- what can happen to a connection of this plan
  pub data Steps (plan : Plan A N) : Conn A N → Type 0 where
    starts : (sends marked : Bool) → Steps plan (start plan sends marked fresh)
    replies : {h : Conn A N} (event : Event) → Steps plan h → Steps plan (replied event h)
    flushes :
        {h : Conn A N} (sends marked : Bool) (input : Input)
        → Steps plan h
        → Steps plan (flushed plan sends marked input h)
    receives :
        {h : Conn A N} (step : Option Step) (has_prefix : Bool)
        → Steps plan h
        → Steps plan (record h { phase = received h.phase step has_prefix })
    closes : {h : Conn A N} → Steps plan h → Steps plan (fail h)
