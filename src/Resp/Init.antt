-- ===== src/Resp/Init.antt =====
-- redis/src/client/settings/init.rs and the phases of redis/src/protocol/mod.rs: the commands that a new
-- connection is set up with, and the phase that a connection is in. Secrets and names are opaque.
pub mod Order
pub mod Handshake
pub mod Ready
mod Tests
use cartel.Base.{ℕ, none, some, true, false, if◌then◌else◌, Option, Bool, not, ◌&&◌}

-- `Step`
pub data Step : Type 0 where
  authenticate select set_client_name : Step

-- `Command`, over the secrets and the names
pub data Command (A N : Type 0) : Type 0 where
  authenticate : A → Command A N
  select : (database : ℕ) → Command A N
  name : N → Command A N

-- `Command::step`
abbrev pub step_of : {A N : Type 0} → Command A N → Step
step_of (Command.authenticate auth) = Step.authenticate
step_of (Command.select database) = Step.select
step_of (Command.name client_name) = Step.set_client_name

-- `Plan`
pub record Plan (A N : Type 0) : Type 0 where
  pub auth : Option A
  pub database : Option ℕ
  pub client_name : Option N

module _ {A N : Type 0} where
  -- `self.client_name().map(Command::Name)`
  abbrev pub name_command : Plan A N → Option (Command A N)
  name_command plan = elim plan.client_name [
    | none ↦ none
    | some client_name ↦ some (Command.name client_name)
  ]

  -- the selection of the database, and else of the name
  abbrev pub select_command : Plan A N → Option (Command A N)
  select_command plan = elim plan.database [
    | none ↦ name_command plan
    | some database ↦ some (Command.select database)
  ]

  -- `Plan::first` and `Plan::next`
  unfoldable pub first : Plan A N → Option (Command A N)
  first plan = elim plan.auth [
    | none ↦ select_command plan
    | some auth ↦ some (Command.authenticate auth)
  ]

  unfoldable pub next : Plan A N → Step → Option (Command A N)
  next plan Step.authenticate = select_command plan
  next plan Step.select = name_command plan
  next plan Step.set_client_name = none

-- `Phase`
pub data ConnPhase : Type 0 where
  offline unsolicited ready : ConnPhase
  init advance : Step → ConnPhase

abbrev pub is_step : Step → Step → Bool
is_step Step.authenticate Step.authenticate = true
is_step Step.select Step.select = true
is_step Step.set_client_name Step.set_client_name = true
is_step _ _ = false

-- `step != Some(expected)`, negated
abbrev pub is_expected : Option Step → (expected : Step) → Bool
is_expected none expected = false
is_expected (some step) expected = is_step step expected

-- `ConnState::received`; the other operations set a phase
abbrev pub unexpected : ConnPhase → Option Step → Bool
unexpected (ConnPhase.init expected) step = not (is_expected step expected)
unexpected (ConnPhase.advance expected) step = true
unexpected _ step = false

unfoldable pub received : ConnPhase → Option Step → (has_prefix : Bool) → ConnPhase
received phase step has_prefix =
    if not has_prefix && unexpected phase step then ConnPhase.unsolicited else phase
