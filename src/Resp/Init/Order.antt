-- ===== src/Resp/Init/Order.antt =====
-- The order of the commands of a plan.
use cartel.Base.{ℕ, zero, suc, refl, none, some, [], Option, List, ◌≡◌, ◌∷◌, ◌++◌}
use cartel.Resp.Init.{Command, Plan, first, next, step_of, Step}

module _ {A N : Type 0} where
  -- the commands sent, each behind the reply to the one before, on fuel
  unfoldable pub commands_from : Plan A N → (fuel : ℕ) → Option (Command A N) → List (Command A N)
  commands_from plan zero command = []
  commands_from plan (suc fuel) none = []
  commands_from plan (suc fuel) (some command) =
      command ∷ commands_from plan fuel (next plan (step_of command))

  abbrev listed : {X : Type 0} → (X → Command A N) → Option X → List (Command A N)
  listed make none = []
  listed make (some x) = make x ∷ []

  -- the commands that a plan asks for, in their order
  abbrev pub planned : Plan A N → List (Command A N)
  planned plan =
      listed Command.authenticate plan.auth
      ++ listed Command.select plan.database
      ++ listed Command.name plan.client_name

  abbrev plan_of : Option A → Option ℕ → Option N → Plan A N
  plan_of auth database client_name = record {
    auth = auth;
    database = database;
    client_name = client_name;
  }

  chosen :
      (auth : Option A) (database : Option ℕ) (client_name : Option N) (fuel : ℕ)
      → commands_from
          (plan_of auth database client_name)
          (suc (suc (suc fuel)))
          (first (plan_of auth database client_name))
        ≡ planned (plan_of auth database client_name)
  unfolding commands_from first next
  chosen none none none fuel = refl
  chosen none none (some n) zero = refl
  chosen none none (some n) (suc fuel) = refl
  chosen none (some d) none fuel = refl
  chosen none (some d) (some n) zero = refl
  chosen none (some d) (some n) (suc fuel) = refl
  chosen (some a) none none fuel = refl
  chosen (some a) none (some n) zero = refl
  chosen (some a) none (some n) (suc fuel) = refl
  chosen (some a) (some d) none zero = refl
  chosen (some a) (some d) none (suc fuel) = refl
  chosen (some a) (some d) (some n) zero = refl
  chosen (some a) (some d) (some n) (suc fuel) = refl

  behind :
      (auth : Option A) (database : Option ℕ) (client_name : Option N) (step : Step)
      → commands_from
          (plan_of auth database client_name)
          4
          (next (plan_of auth database client_name) step)
        ≡ commands_from
            (plan_of auth database client_name)
            3
            (next (plan_of auth database client_name) step)
  unfolding commands_from next
  behind auth none none Step.authenticate = refl
  behind auth none (some n) Step.authenticate = refl
  behind auth (some d) none Step.authenticate = refl
  behind auth (some d) (some n) Step.authenticate = refl
  behind auth database none Step.select = refl
  behind auth database (some n) Step.select = refl
  behind auth database client_name Step.set_client_name = refl

  -- two commands at most are behind a step
  pub commands_from-next :
      (plan : Plan A N) (step : Step)
      → commands_from plan 4 (next plan step) ≡ commands_from plan 3 (next plan step)
  commands_from-next plan step = behind plan.auth plan.database plan.client_name step

  -- the commands from the first one on are those planned, and then there is none
  pub commands_from-first :
      (plan : Plan A N) (fuel : ℕ)
      → commands_from plan (suc (suc (suc fuel))) (first plan) ≡ planned plan
  commands_from-first plan fuel = chosen plan.auth plan.database plan.client_name fuel
