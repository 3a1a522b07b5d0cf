-- ===== src/Deployment/Order/Reached.antt =====
-- Runs of the handlers of agent_workflow.cpp, in any order.
use mbed_ce_client_for_azure.Base.{ℕ, Bool, ◌≡◌, refl, true, Option, ok}
use mbed_ce_client_for_azure.Deployment.{Job, Agent, Outcome, Platform}
use mbed_ce_client_for_azure.Deployment.Engine.{work_completion, transition, handle_update_action}
use mbed_ce_client_for_azure.Deployment.Updates.{handle_startup, handle_property_update}
use mbed_ce_client_for_azure.Deployment.Order.Updates.{
  handle_update_action-IsSound, handle_property_update-IsSound, handle_startup-IsSound,
}
use mbed_ce_client_for_azure.Deployment.Order.{is_ordered, IsSound, quiet}
use mbed_ce_client_for_azure.Deployment.Order.Steps.{transition-IsSound, work_completion-IsSound}

-- What can happen to the agent: a desired property comes in, the start is handled, an update action is
-- handled, an operation is complete, or another part of the program changes the object.
pub data AgentStep (p : Platform) (a : Agent) : Agent → Type 0 where
  acts : (fuel : ℕ) {b : Agent} → handle_update_action p fuel a ≡ ok b → AgentStep p a b
  completes :
      (fuel : ℕ) (r : Outcome) {b : Agent}
      → work_completion p (transition p fuel) r a ≡ ok b
      → AgentStep p a b
  changes : (j : Option Job) → AgentStep p a (record a { job = j })
  updates :
      (fuel : ℕ) (parsed : Option ℕ) (force : Bool) {b : Agent}
      → handle_property_update p fuel parsed force a ≡ ok b
      → AgentStep p a b
  starts : (fuel : ℕ) {b : Agent} → handle_startup p fuel a ≡ ok b → AgentStep p a b

pub data Reaches (p : Platform) (a : Agent) : Agent → Type 0 where
  here : Reaches p a a
  next : {b c : Agent} → Reaches p a b → AgentStep p b c → Reaches p a c

AgentStep-IsSound : (p : Platform) (a b : Agent) → IsSound a → AgentStep p a b → IsSound b
AgentStep-IsSound p a b sound (acts fuel run) = handle_update_action-IsSound p fuel a b sound run
AgentStep-IsSound p a b sound (completes fuel r run) =
    work_completion-IsSound p (transition p fuel) r a b
      (λ d e s t. transition-IsSound p fuel d e s t) sound run
AgentStep-IsSound p a b sound (changes j) = quiet a (record a { job = j }) sound refl refl refl
AgentStep-IsSound p a b sound (updates fuel parsed force run) =
    handle_property_update-IsSound p fuel parsed force a b sound run
AgentStep-IsSound p a b sound (starts fuel run) = handle_startup-IsSound p fuel a b sound run

Reaches-IsSound : (p : Platform) (a b : Agent) → IsSound a → Reaches p a b → IsSound b
Reaches-IsSound p a b sound here = sound
Reaches-IsSound p a b sound (next {b = c} r s) =
    AgentStep-IsSound p c b (Reaches-IsSound p a c sound r) s

-- From an agent whose history is in order and whose milestone that counts as reported is the last
-- report, however the handlers and the completions follow one another: every operation that has been
-- called comes directly behind the report that it starts. A download comes behind the report that the
-- deployment is in progress, a backup behind that of the download's success, an installation behind
-- that of the backup's and an application behind that of the installation's.
pub operations_ordered :
    (p : Platform) (a b : Agent) → IsSound a → Reaches p a b → is_ordered b.history ≡ true
operations_ordered p a b sound r = (Reaches-IsSound p a b sound r).ordered
