-- ===== src/Deployment.antt =====
-- The deployment of an update in
-- mbed/COMPONENT_AZIOT_OTA/iot-hub-device-update_patch/adu_workflow/agent_workflow.cpp: the steps of a
-- deployment, the states that are reported and the callbacks into the platform. The object that
-- `WorkflowHandle` points to has the fields that the file reads and writes.
pub mod Reports
pub mod Operations
pub mod Engine
pub mod Updates
pub mod Progress
pub mod Order
pub mod Cancelled
pub mod Replaced
mod Tests
use mbed_ce_client_for_azure.Base.{ℕ, ◌==◌, Bool, Option, none, some, List, ◌∷◌}
use mbed_ce_client_for_azure.Workflow.{
  State, none_state, idle, deployment_in_progress, download_started, download_succeeded,
  backup_started, backup_succeeded, install_started, install_succeeded, apply_started,
  restore_started, failed_state, WorkflowStep, undefined, process_deployment, download, backup,
  install, apply, restore, CancellationType,
}

-- ADUCITF_UpdateAction
pub data UpdateAction : Type 0 where
  undefined_action process_action cancel_action : UpdateAction

-- ADUC_SystemRebootState and ADUC_AgentRestartState
pub data Restart : Type 0 where
  not_needed required in_progress : Restart

-- What leaves the file. A report says whether it comes with an installed update id.
pub data Event : Type 0 where
  report : State → Bool → Event
  operation : WorkflowStep → Event
  sandbox_create sandbox_destroy idle_callback cancel_callback reboot agent_restart : Event

-- A number stands for the action, the manifest and the properties, with the id in them.
pub record Job : Type 0 where
  pub id : ℕ
  pub current_step : WorkflowStep
  pub operation_in_progress : Bool
  pub operation_cancelled : Bool
  pub cancellation_type : CancellationType
  pub deferred : Option ℕ  -- a deferred workflow with an update action
  pub force_update : Bool
  pub job_state : State
  pub retry_token : Option ℕ  -- where it is set apart from what `id` stands for

-- ADUC_WorkflowData, with the events so far, the last one first
pub record Agent : Type 0 where
  pub job : Option Job  -- WorkflowHandle
  pub last_reported_state : State
  pub current_action : UpdateAction
  pub system_reboot_state : Restart
  pub agent_restart_state : Restart
  pub last_completed : Option ℕ
  pub startup_idle_call_sent : Bool
  pub history : List Event

-- A result of an operation by its class: in progress, one of the success codes that the file names,
-- another success code, or a failure.
pub data Outcome : Type 0 where
  pending success_plain success_reboot success_agent_restart success_other failure : Outcome

-- What the platform, the reports and the parts outside the repository answer, by what has happened.
pub record Platform : Type 0 where
  pub is_workflow_complete : WorkflowStep → Bool  -- AgentOrchestration_IsWorkflowComplete
  pub step_of_action : UpdateAction → WorkflowStep  -- AgentOrchestration_GetWorkflowStep
  pub action_of : ℕ → UpdateAction  -- workflow_get_action, by what the object holds
  pub zero_state : State  -- the state of an object of zeros
  pub same_id : ℕ → ℕ → Bool  -- workflow_id_compare and workflow_isequal_id, by what the objects hold
  pub token_of : ℕ → Option ℕ  -- workflow_peek_retryTimestamp, by what the object holds
  pub is_retry_applicable : Option ℕ → Option ℕ → Bool  -- AgentOrchestration_IsRetryApplicable
  pub is_installed : List Event → Bool  -- IsInstalledCallback
  pub allocates : List Event → Bool
  pub result_of : WorkflowStep → List Event → Outcome
  pub sandbox_result : List Event → Bool
  pub report_sent : List Event → Bool
  pub reboots : List Event → Bool
  pub agent_restarts : List Event → Bool
  pub reboot_requested : List Event → Bool
  pub agent_restart_requested : List Event → Bool

-- An entry of `workflowHandlerMap`.
pub record HandlerEntry : Type 0 where
  pub next_state_on_success : State
  pub next_step_on_success : WorkflowStep
  pub next_state_on_failure : State
  pub next_step_on_failure : WorkflowStep

unfoldable pub handler_entry : WorkflowStep → Option HandlerEntry
handler_entry undefined = none
handler_entry process_deployment = some (record {
  next_state_on_success = deployment_in_progress;
  next_step_on_success = download;
  next_state_on_failure = failed_state;
  next_step_on_failure = undefined;
})
handler_entry download = some (record {
  next_state_on_success = download_succeeded;
  next_step_on_success = backup;
  next_state_on_failure = failed_state;
  next_step_on_failure = undefined;
})
handler_entry backup = some (record {
  next_state_on_success = backup_succeeded;
  next_step_on_success = install;
  next_state_on_failure = failed_state;
  next_step_on_failure = undefined;
})
handler_entry install = some (record {
  next_state_on_success = install_succeeded;
  next_step_on_success = apply;
  next_state_on_failure = failed_state;
  next_step_on_failure = restore;
})
handler_entry apply = some (record {
  next_state_on_success = idle;
  next_step_on_success = undefined;
  next_state_on_failure = failed_state;
  next_step_on_failure = restore;
})
handler_entry restore = some (record {
  next_state_on_success = idle;
  next_step_on_success = undefined;
  next_state_on_failure = failed_state;
  next_step_on_failure = undefined;
})

-- A setter of workflow_utils.c: nothing happens without an object.
abbrev pub set_job : (Job → Job) → Agent → Agent
set_job f a = record a { job = elim a.job [ none ↦ none | some j ↦ some (f j) ] }

-- A getter of workflow_utils.c, with what it gives for NULL.
abbrev pub of_job : {A : Type 0} → A → (Job → A) → Agent → A
of_job d f a = elim a.job [ none ↦ d | some j ↦ f j ]

abbrev pub record_event : Event → Agent → Agent
record_event e a = record a { history = e ∷ a.history }

unfoldable pub state_number : State → ℕ
state_number none_state = 0
state_number idle = 1
state_number deployment_in_progress = 2
state_number download_started = 3
state_number download_succeeded = 4
state_number backup_started = 5
state_number backup_succeeded = 6
state_number install_started = 7
state_number install_succeeded = 8
state_number apply_started = 9
state_number restore_started = 10
state_number failed_state = 11

abbrev pub same_state : State → State → Bool
unfolding state_number
same_state s t = state_number s == state_number t
