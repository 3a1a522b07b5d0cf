-- ===== src/Deployment/Tests.antt =====
-- Inputs at which the hypotheses of the theorems on agent_workflow.cpp hold.
use mbed_ce_client_for_azure.Base.{
  ◌==◌, ◌≡◌, refl, true, false, none, some, [], ◌∷◌, ok, if◌then◌else◌,
}
use mbed_ce_client_for_azure.Workflow.{
  idle, download_started, deployment_in_progress, none_state, process_deployment, download,
  no_cancellation,
}
use mbed_ce_client_for_azure.Deployment.{
  report, operation, sandbox_create, sandbox_destroy, idle_callback, cancel_callback,
  process_action, cancel_action, Job, Agent, Platform, pending, failure, not_needed, handler_entry,
  state_number,
}
use mbed_ce_client_for_azure.Deployment.Reports.{set_update_state, report_state}
use mbed_ce_client_for_azure.Deployment.Operations.{
  operation_func, method_call_process_deployment, method_call_download, call_operation,
  operation_complete_func,
}
use mbed_ce_client_for_azure.Deployment.Engine.{
  work_completion, transition, complete_step, auto_transition, start_action, handle_update_action,
}
use mbed_ce_client_for_azure.Deployment.Updates.{handle_startup, handle_property_update}
use mbed_ce_client_for_azure.Deployment.Progress.Updates.{handlers_total}
use mbed_ce_client_for_azure.Deployment.Replaced.{deployment_replaced}
use mbed_ce_client_for_azure.Deployment.Order.{is_ordered, IsSound}
use mbed_ce_client_for_azure.Deployment.Order.Reached.{here, next, acts, operations_ordered}
use mbed_ce_client_for_azure.Deployment.Cancelled.{cancel_download}

-- Every operation is left in progress.
abbrev platform : Platform
platform = record {
  is_workflow_complete = λ s. false;
  step_of_action = λ action. process_deployment;
  action_of = λ id. process_action;
  zero_state = none_state;
  same_id = λ i j. i == j;
  token_of = λ i. none;
  is_retry_applicable = λ s t. true;
  is_installed = λ h. false;
  allocates = λ h. true;
  result_of = λ s h. pending;
  sandbox_result = λ h. true;
  report_sent = λ h. true;
  reboots = λ h. true;
  agent_restarts = λ h. true;
  reboot_requested = λ h. false;
  agent_restart_requested = λ h. false;
}

abbrev new_job : Job
new_job = record {
  id = 1;
  current_step = process_deployment;
  operation_in_progress = false;
  operation_cancelled = false;
  cancellation_type = no_cancellation;
  deferred = none;
  force_update = false;
  job_state = none_state;
  retry_token = none;
}

abbrev agent : Agent
agent = record {
  job = some new_job;
  last_reported_state = idle;
  current_action = process_action;
  system_reboot_state = not_needed;
  agent_restart_state = not_needed;
  last_completed = none;
  startup_idle_call_sent = true;
  history = [];
}

-- The deployment goes on until the download is in progress.
abbrev downloading : Agent
downloading = record agent {
  job = some (record new_job {
    current_step = download;
    operation_in_progress = true;
    job_state = download_started;
  });
  last_reported_state = download_started;
  history =
      operation download
      ∷ report download_started false
      ∷ sandbox_create
      ∷ report deployment_in_progress false
      ∷ [];
}

downloads : handle_update_action platform 14 agent ≡ ok downloading
unfolding handle_update_action start_action transition handler_entry operation_func
    method_call_process_deployment work_completion complete_step operation_complete_func
    set_update_state report_state state_number auto_transition method_call_download call_operation
downloads = refl

sound : IsSound agent
unfolding is_ordered
sound = record { ordered = refl; agrees = λ h. cc }

operations_ordered_example : is_ordered downloading.history ≡ true
operations_ordered_example =
    operations_ordered platform agent downloading sound (next here (acts 14 downloads))

handlers_total_example :
    ((b : Agent) × (handle_property_update platform 14 (some 2) false agent ≡ ok b))
    × ((c : Agent) × (handle_startup platform 14 agent ≡ ok c))
handlers_total_example = handlers_total platform (some 2) false agent

abbrev downloading_job : Job
downloading_job = record new_job {
  current_step = download;
  operation_in_progress = true;
  job_state = download_started;
}

deployment_replaced_example :
    (b : Agent) × (handle_property_update platform 14 (some 2) false downloading ≡ ok b)
    × (b.history ≡ cancel_callback ∷ downloading.history)
    × (work_completion platform (transition platform 14) failure b
        ≡ transition platform 14 (record b {
          job = some (record downloading_job {
            id = 2;
            current_step = process_deployment;
            operation_in_progress = false;
            operation_cancelled = false;
            cancellation_type = no_cancellation;
            deferred = none;
            retry_token = none;
          });
          last_reported_state = idle;
          history = sandbox_destroy ∷ cancel_callback ∷ downloading.history;
        }))
deployment_replaced_example =
    deployment_replaced platform 14 2 false (transition platform 14) downloading downloading_job
      refl refl refl (unfold state_number in refl) (unfold state_number in refl) refl refl refl refl

-- The ninth property cancels.
abbrev stopping : Platform
stopping = record platform { action_of = λ id. if id == 9 then cancel_action else process_action }

cancel_download_example :
    (b c : Agent) × (handle_property_update stopping 14 (some 9) false downloading ≡ ok b)
    × (b.history ≡ cancel_callback ∷ downloading.history)
    × (work_completion stopping (transition stopping 14) failure b ≡ ok c)
    × (c.job ≡ none)
    × (c.last_reported_state ≡ idle)
    × (c.history ≡ idle_callback ∷ sandbox_destroy ∷ report idle false ∷ b.history)
cancel_download_example =
    cancel_download stopping 14 9 false (transition stopping 14) downloading downloading_job refl
      refl refl refl refl refl (unfold state_number in refl) λ h. refl
