-- ===== src/Deployment/Reports.antt =====
-- The reports of agent_workflow.cpp and the way to the idle state: ADUC_Workflow_SetUpdateState,
-- ADUC_Workflow_SetInstalledUpdateIdAndGoToIdle and ADUC_Workflow_MethodCall_Idle. The results that go
-- along with a report are left out.
use mbed_ce_client_for_azure.Base.{Bool, true, false, none, some, ◌∷◌, if◌then◌else◌}
use mbed_ce_client_for_azure.Workflow.{State, idle, apply_started, failed_state}
use mbed_ce_client_for_azure.Deployment.{
  Restart, not_needed, required, in_progress, report, sandbox_destroy, idle_callback, Agent,
  Platform, set_job, record_event, same_state,
}

-- ADUC_Workflow_MethodCall_Idle, with the id and the folder of the object there. The object is freed.
unfoldable pub method_call_idle : Agent → Agent
method_call_idle a = elim a.job [
  | none ↦ record_event idle_callback a
  | some j ↦ record a { job = none; history = idle_callback ∷ sandbox_destroy ∷ a.history }
]

-- ReportStateAndResultAsyncCallback
unfoldable pub send_report : Platform → State → Bool → Agent → Bool × Agent
send_report p st installed a = (p.report_sent a.history, record_event (report st installed) a)

-- The id of a workflow that is completed is kept.
unfoldable pub set_installed_update_id_and_go_to_idle : Platform → Agent → Agent
unfolding send_report
set_installed_update_id_and_go_to_idle p a =
    let (sent, a1) = send_report p idle true a in
    let a2 = method_call_idle (record a1 {
      last_reported_state = idle;
      last_completed = elim a.job [ none ↦ none | some j ↦ some j.id ];
    }) in
    record a2 { system_reboot_state = not_needed; agent_restart_state = not_needed }

-- The report of a state, and the state that then counts as reported.
unfoldable pub report_state : Platform → State → Agent → Agent
unfolding send_report
report_state p st a =
    let (sent, a1) = send_report p st false a in
    if sent
    then record (if same_state st idle
        then method_call_idle a1
        else set_job (λ j. record j { job_state = st }) a1) { last_reported_state = st }
    else record (set_job (λ j. record j { job_state = failed_state }) a1) {
      last_reported_state = failed_state;
    }

abbrev pub is_not_needed : Restart → Bool
is_not_needed not_needed = true
is_not_needed required = false
is_not_needed in_progress = false

abbrev pub is_in_progress : Restart → Bool
is_in_progress not_needed = false
is_in_progress required = false
is_in_progress in_progress = true

-- ADUC_Workflow_SetUpdateStateHelper
unfoldable pub set_update_state : Platform → State → Agent → Agent
set_update_state p st a =
    if same_state st idle
    then if same_state a.last_reported_state apply_started
      then if is_not_needed a.system_reboot_state
        then if is_not_needed a.agent_restart_state
          then record (set_installed_update_id_and_go_to_idle p a) { last_reported_state = st }
          else if is_in_progress a.agent_restart_state
          then method_call_idle a
          else report_state p st a
        else if is_in_progress a.system_reboot_state
        then method_call_idle a
        else if is_in_progress a.agent_restart_state
        then method_call_idle a
        else report_state p st a
      else report_state p st a
    else report_state p st a
