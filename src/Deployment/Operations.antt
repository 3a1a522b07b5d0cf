-- ===== src/Deployment/Operations.antt =====
-- The operations of the steps of agent_workflow.cpp, ADUC_Workflow_MethodCall_*, and what happens when
-- they are complete.
use mbed_ce_client_for_azure.Base.{Bool, false, not, none, some, List, if◌then◌else◌}
use mbed_ce_client_for_azure.Workflow.{
  deployment_in_progress, download_started, download_succeeded, backup_started, backup_succeeded,
  install_started, install_succeeded, apply_started, restore_started, failed_state, WorkflowStep,
  undefined, process_deployment, download, backup, install, apply, restore,
}
use mbed_ce_client_for_azure.Deployment.{
  required, in_progress, Event, operation, sandbox_create, reboot, agent_restart, Agent, Outcome,
  pending, success_plain, success_reboot, success_agent_restart, success_other, failure, Platform,
  set_job, record_event, same_state,
}
use mbed_ce_client_for_azure.Deployment.Reports.{set_update_state}

-- The callback of a step.
unfoldable pub call_operation : Platform → WorkflowStep → Agent → Outcome × Agent
call_operation p step a = (p.result_of step a.history, record_event (operation step) a)

unfoldable pub method_call_process_deployment : Platform → Agent → Outcome × Agent
method_call_process_deployment p a = (success_plain, a)

unfoldable pub method_call_download : Platform → Agent → Outcome × Agent
method_call_download p a =
    if not (same_state a.last_reported_state deployment_in_progress)
    then (failure, a)
    else (let a1 = record_event sandbox_create a in
        if not (p.sandbox_result a.history)
        then (failure, a1)
        else call_operation p download (set_update_state p download_started a1))

unfoldable pub method_call_backup : Platform → Agent → Outcome × Agent
method_call_backup p a =
    if not (same_state a.last_reported_state download_succeeded)
    then (failure, a)
    else call_operation p backup (set_update_state p backup_started a)

unfoldable pub method_call_install : Platform → Agent → Outcome × Agent
method_call_install p a =
    if not (same_state a.last_reported_state backup_succeeded)
    then (failure, a)
    else call_operation p install (set_update_state p install_started a)

unfoldable pub method_call_apply : Platform → Agent → Outcome × Agent
method_call_apply p a =
    if not (same_state a.last_reported_state install_succeeded)
    then (failure, a)
    else call_operation p apply (set_update_state p apply_started a)

unfoldable pub method_call_restore : Platform → Agent → Outcome × Agent
method_call_restore p a =
    if not (same_state a.last_reported_state failed_state)
    then (failure, a)
    else call_operation p restore
        (set_update_state p restore_started (set_job (λ j. record j { current_step = restore }) a))

-- The `OperationFunc` of the table.
unfoldable pub operation_func : Platform → WorkflowStep → Agent → Outcome × Agent
operation_func p undefined a = (failure, a)
operation_func p process_deployment a = method_call_process_deployment p a
operation_func p download a = method_call_download p a
operation_func p backup a = method_call_backup p a
operation_func p install a = method_call_install p a
operation_func p apply a = method_call_apply p a
operation_func p restore a = method_call_restore p a

abbrev pub not_in_progress : Agent → Agent
not_in_progress = set_job (λ j. record j { operation_in_progress = false })

unfoldable pub reboot_system : Platform → Agent → Agent
reboot_system p a =
    let a1 = record_event reboot (record a { system_reboot_state = required }) in
    if p.reboots a.history
    then record a1 { system_reboot_state = in_progress }
    else not_in_progress a1

-- The state that is set to `required` is the system's here too.
unfoldable pub restart_agent : Platform → Agent → Agent
restart_agent p a =
    let a1 = record_event agent_restart (record a { system_reboot_state = required }) in
    if p.agent_restarts a.history
    then record a1 { agent_restart_state = in_progress }
    else not_in_progress a1

-- The requests for a restart are those of the object; without one there are none.
abbrev pub asks : (List Event → Bool) → Agent → Bool
asks f a = elim a.job [ none ↦ false | some j ↦ f a.history ]

unfoldable pub method_call_install_complete : Platform → Agent → Agent
method_call_install_complete p a =
    if asks p.reboot_requested a
    then reboot_system p a
    else if asks p.agent_restart_requested a
    then restart_agent p a
    else a

unfoldable pub method_call_apply_complete : Platform → Outcome → Agent → Agent
method_call_apply_complete p result a =
    if asks p.reboot_requested a
    then reboot_system p a
    else if asks p.agent_restart_requested a
    then restart_agent p a
    else elim result [ success_plain ↦ not_in_progress a | _ ↦ a ]

unfoldable pub method_call_restore_complete : Platform → Outcome → Agent → Agent
method_call_restore_complete p pending a = a
method_call_restore_complete p success_plain a = not_in_progress a
method_call_restore_complete p success_reboot a = reboot_system p a
method_call_restore_complete p success_agent_restart a = restart_agent p a
method_call_restore_complete p success_other a = a
method_call_restore_complete p failure a = a

-- The `OperationCompleteFunc` of the table.
unfoldable pub operation_complete_func : Platform → WorkflowStep → Outcome → Agent → Agent
operation_complete_func p undefined result a = a
operation_complete_func p process_deployment result a = a
operation_complete_func p download result a = a
operation_complete_func p backup result a = a
operation_complete_func p install result a = method_call_install_complete p a
operation_complete_func p apply result a = method_call_apply_complete p result a
operation_complete_func p restore result a = method_call_restore_complete p result a
