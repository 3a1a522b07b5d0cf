-- ===== src/Deployment/Progress.antt =====
-- How far a deployment of agent_workflow.cpp can still go, and that no operation lengthens it.
pub mod Total
pub mod Updates
use mbed_ce_client_for_azure.Base.{
  ℕ, ◌+◌, ◌≤◌, ◌<◌, ◌≡◌, refl, arith, none, some, List, ◌∷◌, if◌then◌else◌, Run, ok,
}
use mbed_ce_client_for_azure.Workflow.{
  State, download_started, backup_started, install_started, apply_started, restore_started,
  WorkflowStep, undefined, process_deployment, download, backup, install, apply, restore,
}
use mbed_ce_client_for_azure.Deployment.{
  Event, sandbox_create, Agent, Outcome, pending, success_plain, success_reboot,
  success_agent_restart, success_other, failure, Platform, set_job, record_event,
}
use mbed_ce_client_for_azure.Deployment.Reports.{
  method_call_idle, set_installed_update_id_and_go_to_idle, report_state, set_update_state,
}
use mbed_ce_client_for_azure.Deployment.Operations.{
  call_operation, method_call_process_deployment, method_call_download, method_call_backup,
  method_call_install, method_call_apply, method_call_restore, operation_func, reboot_system,
  restart_agent, method_call_install_complete, method_call_apply_complete,
  method_call_restore_complete, operation_complete_func, not_in_progress,
}
use mbed_ce_client_for_azure.Deployment.Engine.{current_step_of}

-- How many steps can follow.
unfoldable pub rank : WorkflowStep → ℕ
rank undefined = 0
rank restore = 1
rank apply = 2
rank install = 3
rank backup = 4
rank download = 5
rank process_deployment = 6

-- A cancelled operation can start the deployment again, once.
unfoldable pub weight : Agent → ℕ
unfolding rank
weight a = elim a.job [
  | none ↦ 0
  | some j ↦ rank j.current_step + (if j.operation_cancelled then 7 else 0)
]

abbrev pub IsTotalBelow : ℕ → (Agent → Run Agent) → Type 0
IsTotalBelow n f = (b : Agent) → weight b < n → (a : Agent) × (f b ≡ ok a)

pub rank-le : (s : WorkflowStep) → rank s ≤ 6
unfolding rank
rank-le undefined = omega arith
rank-le process_deployment = omega arith
rank-le download = omega arith
rank-le backup = omega arith
rank-le install = omega arith
rank-le apply = omega arith
rank-le restore = omega arith

pub method_call_idle-weight : (a : Agent) → weight (method_call_idle a) ≤ weight a
unfolding weight method_call_idle
method_call_idle-weight a = ground arith

pub report_state-weight :
    (p : Platform) (st : State) (a : Agent) → weight (report_state p st a) ≤ weight a
unfolding weight report_state method_call_idle
report_state-weight p st a = ground arith

pub set_update_state-weight :
    (p : Platform) (st : State) (a : Agent) → weight (set_update_state p st a) ≤ weight a
unfolding weight set_update_state set_installed_update_id_and_go_to_idle method_call_idle
set_update_state-weight p st a = ground (arith, report_state-weight p st a)

pub reboot_system-weight : (p : Platform) (a : Agent) → weight (reboot_system p a) ≤ weight a
unfolding weight reboot_system
reboot_system-weight p a = ground arith

pub restart_agent-weight : (p : Platform) (a : Agent) → weight (restart_agent p a) ≤ weight a
unfolding weight restart_agent
restart_agent-weight p a = ground arith

pub install_complete-weight :
    (p : Platform) (a : Agent) → weight (method_call_install_complete p a) ≤ weight a
unfolding method_call_install_complete
install_complete-weight p a = ground (arith, reboot_system-weight p a, restart_agent-weight p a)

pub not_in_progress-weight : (a : Agent) → weight (not_in_progress a) ≤ weight a
unfolding weight
not_in_progress-weight a = ground arith

pub apply_complete-weight :
    (p : Platform) (r : Outcome) (a : Agent) → weight (method_call_apply_complete p r a) ≤ weight a
unfolding method_call_apply_complete
apply_complete-weight p r a =
    ground (arith, reboot_system-weight p a, restart_agent-weight p a, not_in_progress-weight a)

pub restore_complete-weight :
    (p : Platform) (r : Outcome) (a : Agent)
    → weight (method_call_restore_complete p r a) ≤ weight a
unfolding method_call_restore_complete
restore_complete-weight p pending a = omega arith
restore_complete-weight p success_plain a = not_in_progress-weight a
restore_complete-weight p success_reboot a = reboot_system-weight p a
restore_complete-weight p success_agent_restart a = restart_agent-weight p a
restore_complete-weight p success_other a = omega arith
restore_complete-weight p failure a = omega arith

pub operation_complete_func-weight :
    (p : Platform) (s : WorkflowStep) (r : Outcome) (a : Agent)
    → weight (operation_complete_func p s r a) ≤ weight a
unfolding operation_complete_func
operation_complete_func-weight p undefined r a = omega arith
operation_complete_func-weight p process_deployment r a = omega arith
operation_complete_func-weight p download r a = omega arith
operation_complete_func-weight p backup r a = omega arith
operation_complete_func-weight p install r a = install_complete-weight p a
operation_complete_func-weight p apply r a = apply_complete-weight p r a
operation_complete_func-weight p restore r a = restore_complete-weight p r a

pub record_event-weight :
    (a : Agent) (h : List Event) → weight (record a { history = h }) ≡ weight a
unfolding weight
record_event-weight a h = refl

pub call_operation-weight :
    (p : Platform) (s : WorkflowStep) (a : Agent) → weight (call_operation p s a).1 ≤ weight a
unfolding weight call_operation
call_operation-weight p s a = omega arith

pub started-weight :
    (p : Platform) (s : WorkflowStep) (st : State) (a : Agent)
    → weight (call_operation p s (set_update_state p st a)).1 ≤ weight a
started-weight p s st a =
    omega
      (arith, call_operation-weight p s (set_update_state p st a), set_update_state-weight p st a)

pub restore-weight :
    (a : Agent)
    → current_step_of a ≡ restore
    → weight (set_job (λ j. record j { current_step = restore }) a) ≤ weight a
unfolding weight
restore-weight a is = ground arith

pub download-weight : (p : Platform) (a : Agent) → weight (method_call_download p a).1 ≤ weight a
unfolding method_call_download
download-weight p a =
    let same = record_event-weight a (sandbox_create ∷ a.history) in
    ground (arith, same, started-weight p download download_started (record_event sandbox_create a))

pub operation_func-weight :
    (p : Platform) (s : WorkflowStep) (a : Agent)
    → current_step_of a ≡ s
    → weight (operation_func p s a).1 ≤ weight a
unfolding operation_func method_call_process_deployment method_call_backup method_call_install
    method_call_apply method_call_restore
operation_func-weight p undefined a is = omega arith
operation_func-weight p process_deployment a is = omega arith
operation_func-weight p download a is = download-weight p a
operation_func-weight p backup a is = ground (arith, started-weight p backup backup_started a)
operation_func-weight p install a is = ground (arith, started-weight p install install_started a)
operation_func-weight p apply a is = ground (arith, started-weight p apply apply_started a)
operation_func-weight p restore a is =
    let a1 = set_job (λ j. record j { current_step = restore }) a in
    ground (arith, started-weight p restore restore_started a1, restore-weight a is)
