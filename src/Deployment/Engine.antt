-- ===== src/Deployment/Engine.antt =====
-- ADUC_Workflow_TransitionWorkflow, ADUC_Workflow_WorkCompletionCallback,
-- ADUC_Workflow_AutoTransitionWorkflow and ADUC_Workflow_HandleUpdateAction of agent_workflow.cpp. The
-- three first call one another: the completion and the automatic transition have the transition that
-- comes next as an argument, and the transition has fuel.
use mbed_ce_client_for_azure.Base.{
  ℕ, zero, suc, Bool, true, false, not, ◌&&◌, ◌||◌, none, some, if◌then◌else◌, Run, ok, out_of_fuel,
}
use mbed_ce_client_for_azure.Workflow.{
  idle, WorkflowStep, undefined, process_deployment, CancellationType, no_cancellation, normal,
  replacement, retry, component_changed,
}
use mbed_ce_client_for_azure.Deployment.{
  UpdateAction, undefined_action, process_action, cancel_action, sandbox_destroy, cancel_callback,
  Job, Agent, Outcome, pending, success_plain, success_reboot, success_agent_restart, success_other,
  failure, Platform, HandlerEntry, handler_entry, set_job, of_job, record_event, same_state,
}
use mbed_ce_client_for_azure.Deployment.Reports.{
  set_update_state, set_installed_update_id_and_go_to_idle,
}
use mbed_ce_client_for_azure.Deployment.Operations.{
  operation_func, operation_complete_func, not_in_progress,
}

abbrev pub current_step_of : Agent → WorkflowStep
current_step_of = of_job undefined (λ j. j.current_step)

abbrev pub with_step : WorkflowStep → Agent → Agent
with_step s = set_job (λ j. record j { current_step = s })

-- reset_state_for_processing_deployment of workflow_utils.c
abbrev pub reset_job : Job → Job
reset_job j = record j {
  current_step = process_deployment;
  operation_in_progress = false;
  operation_cancelled = false;
  cancellation_type = no_cancellation;
}

-- workflow_update_for_replacement of workflow_utils.c
abbrev pub replace_job : Job → Job
replace_job j = reset_job (record j {
  deferred = none;
  id = elim j.deferred [ none ↦ j.id | some i ↦ i ];
  retry_token = none;
})

-- ADUC_Workflow_AutoTransitionWorkflow
unfoldable pub auto_transition : Platform → (Agent → Run Agent) → Bool → Agent → Run Agent
auto_transition p next on_success a = elim (handler_entry (current_step_of a)) [
  | none ↦ ok a
  | some entry ↦
      let step = if on_success then entry.next_step_on_success else entry.next_step_on_failure in
      let on = next (with_step step a) in if p.is_workflow_complete step then ok a else on
]

abbrev pub succeeded : Outcome → Bool
succeeded pending = true
succeeded success_plain = true
succeeded success_reboot = true
succeeded success_agent_restart = true
succeeded success_other = true
succeeded failure = false

-- A cancelled operation is complete.
unfoldable pub cancel_completion : Platform → (Agent → Run Agent) → Agent → Run Agent
cancel_completion p next a = elim (of_job normal (λ j. j.cancellation_type) a) [
  | replacement ↦
      next (record (set_job replace_job (record_event sandbox_destroy a)) {
        last_reported_state = idle;
      })
  | retry ↦ next (record (set_job reset_job a) { last_reported_state = idle })
  | component_changed ↦ next (record (set_job reset_job a) { last_reported_state = idle })
  | normal ↦ ok (set_update_state p idle a)
  | no_cancellation ↦ ok a
]

abbrev pub cleared : Agent → Agent
cleared = set_job (λ j. record j { operation_in_progress = false; operation_cancelled = false })

-- From the entry of the step on.
unfoldable pub complete_step :
    Platform → (Agent → Run Agent) → HandlerEntry → Outcome → Agent → Run Agent
complete_step p next entry result a =
    if succeeded result
    then (let a1 = set_update_state p entry.next_state_on_success a in
        let on = auto_transition p next true (cleared a1) in
        if not (same_state a1.last_reported_state idle) then on else ok a1)
    else (let cancelled = cancel_completion p next a in
        let failed =
          auto_transition p next false
            (set_update_state p entry.next_state_on_failure (not_in_progress a)) in
        if of_job false (λ j. j.operation_cancelled) a then cancelled else failed)

abbrev pub is_cancel : UpdateAction → Bool
is_cancel undefined_action = false
is_cancel process_action = false
is_cancel cancel_action = true

abbrev pub is_pending : Outcome → Bool
is_pending pending = true
is_pending success_plain = false
is_pending success_reboot = false
is_pending success_agent_restart = false
is_pending success_other = false
is_pending failure = false

-- ADUC_Workflow_WorkCompletionCallback, under the lock
unfoldable pub work_completion : Platform → (Agent → Run Agent) → Outcome → Agent → Run Agent
work_completion p next result a =
    if is_pending result then ok a else elim (handler_entry (current_step_of a)) [
      | none ↦ ok a
      | some entry ↦
          let complete =
            complete_step p next entry result
              (operation_complete_func p (current_step_of a) result a) in
          if is_cancel a.current_action then ok a else complete
    ]

-- ADUC_Workflow_TransitionWorkflow
unfoldable pub transition : Platform → ℕ → Agent → Run Agent
transition p zero a = out_of_fuel
transition p (suc fuel) a = elim (handler_entry (current_step_of a)) [
  | none ↦ ok a
  | some entry ↦
      if not (p.allocates a.history)
      then ok a
      else (let (result, a1) =
            operation_func p (current_step_of a)
              (set_job (λ j. record j { operation_in_progress = true }) a) in
          work_completion p (transition p fuel) result a1)
]

abbrev pub is_process : UpdateAction → Bool
is_process undefined_action = false
is_process process_action = true
is_process cancel_action = false

abbrev pub is_normal : CancellationType → Bool
is_normal normal = true
is_normal _ = false

abbrev pub is_replace_or_retry : CancellationType → Bool
is_replace_or_retry replacement = true
is_replace_or_retry retry = true
is_replace_or_retry _ = false

abbrev pub cancelling : Agent → Agent
cancelling = set_job (λ j. record j { operation_cancelled = true })

abbrev pub no_cancel : Agent → Agent
no_cancel =
    set_job (λ j. record j { operation_cancelled = false; cancellation_type = no_cancellation })

-- workflow_isequal_id with the id of the last completed workflow, and not workflow_get_force_update
abbrev pub is_duplicate : Platform → Agent → Bool
is_duplicate p a = elim a.job [
  | none ↦ false
  | some j ↦
      (elim a.last_completed [ none ↦ false | some i ↦ p.same_id j.id i ]) && not j.force_update
]

-- The last part of ADUC_Workflow_HandleUpdateAction.
unfoldable pub start_action : Platform → ℕ → UpdateAction → Agent → Run Agent
start_action p fuel action a =
    if is_duplicate p a
    then ok a
    else (let a1 = record a { current_action = action } in
        if p.is_installed a.history
        then ok (set_installed_update_id_and_go_to_idle p a1)
        else transition p fuel (with_step (p.step_of_action action) a1))

-- ADUC_Workflow_HandleUpdateAction
unfoldable pub handle_update_action : Platform → ℕ → Agent → Run Agent
handle_update_action p fuel a =
    let action = of_job undefined_action (λ j. p.action_of j.id) a in
    let cancellation = of_job normal (λ j. j.cancellation_type) a in
    if is_cancel action
      || is_normal cancellation
      || (is_process action && is_replace_or_retry cancellation)
    then if of_job false (λ j. j.operation_in_progress) a
      then ok (record_event cancel_callback (cancelling a))
      else if is_cancel action || is_normal cancellation
      then ok (no_cancel a)
      else start_action p fuel action (no_cancel a)
    else start_action p fuel action a
