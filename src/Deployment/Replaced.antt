-- ===== src/Deployment/Replaced.antt =====
-- How agent_workflow.cpp replaces a deployment whose download is in progress.
use mbed_ce_client_for_azure.Base.{
  ℕ, ◌≡◌, refl, ◌∙◌, arith, Bool, true, false, not, ◌&&◌, none, some, ◌∷◌, Run, ok,
}
use mbed_ce_client_for_azure.Workflow.{
  idle, failed_state, download, process_deployment, no_cancellation, replacement,
}
use mbed_ce_client_for_azure.Deployment.{
  process_action, sandbox_destroy, cancel_callback, Job, Agent, failure, Platform, handler_entry,
  record_event, same_state,
}
use mbed_ce_client_for_azure.Deployment.Operations.{operation_complete_func}
use mbed_ce_client_for_azure.Deployment.Engine.{
  cancel_completion, complete_step, is_cancel, work_completion, cancelling, handle_update_action,
}
use mbed_ce_client_for_azure.Deployment.Updates.{
  new_workflow, replacing, by_action, replace_update, handle_workflow, handle_property_update,
}

replacement_asked :
    (p : Platform) (fuel : ℕ) (a : Agent) (j : Job)
    → a.job ≡ some j
    → j.operation_in_progress ≡ true
    → j.cancellation_type ≡ replacement
    → p.action_of j.id ≡ process_action
    → handle_update_action p fuel a ≡ ok (record_event cancel_callback (cancelling a))
unfolding handle_update_action
replacement_asked p fuel a j held busy kind action = ground arith

replacement_taken :
    (p : Platform) (fuel n : ℕ) (force : Bool) (a : Agent) (j : Job)
    → a.job ≡ some j
    → j.operation_in_progress ≡ true
    → j.current_step ≡ download
    → same_state a.last_reported_state idle ≡ false
    → same_state a.last_reported_state failed_state ≡ false
    → p.action_of n ≡ process_action
    → (not force && p.same_id j.id n) ≡ false
    → handle_property_update p fuel (some n) force a
      ≡ handle_update_action p fuel (replacing (new_workflow p n force) a)
unfolding handle_property_update handle_workflow by_action replace_update
replacement_taken p fuel n force a j held busy step early good action other =
    rw (held, action, other, early, good, step, busy) refl

replacement_done :
    (p : Platform) (next : Agent → Run Agent) (n : ℕ) (a : Agent) (j : Job)
    → a.job ≡ some j
    → j.current_step ≡ download
    → j.cancellation_type ≡ replacement
    → j.operation_cancelled ≡ true
    → j.deferred ≡ some n
    → is_cancel a.current_action ≡ false
    → work_completion p next failure a
      ≡ next (record a {
        job = some (record j {
          id = n;
          current_step = process_deployment;
          operation_in_progress = false;
          operation_cancelled = false;
          cancellation_type = no_cancellation;
          deferred = none;
          retry_token = none;
        });
        last_reported_state = idle;
        history = sandbox_destroy ∷ a.history;
      })
unfolding work_completion handler_entry complete_step cancel_completion operation_complete_func
replacement_done p next n a j held step kind asked later action = ground arith

-- Where the last reported state is neither idle nor failed and the agent's action is not cancel: a
-- deployment that comes in while the download of another one is in progress, with another id or forced, is
-- put off, and the cancel callback is called once. When the download then ends with a failure, its folder is
-- removed, and the object goes on with what the new deployment holds, from the first step and from the idle
-- state.
pub deployment_replaced :
    (p : Platform) (fuel n : ℕ) (force : Bool) (next : Agent → Run Agent) (a : Agent) (j : Job)
    → a.job ≡ some j
    → j.operation_in_progress ≡ true
    → j.current_step ≡ download
    → same_state a.last_reported_state idle ≡ false
    → same_state a.last_reported_state failed_state ≡ false
    → p.action_of j.id ≡ process_action
    → p.action_of n ≡ process_action
    → (not force && p.same_id j.id n) ≡ false
    → is_cancel a.current_action ≡ false
    → (b : Agent) × (handle_property_update p fuel (some n) force a ≡ ok b)
      × (b.history ≡ cancel_callback ∷ a.history)
      × (work_completion p next failure b
          ≡ next (record b {
            job = some (record j {
              id = n;
              current_step = process_deployment;
              operation_in_progress = false;
              operation_cancelled = false;
              cancellation_type = no_cancellation;
              deferred = none;
              retry_token = none;
            });
            last_reported_state = idle;
            history = sandbox_destroy ∷ cancel_callback ∷ a.history;
          }))
deployment_replaced p fuel n force next a j held busy step early good old_action new_action other
      action =
    let c = replacing (new_workflow p n force) a in
    let k = record j {
      cancellation_type = replacement;
      operation_cancelled = true;
      deferred = some n;
    } in
    let is : c.job ≡ some k = ground arith in
    let b = record_event cancel_callback (cancelling c) in
    let is_b : b.job ≡ some k = ground arith in
    (
      b,
      replacement_taken p fuel n force a j held busy step early good new_action other
          ∙ replacement_asked p fuel c k is busy refl old_action,
      refl,
      replacement_done p next n b k is_b step refl refl refl action,
    )
