-- ===== src/Deployment/Cancelled.antt =====
-- How agent_workflow.cpp cancels a download.
use mbed_ce_client_for_azure.Base.{
  ℕ, Bool, ◌≡◌, refl, ap, arith, true, false, none, some, List, ◌∷◌, Run, ok,
}
use mbed_ce_client_for_azure.Workflow.{idle, apply_started, download, normal, no_cancellation}
use mbed_ce_client_for_azure.Deployment.{
  Event, report, set_job, cancel_action, sandbox_destroy, idle_callback, cancel_callback, Job,
  Agent, failure, Platform, handler_entry, record_event, state_number, same_state,
}
use mbed_ce_client_for_azure.Deployment.Reports.{method_call_idle, report_state, set_update_state}
use mbed_ce_client_for_azure.Deployment.Operations.{operation_complete_func}
use mbed_ce_client_for_azure.Deployment.Engine.{
  cancel_completion, complete_step, is_cancel, work_completion, cancelling, handle_update_action,
}
use mbed_ce_client_for_azure.Deployment.Updates.{
  handle_property_update, handle_workflow, by_action, cancel_update,
}

-- The kind of the cancellation is set.
abbrev asking : Agent → Agent
asking = set_job (λ k. record k { cancellation_type = normal })

cancel_asked :
    (p : Platform) (fuel n : ℕ) (force : Bool) (a : Agent) (j : Job)
    → a.job ≡ some j
    → j.operation_in_progress ≡ true
    → j.cancellation_type ≡ no_cancellation
    → p.action_of n ≡ cancel_action
    → handle_property_update p fuel (some n) force a
      ≡ ok (record_event cancel_callback (cancelling (asking a)))
unfolding handle_property_update handle_workflow by_action cancel_update handle_update_action
cancel_asked p fuel n force a j held busy kind action = rw (held, action, kind, busy) (ground arith)

cancel_done :
    (p : Platform) (next : Agent → Run Agent) (a : Agent) (j : Job)
    → a.job ≡ some j
    → j.current_step ≡ download
    → j.cancellation_type ≡ normal
    → j.operation_cancelled ≡ true
    → is_cancel a.current_action ≡ false
    → work_completion p next failure a ≡ ok (set_update_state p idle a)
unfolding work_completion handler_entry complete_step cancel_completion operation_complete_func
cancel_done p next a j held step kind asked action = ground arith

went_idle :
    (p : Platform) (a : Agent) (j : Job)
    → a.job ≡ some j
    → same_state a.last_reported_state apply_started ≡ false
    → p.report_sent a.history ≡ true
    → set_update_state p idle a ≡ record a {
      job = none;
      last_reported_state = idle;
      history = idle_callback ∷ sandbox_destroy ∷ report idle false ∷ a.history;
    }
unfolding set_update_state report_state method_call_idle state_number
went_idle p a j held early sent = rw early (ground arith)

-- With reports that can be sent, where the last reported state is not that the application has started and
-- the agent's action is not cancel: an update with the action cancel, that comes in while a download is in
-- progress and no cancellation, replacement or retry of it is pending, calls the cancel callback once. When
-- the download then ends with a failure, the idle state is reported, the idle callback is called and the
-- object is gone.
pub cancel_download :
    (p : Platform) (fuel n : ℕ) (force : Bool) (next : Agent → Run Agent) (a : Agent) (j : Job)
    → a.job ≡ some j
    → j.operation_in_progress ≡ true
    → j.current_step ≡ download
    → j.cancellation_type ≡ no_cancellation
    → p.action_of n ≡ cancel_action
    → is_cancel a.current_action ≡ false
    → same_state a.last_reported_state apply_started ≡ false
    → ((h : List Event) → p.report_sent h ≡ true)
    → (b c : Agent) × (handle_property_update p fuel (some n) force a ≡ ok b)
      × (b.history ≡ cancel_callback ∷ a.history)
      × (work_completion p next failure b ≡ ok c)
      × (c.job ≡ none)
      × (c.last_reported_state ≡ idle)
      × (c.history ≡ idle_callback ∷ sandbox_destroy ∷ report idle false ∷ b.history)
cancel_download p fuel n force next a j held busy step kind asks action early sent =
    let b = record_event cancel_callback (cancelling (asking a)) in
    let k = record j { cancellation_type = normal; operation_cancelled = true } in
    let is : b.job ≡ some k = ground arith in
    let gone = went_idle p b k is early (sent b.history) in
    (
      b,
      set_update_state p idle b,
      cancel_asked p fuel n force a j held busy kind asks,
      refl,
      cancel_done p next b k is step refl refl action,
      ap (λ (x : Agent). x.job) gone,
      ap (λ (x : Agent). x.last_reported_state) gone,
      ap (λ (x : Agent). x.history) gone,
    )
