-- ===== src/Workflow/Fields.antt =====
-- The state, the flags and the results of one workflow object of workflow_utils.c.
use mbed_ce_client_for_azure.Base.{
  ℕ, ◌==◌, Bool, true, false, Option, none, some, Bytes, if◌then◌else◌, Run, ok, ◌>>=◌, [], take,
}
use mbed_ce_client_for_azure.Workflow.Parson.{Json}
use mbed_ce_client_for_azure.Workflow.{
  Ptr, null, State, none_state, WorkflowStep, undefined, process_deployment, CancellationType,
  no_cancellation, normal, Result, Workflow, Store, load, write, peek, poke,
}

module _ {J : Json} where
  unfoldable pub set_operation_in_progress : Ptr → Bool → Store J → Run (Store J)
  set_operation_in_progress handle b = poke handle (λ w. record w { operation_in_progress = b })

  unfoldable pub get_operation_in_progress : Ptr → Store J → Run Bool
  get_operation_in_progress handle = peek handle false (λ w. w.operation_in_progress)

  unfoldable pub set_operation_cancel_requested : Ptr → Bool → Store J → Run (Store J)
  set_operation_cancel_requested handle b = poke handle (λ w. record w { operation_cancelled = b })

  unfoldable pub get_operation_cancel_requested : Ptr → Store J → Run Bool
  get_operation_cancel_requested handle = peek handle false (λ w. w.operation_cancelled)

  unfoldable pub clear_inprogress_and_cancelrequested : Ptr → Store J → Run (Store J)
  clear_inprogress_and_cancelrequested handle =
      poke handle (λ w. record w { operation_in_progress = false; operation_cancelled = false })

  unfoldable pub get_current_workflowstep : Ptr → Store J → Run WorkflowStep
  get_current_workflowstep handle = peek handle undefined (λ w. w.current_workflow_step)

  unfoldable pub set_current_workflowstep : Ptr → WorkflowStep → Store J → Run (Store J)
  set_current_workflowstep handle s = poke handle (λ w. record w { current_workflow_step = s })

  unfoldable pub get_state : Ptr → Store J → Run State
  get_state handle = peek handle none_state (λ w. w.workflow_state)

  -- The result says whether there is an object.
  unfoldable pub set_state : Ptr → State → Store J → Run (Bool × Store J)
  set_state handle st s =
      if handle == null
      then ok (false, s)
      else (load handle s >>= λ w. ok (true, write s handle (record w { workflow_state = st })))

  unfoldable pub set_result : Ptr → Result → Store J → Run (Store J)
  set_result handle r = poke handle (λ w. record w { result = r })

  unfoldable pub get_result : Ptr → Store J → Run Result
  get_result handle =
      peek handle (record { result_code = 0; extended_result_code = 0 }) (λ w. w.result)

  unfoldable pub set_success_erc : Ptr → ℕ → Store J → Run (Store J)
  set_success_erc handle erc = poke handle (λ w. record w { result_success_erc = erc })

  unfoldable pub get_success_erc : Ptr → Store J → Run ℕ
  get_success_erc handle = peek handle 0 (λ w. w.result_success_erc)

  unfoldable pub set_cancellation_type : Ptr → CancellationType → Store J → Run (Store J)
  set_cancellation_type handle t = poke handle (λ w. record w { cancellation_type = t })

  unfoldable pub get_cancellation_type : Ptr → Store J → Run CancellationType
  get_cancellation_type handle = peek handle normal (λ w. w.cancellation_type)

  unfoldable pub get_force_update : Ptr → Store J → Run Bool
  get_force_update handle = peek handle false (λ w. w.force_update)

  unfoldable pub set_force_update : Ptr → Bool → Store J → Run (Store J)
  set_force_update handle b = poke handle (λ w. record w { force_update = b })

  -- `STRING_empty` empties the text that is there. The new text is what is formatted, up to 1023 bytes.
  unfoldable pub set_result_details : Ptr → Option Bytes → Store J → Run (Store J)
  set_result_details handle format = poke handle (λ w. elim format [
    | none ↦ record w { result_details = elim w.result_details [ none ↦ none | some _ ↦ some [] ] }
    | some text ↦ record w { result_details = some (take 1023 text) }
  ])

  unfoldable pub peek_result_details : Ptr → Store J → Run (Option Bytes)
  peek_result_details handle = peek handle none (λ w. w.result_details)

  unfoldable pub set_installed_update_id : Ptr → Option Bytes → Store J → Run (Store J)
  set_installed_update_id handle id = poke handle (λ w. elim id [
    | none ↦ record w {
      installed_update_id = elim w.installed_update_id [ none ↦ none | some _ ↦ some [] ];
    }
    | some text ↦ record w { installed_update_id = some text }
  ])

  unfoldable pub peek_installed_update_id : Ptr → Store J → Run (Option Bytes)
  peek_installed_update_id handle = peek handle none (λ w. w.installed_update_id)

  -- reset_state_for_processing_deployment
  abbrev pub reset_state : Workflow J → Workflow J
  reset_state w = record w {
    current_workflow_step = process_deployment;
    operation_in_progress = false;
    operation_cancelled = false;
    cancellation_type = no_cancellation;
  }
