-- ===== src/Deployment/Order/Calls.antt =====
-- Each operation of agent_workflow.cpp keeps the order of the calls.
use mbed_ce_client_for_azure.Base.{
  ◌≡◌, refl, arith, true, false, not, some, ◌∷◌, if◌then◌else◌, Bool-cases, inl, inr,
}
use mbed_ce_client_for_azure.Workflow.{
  State, idle, deployment_in_progress, download_started, download_succeeded, backup_started,
  backup_succeeded, install_started, install_succeeded, apply_started, restore_started,
  failed_state, WorkflowStep, undefined, process_deployment, download, backup, install, apply,
  restore,
}
use mbed_ce_client_for_azure.Deployment.{
  report, sandbox_create, Agent, Outcome, pending, success_plain, success_reboot,
  success_agent_restart, success_other, failure, Platform, set_job, record_event, state_number,
  same_state,
}
use mbed_ce_client_for_azure.Deployment.Reports.{report_state, set_update_state}
use mbed_ce_client_for_azure.Deployment.Operations.{
  call_operation, method_call_process_deployment, method_call_download, method_call_backup,
  method_call_install, method_call_apply, method_call_restore, operation_func, reboot_system,
  restart_agent, method_call_install_complete, method_call_apply_complete,
  method_call_restore_complete, operation_complete_func, not_in_progress, asks,
}
use mbed_ce_client_for_azure.Deployment.Order.{
  last_report, is_reported, is_called_after, is_ordered, is_milestone, IsSound, quiet,
  reboot_system-IsSound, restart_agent-IsSound, set_job-IsSound,
}

set_update_state-report_state :
    (p : Platform) (st : State) (a : Agent)
    → same_state st idle ≡ false
    → set_update_state p st a ≡ report_state p st a
unfolding set_update_state
set_update_state-report_state p st a busy = rw busy refl

call_operation-IsSound :
    (p : Platform) (s : WorkflowStep) (st : State) (a : Agent)
    → IsSound a
    → same_state st idle ≡ false
    → is_milestone st ≡ false
    → is_called_after s (report st false ∷ a.history) ≡ true
    → IsSound (call_operation p s (set_update_state p st a)).1
unfolding call_operation report_state is_ordered last_report
call_operation-IsSound p s st a sound busy early after =
    rw (set_update_state-report_state p st a busy) (ground (arith, sound.ordered))

same_state-eq : (s t : State) → same_state s t ≡ true → s ≡ t
unfolding state_number
same_state-eq s t h = ground arith

same_state_refl : (s : State) → same_state s s ≡ true
unfolding state_number
same_state_refl s = ground arith

is_reported-milestone :
    (a : Agent) (r : State)
    → IsSound a
    → is_milestone r ≡ true
    → same_state a.last_reported_state r ≡ true
    → is_reported (last_report a.history) r ≡ true
is_reported-milestone a r sound waits at =
    let same = same_state-eq a.last_reported_state r at in
    let last : last_report a.history ≡ some r = rw same at (sound.agrees (rw same waits)) in
    rw last (same_state_refl r)

-- An operation behind a guard on the state that was reported.
guarded-IsSound :
    (p : Platform) (s : WorkflowStep) (st r : State) (a : Agent)
    → IsSound a
    → same_state st idle ≡ false
    → is_milestone st ≡ false
    → is_milestone r ≡ true
    → (is_reported (last_report a.history) r ≡ true
        → is_called_after s (report st false ∷ a.history) ≡ true)
    → IsSound
        (if not (same_state a.last_reported_state r)
          then (failure, a)
          else call_operation p s (set_update_state p st a)).1
guarded-IsSound p s st r a sound busy early waits after =
    elim (Bool-cases (same_state a.last_reported_state r)) [
      | inl at ↦ rw at (
          call_operation-IsSound p s st a sound busy early
            (after (is_reported-milestone a r sound waits at)))
      | inr off ↦ rw off sound
    ]

method_call_backup-IsSound :
    (p : Platform) (a : Agent) → IsSound a → IsSound (method_call_backup p a).1
unfolding method_call_backup state_number
method_call_backup-IsSound p a sound =
    guarded-IsSound p backup backup_started download_succeeded a sound refl refl refl λ h. h

method_call_install-IsSound :
    (p : Platform) (a : Agent) → IsSound a → IsSound (method_call_install p a).1
unfolding method_call_install state_number
method_call_install-IsSound p a sound =
    guarded-IsSound p install install_started backup_succeeded a sound refl refl refl λ h. h

method_call_apply-IsSound :
    (p : Platform) (a : Agent) → IsSound a → IsSound (method_call_apply p a).1
unfolding method_call_apply state_number
method_call_apply-IsSound p a sound =
    guarded-IsSound p apply apply_started install_succeeded a sound refl refl refl λ h. h

method_call_download-IsSound :
    (p : Platform) (a : Agent) → IsSound a → IsSound (method_call_download p a).1
unfolding method_call_download last_report is_ordered state_number
method_call_download-IsSound p a sound =
    let b = record_event sandbox_create a in
    let made : IsSound b = quiet a b sound refl refl refl in
    elim (Bool-cases (same_state a.last_reported_state deployment_in_progress)) [
      | inr off ↦ rw off sound
      | inl at ↦ elim (Bool-cases (p.sandbox_result a.history)) [
        | inr bad ↦ rw (at, bad) made
        | inl good ↦
            rw (at, good)
              (call_operation-IsSound p download download_started b made refl refl
                (is_reported-milestone b deployment_in_progress made refl at))
      ]
    ]

method_call_restore-IsSound :
    (p : Platform) (a : Agent) → IsSound a → IsSound (method_call_restore p a).1
unfolding method_call_restore state_number
method_call_restore-IsSound p a sound =
    let b = set_job (λ j. record j { current_step = restore }) a in
    elim (Bool-cases (same_state a.last_reported_state failed_state)) [
      | inr off ↦ rw off sound
      | inl at ↦ rw at (
          call_operation-IsSound p restore restore_started b
            (set_job-IsSound (λ j. record j { current_step = restore }) a sound) refl refl refl)
    ]

pub operation_func-IsSound :
    (p : Platform) (s : WorkflowStep) (a : Agent) → IsSound a → IsSound (operation_func p s a).1
unfolding operation_func method_call_process_deployment
operation_func-IsSound p undefined a sound = sound
operation_func-IsSound p process_deployment a sound = sound
operation_func-IsSound p download a sound = method_call_download-IsSound p a sound
operation_func-IsSound p backup a sound = method_call_backup-IsSound p a sound
operation_func-IsSound p install a sound = method_call_install-IsSound p a sound
operation_func-IsSound p apply a sound = method_call_apply-IsSound p a sound
operation_func-IsSound p restore a sound = method_call_restore-IsSound p a sound

restarted-IsSound :
    (p : Platform) (a b : Agent)
    → IsSound a
    → IsSound b
    → IsSound (
        if asks p.reboot_requested a
        then reboot_system p a
        else if asks p.agent_restart_requested a
        then restart_agent p a
        else b)
restarted-IsSound p a b sound sound' =
    let one = reboot_system-IsSound p a sound in
    let two = restart_agent-IsSound p a sound in
    elim (Bool-cases (asks p.reboot_requested a)) [
      | inl wants ↦ rw wants one
      | inr none_asked ↦ elim (Bool-cases (asks p.agent_restart_requested a)) [
        | inl wants ↦ rw (none_asked, wants) two
        | inr neither ↦ rw (none_asked, neither) sound'
      ]
    ]

not_in_progress-IsSound : (a : Agent) → IsSound a → IsSound (not_in_progress a)
not_in_progress-IsSound = set_job-IsSound (λ j. record j { operation_in_progress = false })

apply_complete-IsSound :
    (p : Platform) (r : Outcome) (a : Agent)
    → IsSound a
    → IsSound (method_call_apply_complete p r a)
unfolding method_call_apply_complete
apply_complete-IsSound p pending a sound = restarted-IsSound p a a sound sound
apply_complete-IsSound p success_plain a sound =
    restarted-IsSound p a (not_in_progress a) sound (not_in_progress-IsSound a sound)
apply_complete-IsSound p success_reboot a sound = restarted-IsSound p a a sound sound
apply_complete-IsSound p success_agent_restart a sound = restarted-IsSound p a a sound sound
apply_complete-IsSound p success_other a sound = restarted-IsSound p a a sound sound
apply_complete-IsSound p failure a sound = restarted-IsSound p a a sound sound

restore_complete-IsSound :
    (p : Platform) (r : Outcome) (a : Agent)
    → IsSound a
    → IsSound (method_call_restore_complete p r a)
unfolding method_call_restore_complete
restore_complete-IsSound p pending a sound = sound
restore_complete-IsSound p success_plain a sound = not_in_progress-IsSound a sound
restore_complete-IsSound p success_reboot a sound = reboot_system-IsSound p a sound
restore_complete-IsSound p success_agent_restart a sound = restart_agent-IsSound p a sound
restore_complete-IsSound p success_other a sound = sound
restore_complete-IsSound p failure a sound = sound

pub operation_complete_func-IsSound :
    (p : Platform) (s : WorkflowStep) (r : Outcome) (a : Agent)
    → IsSound a
    → IsSound (operation_complete_func p s r a)
unfolding operation_complete_func method_call_install_complete
operation_complete_func-IsSound p undefined r a sound = sound
operation_complete_func-IsSound p process_deployment r a sound = sound
operation_complete_func-IsSound p download r a sound = sound
operation_complete_func-IsSound p backup r a sound = sound
operation_complete_func-IsSound p install r a sound = restarted-IsSound p a a sound sound
operation_complete_func-IsSound p apply r a sound = apply_complete-IsSound p r a sound
operation_complete_func-IsSound p restore r a sound = restore_complete-IsSound p r a sound
