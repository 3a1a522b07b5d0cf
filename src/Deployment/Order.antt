-- ===== src/Deployment/Order.antt =====
-- The order in which agent_workflow.cpp calls the operations of a deployment and reports its states.
pub mod Calls
pub mod Steps
pub mod Updates
pub mod Reached
use mbed_ce_client_for_azure.Base.{
  ◌≡◌, refl, arith, Bool, true, false, ◌&&◌, Option, none, some, List, [], ◌∷◌, Bool-cases, inl,
  inr,
}
use mbed_ce_client_for_azure.Workflow.{
  State, idle, deployment_in_progress, download_started, download_succeeded, backup_started,
  backup_succeeded, install_started, install_succeeded, apply_started, restore_started,
  WorkflowStep, download, backup, install, apply, restore,
}
use mbed_ce_client_for_azure.Deployment.{
  Event, report, operation, sandbox_create, sandbox_destroy, idle_callback, cancel_callback, reboot,
  agent_restart, Job, Agent, Platform, set_job, state_number, same_state,
}
use mbed_ce_client_for_azure.Deployment.Reports.{
  method_call_idle, set_installed_update_id_and_go_to_idle, report_state, is_not_needed,
  is_in_progress, set_update_state,
}
use mbed_ce_client_for_azure.Deployment.Operations.{reboot_system, restart_agent}

-- The state of the last report.
unfoldable pub last_report : List Event → Option State
last_report [] = none
last_report (report st installed ∷ h) = some st
last_report (operation s ∷ h) = last_report h
last_report (sandbox_create ∷ h) = last_report h
last_report (sandbox_destroy ∷ h) = last_report h
last_report (idle_callback ∷ h) = last_report h
last_report (cancel_callback ∷ h) = last_report h
last_report (reboot ∷ h) = last_report h
last_report (agent_restart ∷ h) = last_report h

abbrev pub is_reported : Option State → State → Bool
is_reported none st = false
is_reported (some t) st = same_state t st

-- The report that has to come before the operation of a step, and the one in front of that.
abbrev pub is_called_after : WorkflowStep → List Event → Bool
is_called_after download (report st installed ∷ h) =
    same_state st download_started && is_reported (last_report h) deployment_in_progress
is_called_after backup (report st installed ∷ h) =
    same_state st backup_started && is_reported (last_report h) download_succeeded
is_called_after install (report st installed ∷ h) =
    same_state st install_started && is_reported (last_report h) backup_succeeded
is_called_after apply (report st installed ∷ h) =
    same_state st apply_started && is_reported (last_report h) install_succeeded
is_called_after restore (report st installed ∷ h) = same_state st restore_started
is_called_after _ _ = false

-- Every operation in a history comes directly behind the report that it starts, and that comes behind
-- the report that the step before it has succeeded.
unfoldable pub is_ordered : List Event → Bool
is_ordered [] = true
is_ordered (report st installed ∷ h) = is_ordered h
is_ordered (operation s ∷ h) = is_called_after s h && is_ordered h
is_ordered (sandbox_create ∷ h) = is_ordered h
is_ordered (sandbox_destroy ∷ h) = is_ordered h
is_ordered (idle_callback ∷ h) = is_ordered h
is_ordered (cancel_callback ∷ h) = is_ordered h
is_ordered (reboot ∷ h) = is_ordered h
is_ordered (agent_restart ∷ h) = is_ordered h

-- The states that a step waits for.
abbrev pub is_milestone : State → Bool
is_milestone deployment_in_progress = true
is_milestone download_succeeded = true
is_milestone backup_succeeded = true
is_milestone install_succeeded = true
is_milestone _ = false

-- The history is in order, and a milestone that counts as reported is the last report.
pub record IsSound (a : Agent) : Type 0 where
  pub ordered : is_ordered a.history ≡ true
  pub agrees :
      is_milestone a.last_reported_state ≡ true → last_report a.history ≡ some a.last_reported_state

pub method_call_idle-IsSound :
    (a : Agent)
    → IsSound a
    → is_milestone a.last_reported_state ≡ false
    → IsSound (method_call_idle a)
unfolding method_call_idle is_ordered
method_call_idle-IsSound a sound early = ground (arith, sound.ordered)

pub report_state-IsSound :
    (p : Platform) (st : State) (a : Agent) → IsSound a → IsSound (report_state p st a)
unfolding report_state method_call_idle is_ordered last_report
report_state-IsSound p st a sound = ground (arith, sound.ordered)

pub installed-IsSound :
    (p : Platform) (a : Agent) → IsSound a → IsSound (set_installed_update_id_and_go_to_idle p a)
unfolding set_installed_update_id_and_go_to_idle method_call_idle is_ordered
installed-IsSound p a sound = ground (arith, sound.ordered)

is_milestone-apply_started :
    (st : State) → same_state st apply_started ≡ true → is_milestone st ≡ false
unfolding state_number
is_milestone-apply_started st h = ground arith

is_milestone-idle : (st : State) → same_state st idle ≡ true → is_milestone st ≡ false
unfolding state_number
is_milestone-idle st h = ground arith

pub relabel :
    (a : Agent) (st : State)
    → IsSound a
    → is_milestone st ≡ false
    → IsSound (record a { last_reported_state = st })
relabel a st sound early = ground (arith, sound.ordered)

pub set_update_state-IsSound :
    (p : Platform) (st : State) (a : Agent) → IsSound a → IsSound (set_update_state p st a)
unfolding set_update_state
set_update_state-IsSound p st a sound =
    let other = report_state-IsSound p st a sound in
    elim (Bool-cases (same_state st idle)) [
      | inr busy ↦ rw busy other
      | inl ends ↦ elim (Bool-cases (same_state a.last_reported_state apply_started)) [
        | inr busy ↦ rw (ends, busy) other
        | inl applied ↦
            let idled =
              method_call_idle-IsSound a sound
                (is_milestone-apply_started a.last_reported_state applied) in
            let went =
              relabel (set_installed_update_id_and_go_to_idle p a) st (installed-IsSound p a sound)
                (is_milestone-idle st ends) in
            elim (Bool-cases (is_not_needed a.system_reboot_state)) [
              | inl steady ↦ elim (Bool-cases (is_not_needed a.agent_restart_state)) [
                | inl calm ↦ rw (ends, applied, steady, calm) went
                | inr restarts ↦ elim (Bool-cases (is_in_progress a.agent_restart_state)) [
                  | inl runs ↦ rw (ends, applied, steady, restarts, runs) idled
                  | inr stays ↦ rw (ends, applied, steady, restarts, stays) other
                ]
              ]
              | inr reboots ↦ elim (Bool-cases (is_in_progress a.system_reboot_state)) [
                | inl runs ↦ rw (ends, applied, reboots, runs) idled
                | inr stays ↦ elim (Bool-cases (is_in_progress a.agent_restart_state)) [
                  | inl runs ↦ rw (ends, applied, reboots, stays, runs) idled
                  | inr rests ↦ rw (ends, applied, reboots, stays, rests) other
                ]
              ]
            ]
      ]
    ]

-- Events that are no reports and no operations, and changes of the object.
pub quiet :
    (a b : Agent)
    → IsSound a
    → is_ordered b.history ≡ is_ordered a.history
    → last_report b.history ≡ last_report a.history
    → b.last_reported_state ≡ a.last_reported_state
    → IsSound b
quiet a b sound same same' same'' = ground (arith, sound.ordered, sound.agrees)

pub reboot_system-IsSound : (p : Platform) (a : Agent) → IsSound a → IsSound (reboot_system p a)
reboot_system-IsSound p a sound =
    quiet a (reboot_system p a) sound (unfold reboot_system is_ordered in ground arith)
      (unfold reboot_system last_report in ground arith) (unfold reboot_system in ground arith)

pub restart_agent-IsSound : (p : Platform) (a : Agent) → IsSound a → IsSound (restart_agent p a)
restart_agent-IsSound p a sound =
    quiet a (restart_agent p a) sound (unfold restart_agent is_ordered in ground arith)
      (unfold restart_agent last_report in ground arith) (unfold restart_agent in ground arith)

pub set_job-IsSound : (f : Job → Job) (a : Agent) → IsSound a → IsSound (set_job f a)
set_job-IsSound f a sound = quiet a (set_job f a) sound refl refl refl
