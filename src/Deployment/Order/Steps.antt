-- ===== src/Deployment/Order/Steps.antt =====
-- Whatever follows on whatever in agent_workflow.cpp, the calls come in order.
use mbed_ce_client_for_azure.Base.{
  ℕ, zero, suc, ◌≡◌, refl, Bool, true, false, if◌then◌else◌, Run, ok, Option-cases, Bool-cases, inl,
  inr,
}
use mbed_ce_client_for_azure.Workflow.{
  idle, CancellationType, no_cancellation, normal, replacement, retry, component_changed,
}
use mbed_ce_client_for_azure.Deployment.{
  sandbox_destroy, UpdateAction, Agent, Outcome, Platform, HandlerEntry, handler_entry, set_job,
  of_job, record_event, same_state,
}
use mbed_ce_client_for_azure.Deployment.Reports.{
  set_installed_update_id_and_go_to_idle, set_update_state,
}
use mbed_ce_client_for_azure.Deployment.Operations.{operation_complete_func, not_in_progress}
use mbed_ce_client_for_azure.Deployment.Engine.{
  current_step_of, with_step, replace_job, reset_job, auto_transition, succeeded, cancel_completion,
  cleared, complete_step, is_pending, is_cancel, work_completion, transition, start_action,
  is_duplicate,
}
use mathlib.Core.Path.{subst}
use mbed_ce_client_for_azure.Deployment.Order.{
  last_report, is_ordered, IsSound, set_update_state-IsSound, installed-IsSound, quiet, relabel,
  set_job-IsSound,
}
use mbed_ce_client_for_azure.Deployment.Order.Calls.{
  operation_func-IsSound, operation_complete_func-IsSound,
}

abbrev pub Keeps : (Agent → Run Agent) → Type 0
Keeps f = (b c : Agent) → IsSound b → f b ≡ ok c → IsSound c

ok_inj : (a b : Agent) → ok a ≡ ok b → a ≡ b
ok_inj a b h = cc

pub kept : (a b : Agent) → IsSound a → ok a ≡ ok b → IsSound b
kept a b sound e = subst IsSound (ok_inj a b e) sound

auto_transition-IsSound :
    (p : Platform) (next : Agent → Run Agent) (b : Bool) (a c : Agent)
    → Keeps next
    → IsSound a
    → auto_transition p next b a ≡ ok c
    → IsSound c
unfolding auto_transition
auto_transition-IsSound p next b a c keeps sound run =
    elim (Option-cases (handler_entry (current_step_of a))) [
      | inl missing ↦ kept a c sound (rw (missing, auto_transition) at run)
      | inr (entry, is) ↦
          let step = if b then entry.next_step_on_success else entry.next_step_on_failure in
          elim (Bool-cases (p.is_workflow_complete step)) [
            | inl over ↦ kept a c sound (rw (is, auto_transition, over) at run)
            | inr on ↦
                keeps (with_step step a) c
                  (set_job-IsSound (λ j. record j { current_step = step }) a sound)
                  (rw (is, auto_transition, on) at run)
          ]
    ]

cancel_completion-IsSound :
    (p : Platform) (next : Agent → Run Agent) (a c : Agent) (kind : CancellationType)
    → Keeps next
    → IsSound a
    → of_job normal (λ j. j.cancellation_type) a ≡ kind
    → cancel_completion p next a ≡ ok c
    → IsSound c
unfolding cancel_completion is_ordered last_report
cancel_completion-IsSound p next a c no_cancellation keeps sound is run =
    kept a c sound (rw (is, cancel_completion) at run)
cancel_completion-IsSound p next a c normal keeps sound is run =
    kept (set_update_state p idle a) c (set_update_state-IsSound p idle a sound)
      (rw (is, cancel_completion) at run)
cancel_completion-IsSound p next a c replacement keeps sound is run =
    let b = set_job replace_job (record_event sandbox_destroy a) in
    keeps (record b { last_reported_state = idle }) c
      (relabel b idle (quiet a b sound refl refl refl) refl) (rw (is, cancel_completion) at run)
cancel_completion-IsSound p next a c retry keeps sound is run =
    let b = set_job reset_job a in
    keeps (record b { last_reported_state = idle }) c
      (relabel b idle (set_job-IsSound reset_job a sound) refl) (rw (is, cancel_completion) at run)
cancel_completion-IsSound p next a c component_changed keeps sound is run =
    let b = set_job reset_job a in
    keeps (record b { last_reported_state = idle }) c
      (relabel b idle (set_job-IsSound reset_job a sound) refl) (rw (is, cancel_completion) at run)

complete_step-IsSound :
    (p : Platform) (next : Agent → Run Agent) (entry : HandlerEntry) (r : Outcome) (a c : Agent)
    → Keeps next
    → IsSound a
    → complete_step p next entry r a ≡ ok c
    → IsSound c
unfolding complete_step
complete_step-IsSound p next entry r a c keeps sound run =
    let a1 = set_update_state p entry.next_state_on_success a in
    let sound1 = set_update_state-IsSound p entry.next_state_on_success a sound in
    elim (Bool-cases (succeeded r)) [
      | inl good ↦ elim (Bool-cases (same_state a1.last_reported_state idle)) [
        | inl over ↦ kept a1 c sound1 (rw (good, over) at run)
        | inr on ↦
            auto_transition-IsSound p next true (cleared a1) c keeps
              (set_job-IsSound
                (λ j. record j { operation_in_progress = false; operation_cancelled = false }) a1
                sound1)
              (rw (good, on) at run)
      ]
      | inr bad ↦ elim (Bool-cases (of_job false (λ j. j.operation_cancelled) a)) [
        | inl cancelled ↦
            cancel_completion-IsSound p next a c _ keeps sound refl (rw (bad, cancelled) at run)
        | inr failed ↦
            let b = not_in_progress a in
            auto_transition-IsSound p next false (set_update_state p entry.next_state_on_failure b)
              c keeps
              (set_update_state-IsSound p entry.next_state_on_failure b
                (set_job-IsSound (λ j. record j { operation_in_progress = false }) a sound))
              (rw (bad, failed) at run)
      ]
    ]

pub work_completion-IsSound :
    (p : Platform) (next : Agent → Run Agent) (r : Outcome) (a c : Agent)
    → Keeps next
    → IsSound a
    → work_completion p next r a ≡ ok c
    → IsSound c
unfolding work_completion
work_completion-IsSound p next r a c keeps sound run = elim (Bool-cases (is_pending r)) [
  | inl waiting ↦ kept a c sound (rw waiting at run)
  | inr over ↦ elim (Option-cases (handler_entry (current_step_of a))) [
    | inl missing ↦ kept a c sound (rw (over, missing) at run)
    | inr (entry, is) ↦ elim (Bool-cases (is_cancel a.current_action)) [
      | inl cancel ↦ kept a c sound (rw (over, is, cancel) at run)
      | inr other ↦
          complete_step-IsSound p next entry r (operation_complete_func p (current_step_of a) r a) c
            keeps (operation_complete_func-IsSound p (current_step_of a) r a sound)
            (rw (over, is, other) at run)
    ]
  ]
]

pub transition-IsSound :
    (p : Platform) (fuel : ℕ) (a c : Agent) → IsSound a → transition p fuel a ≡ ok c → IsSound c
unfolding transition
transition-IsSound p zero a c sound run = cc
transition-IsSound p (suc fuel) a c sound run =
    elim (Option-cases (handler_entry (current_step_of a))) [
      | inl missing ↦ kept a c sound (rw (missing, transition) at run)
      | inr (entry, is) ↦ elim (Bool-cases (p.allocates a.history)) [
        | inr full ↦ kept a c sound (rw (is, transition, full) at run)
        | inl memory ↦
            let b = set_job (λ j. record j { operation_in_progress = true }) a in
            let sound1 =
              operation_func-IsSound p (current_step_of a) b
                (set_job-IsSound (λ j. record j { operation_in_progress = true }) a sound) in
            work_completion-IsSound p (transition p fuel) _ _ c
              (λ d e s r. transition-IsSound p fuel d e s r) sound1
              (rw (is, transition, memory) at run)
      ]
    ]

pub start_action-IsSound :
    (p : Platform) (fuel : ℕ) (action : UpdateAction) (a c : Agent)
    → IsSound a
    → start_action p fuel action a ≡ ok c
    → IsSound c
unfolding start_action
start_action-IsSound p fuel action a c sound run =
    let b = record a { current_action = action } in
    let sound1 : IsSound b = quiet a b sound refl refl refl in
    elim (Bool-cases (is_duplicate p a)) [
      | inl again ↦ kept a c sound (rw again at run)
      | inr fresh ↦ elim (Bool-cases (p.is_installed a.history)) [
        | inl there ↦
            kept (set_installed_update_id_and_go_to_idle p b) c (installed-IsSound p b sound1)
              (rw (fresh, there) at run)
        | inr missing ↦
            transition-IsSound p fuel (with_step (p.step_of_action action) b) c
              (set_job-IsSound (λ j. record j { current_step = p.step_of_action action }) b sound1)
              (rw (fresh, missing) at run)
      ]
    ]
