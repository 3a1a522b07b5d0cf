-- ===== src/Deployment/Progress/Total.antt =====
-- The transitions of agent_workflow.cpp come to an end.
use mbed_ce_client_for_azure.Base.{
  ℕ, zero, suc, ◌≤◌, ◌<◌, ◌≡◌, refl, arith, Bool, true, false, some, List, ◌∷◌, if◌then◌else◌, Run,
  ok, Option-cases, Bool-cases, inl, inr,
}
use mbed_ce_client_for_azure.Workflow.{
  State, idle, WorkflowStep, undefined, process_deployment, download, backup, install, apply,
  restore, CancellationType, no_cancellation, normal, replacement, retry, component_changed,
}
use mbed_ce_client_for_azure.Deployment.{
  Event, sandbox_destroy, Agent, Outcome, Platform, HandlerEntry, handler_entry, set_job, of_job,
  record_event, same_state,
}
use mbed_ce_client_for_azure.Deployment.Reports.{set_update_state}
use mbed_ce_client_for_azure.Deployment.Operations.{
  operation_func, operation_complete_func, not_in_progress,
}
use mbed_ce_client_for_azure.Deployment.Engine.{
  replace_job, reset_job, is_pending, is_cancel, current_step_of, with_step, auto_transition,
  succeeded, cancel_completion, cleared, complete_step, work_completion, transition,
}
use mbed_ce_client_for_azure.Deployment.Progress.{
  rank, weight, IsTotalBelow, set_update_state-weight, not_in_progress-weight,
  operation_complete_func-weight, operation_func-weight,
}

next-rank :
    (s : WorkflowStep) (entry : HandlerEntry)
    → handler_entry s ≡ some entry
    → (rank entry.next_step_on_success < rank s) × (rank entry.next_step_on_failure < rank s)
unfolding rank handler_entry
next-rank undefined entry is = cc
next-rank process_deployment entry is = ground arith
next-rank download entry is = ground arith
next-rank backup entry is = ground arith
next-rank install entry is = ground arith
next-rank apply entry is = ground arith
next-rank restore entry is = ground arith

with_step-weight :
    (a : Agent) (s : WorkflowStep)
    → rank s < rank (current_step_of a)
    → weight (with_step s a) < weight a
unfolding weight
with_step-weight a s h = ground arith

auto_transition-total :
    (p : Platform) (next : Agent → Run Agent) (n : ℕ) (b : Bool) (a : Agent)
    → IsTotalBelow n next
    → weight a ≤ n
    → (a' : Agent) × (auto_transition p next b a ≡ ok a')
unfolding auto_transition
auto_transition-total p next n b a total h =
    elim (Option-cases (handler_entry (current_step_of a))) [
      | inl missing ↦ (a, ground arith)
      | inr (entry, is) ↦
          let step = if b then entry.next_step_on_success else entry.next_step_on_failure in
          let lower : rank step < rank (current_step_of a) =
            ground (arith, next-rank (current_step_of a) entry is) in
          let (a', e) =
            total (with_step step a) (omega (arith, with_step-weight a step lower, h)) in
          elim (Bool-cases (p.is_workflow_complete step)) [
            | inl over ↦ (a, ground arith)
            | inr on ↦ (a', ground (arith, e))
          ]
    ]

cancelled-weight :
    (a b : Agent)
    → of_job false (λ j. j.operation_cancelled) a ≡ true
    → weight b ≤ 6
    → weight b < weight a
unfolding weight
cancelled-weight a b is h = ground arith

replaced-weight :
    (a : Agent) (h : List Event) (st : State)
    → weight (record (set_job replace_job (record a { history = h })) { last_reported_state = st })
      ≤ 6
unfolding weight
replaced-weight a h st = ground arith

reset-weight :
    (a : Agent) (st : State)
    → weight (record (set_job reset_job a) { last_reported_state = st }) ≤ 6
unfolding weight
reset-weight a st = ground arith

cancel_completion-of :
    (p : Platform) (next : Agent → Run Agent) (n : ℕ) (a : Agent) (c : CancellationType)
    → IsTotalBelow n next
    → weight a ≤ n
    → of_job false (λ j. j.operation_cancelled) a ≡ true
    → of_job normal (λ j. j.cancellation_type) a ≡ c
    → (a' : Agent) × (cancel_completion p next a ≡ ok a')
unfolding cancel_completion
cancel_completion-of p next n a no_cancellation total h is kind = (a, ground arith)
cancel_completion-of p next n a normal total h is kind = (set_update_state p idle a, ground arith)
cancel_completion-of p next n a replacement total h is kind =
    let b = record (set_job replace_job (record_event sandbox_destroy a)) {
      last_reported_state = idle;
    } in
    let (a', e) = total b (
      omega (
        arith,
        cancelled-weight a b is (replaced-weight a (sandbox_destroy ∷ a.history) idle),
        h,
      )) in
    (a', ground (arith, e))
cancel_completion-of p next n a retry total h is kind =
    let b = record (set_job reset_job a) { last_reported_state = idle } in
    let (a', e) = total b (omega (arith, cancelled-weight a b is (reset-weight a idle), h)) in
    (a', ground (arith, e))
cancel_completion-of p next n a component_changed total h is kind =
    let b = record (set_job reset_job a) { last_reported_state = idle } in
    let (a', e) = total b (omega (arith, cancelled-weight a b is (reset-weight a idle), h)) in
    (a', ground (arith, e))

cleared-weight : (a : Agent) → weight (cleared a) ≤ weight a
unfolding weight
cleared-weight a = ground arith

complete_step-total :
    (p : Platform) (next : Agent → Run Agent) (n : ℕ) (entry : HandlerEntry) (r : Outcome)
    (a : Agent)
    → IsTotalBelow n next
    → weight a ≤ n
    → (a' : Agent) × (complete_step p next entry r a ≡ ok a')
unfolding complete_step
complete_step-total p next n entry r a total h =
    let a1 = set_update_state p entry.next_state_on_success a in
    let a2 = set_update_state p entry.next_state_on_failure (not_in_progress a) in
    let (won, e) = auto_transition-total p next n true (cleared a1) total (
      omega
        (arith, cleared-weight a1, set_update_state-weight p entry.next_state_on_success a, h)) in
    let (lost, e') = auto_transition-total p next n false a2 total (
      omega (
        arith,
        set_update_state-weight p entry.next_state_on_failure (not_in_progress a),
        not_in_progress-weight a,
        h,
      )) in
    elim (Bool-cases (succeeded r)) [
      | inl good ↦ elim (Bool-cases (same_state a1.last_reported_state idle)) [
        | inl over ↦ (a1, ground arith)
        | inr on ↦ (won, ground (arith, e))
      ]
      | inr bad ↦ elim (Bool-cases (of_job false (λ j. j.operation_cancelled) a)) [
        | inl cancelled ↦
            let (end, e'') = cancel_completion-of p next n a _ total h cancelled refl in
            (end, ground (arith, e''))
        | inr failed ↦ (lost, ground (arith, e'))
      ]
    ]

work_completion-total :
    (p : Platform) (next : Agent → Run Agent) (n : ℕ) (r : Outcome) (a : Agent)
    → IsTotalBelow n next
    → weight a ≤ n
    → (a' : Agent) × (work_completion p next r a ≡ ok a')
unfolding work_completion
work_completion-total p next n r a total h =
    elim (Option-cases (handler_entry (current_step_of a))) [
      | inl missing ↦ (a, ground arith)
      | inr (entry, is) ↦
          let b = operation_complete_func p (current_step_of a) r a in
          let (end, e) =
            complete_step-total p next n entry r b total
              (omega (arith, operation_complete_func-weight p (current_step_of a) r a, h)) in
          elim (Bool-cases (is_pending r)) [
            | inl waiting ↦ (a, ground arith)
            | inr over ↦ elim (Bool-cases (is_cancel a.current_action)) [
              | inl cancel ↦ (a, ground arith)
              | inr other ↦ (end, ground (arith, e))
            ]
          ]
    ]

started :
    (a : Agent) → weight (set_job (λ j. record j { operation_in_progress = true }) a) ≡ weight a
unfolding weight
started a = ground arith

started-step :
    (a : Agent)
    → current_step_of (set_job (λ j. record j { operation_in_progress = true }) a)
      ≡ current_step_of a
started-step a = ground arith

-- A transition comes to an end if there is more fuel than what can follow: at most six steps, and once
-- more if the operation is cancelled. So 14 is always enough.
pub transition_total :
    (p : Platform) (fuel : ℕ) (a : Agent)
    → weight a < fuel
    → (a' : Agent) × (transition p fuel a ≡ ok a')
unfolding transition
transition_total p zero a h = absurd (omega arith)
transition_total p (suc fuel) a h = elim (Option-cases (handler_entry (current_step_of a))) [
  | inl missing ↦ (a, ground arith)
  | inr (entry, is) ↦ elim (Bool-cases (p.allocates a.history)) [
    | inl memory ↦
        let b = set_job (λ j. record j { operation_in_progress = true }) a in
        let c = operation_func p (current_step_of a) b in
        let (end, e) =
          work_completion-total p (transition p fuel) fuel c.0 c.1
            (λ d l. transition_total p fuel d l)
            (omega (
              arith,
              operation_func-weight p (current_step_of a) b (started-step a),
              started a,
              h,
            )) in
        (end, ground (arith, e))
    | inr full ↦ (a, ground arith)
  ]
]
