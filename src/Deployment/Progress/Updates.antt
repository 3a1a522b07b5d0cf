-- ===== src/Deployment/Progress/Updates.antt =====
-- Every handler of agent_workflow.cpp comes to an end.
use mbed_ce_client_for_azure.Base.{
  ℕ, ◌≤◌, ◌≡◌, refl, arith, Bool, true, false, Option, Option-cases, inl, inr, none, some,
  if◌then◌else◌, Run, ok, fault, out_of_fuel, ◌>>=◌,
}
use mbed_ce_client_for_azure.Workflow.{idle, failed_state}
use mbed_ce_client_for_azure.Deployment.{
  UpdateAction, undefined_action, process_action, cancel_action, Job, Agent, Platform, of_job,
  cancel_callback, record_event,
}
use mbed_ce_client_for_azure.Deployment.Reports.{
  set_update_state, set_installed_update_id_and_go_to_idle,
}
use mbed_ce_client_for_azure.Deployment.Engine.{
  transition, with_step, start_action, handle_update_action, is_duplicate, no_cancel, cancelling,
}
use mbed_ce_client_for_azure.Deployment.Updates.{
  started_up, startup_action, startup_job, handle_startup, new_workflow, begin_workflow,
  install_workflow, retry_update, replace_update, cancel_update, by_action, handle_workflow,
  handle_property_update,
}
use mbed_ce_client_for_azure.Deployment.Progress.{rank-le, weight}
use mbed_ce_client_for_azure.Deployment.Progress.Total.{transition_total}

abbrev Ends : Run Agent → Type 0
Ends m = (b : Agent) × (m ≡ ok b)

weight-le : (a : Agent) → weight a ≤ 13
unfolding weight
weight-le a = elim (Option-cases a.job) [
  | inl empty ↦ rw empty (omega arith)
  | inr (j, is) ↦ rw is (ground (arith, rank-le j.current_step))
]

either : (b : Bool) (x y : Run Agent) → Ends x → Ends y → Ends (if b then x else y)
either true x y left right = left
either false x y left right = right

by_job :
    (o : Option Job) (x : Run Agent) (f : Job → Run Agent)
    → Ends x
    → ((j : Job) → Ends (f j))
    → Ends (elim o [ none ↦ x | some j ↦ f j ])
by_job none x f left right = left
by_job (some j) x f left right = right j

module _ (p : Platform) where
  start_action-Ends : (action : UpdateAction) (a : Agent) → Ends (start_action p 14 action a)
  unfolding start_action
  start_action-Ends action a =
      let a1 = record a { current_action = action } in
      let d = set_installed_update_id_and_go_to_idle p a1 in
      let b = with_step (p.step_of_action action) a1 in
      let t = transition p 14 b in
      either (is_duplicate p a) (ok a) (if p.is_installed a.history then ok d else t) (a, refl)
        (either (p.is_installed a.history) (ok d) t (d, refl)
          (transition_total p 14 b (omega (arith, weight-le b))))

  handle_update_action-Ends : (a : Agent) → Ends (handle_update_action p 14 a)
  unfolding handle_update_action
  handle_update_action-Ends a =
      let action = of_job undefined_action (λ j. p.action_of j.id) a in
      either _ _ (start_action p 14 action a)
        (either _ _ _ (record_event cancel_callback (cancelling a), refl)
          (either _ _ _ (no_cancel a, refl) (start_action-Ends action (no_cancel a))))
        (start_action-Ends action a)

  bound : (m : Run Agent) (f : Agent → Agent) → Ends m → Ends (m >>= λ b. ok (f b))
  bound (ok b) f e = (f b, refl)
  bound fault f e = absurd (cc)
  bound out_of_fuel f e = absurd (cc)

  startup_job-Ends : (action : UpdateAction) (a : Agent) → Ends (startup_job p 14 action a)
  unfolding startup_job startup_action
  startup_job-Ends undefined_action a = (started_up a, refl)
  startup_job-Ends cancel_action a = (_, refl)
  startup_job-Ends process_action a =
      either (p.is_installed a.history) _ (startup_action p 14 a) (_, refl)
        (bound _ started_up (handle_update_action-Ends (record a { last_reported_state = idle })))

  handle_startup-Ends : (a : Agent) → Ends (handle_startup p 14 a)
  unfolding handle_startup startup_action
  handle_startup-Ends a =
      either a.startup_idle_call_sent (ok a) _ (a, refl)
        (by_job a.job (startup_action p 14 a) (λ j. startup_job p 14 (p.action_of j.id) a)
          (bound _ started_up (handle_update_action-Ends (record a { last_reported_state = idle })))
          (λ j. startup_job-Ends (p.action_of j.id) a))

  by_action-Ends :
      (action : UpdateAction) (begins : Run Agent) (j next : Job) (a : Agent)
      → Ends begins
      → Ends (by_action p 14 action begins j next a)
  unfolding by_action retry_update replace_update cancel_update
  by_action-Ends undefined_action begins j next a begun = begun
  by_action-Ends cancel_action begins j next a begun =
      either _ _ (ok a) (handle_update_action-Ends _) (a, refl)
  by_action-Ends process_action begins j next a begun =
      either _ (retry_update p 14 j next a) (replace_update p 14 j next begins a)
        (either _ _ (ok a) (handle_update_action-Ends _) (a, refl))
        (either _ begins _ begun (
          either j.operation_in_progress _ _ (handle_update_action-Ends _)
            (handle_update_action-Ends _)))

  -- With 14 units of fuel, a desired property and the start of the agent are handled to the end, whatever
  -- the state of the agent and the answers of the platform are.
  pub handlers_total :
      (parsed : Option ℕ) (force : Bool) (a : Agent)
      → ((b : Agent) × (handle_property_update p 14 parsed force a ≡ ok b))
        × ((c : Agent) × (handle_startup p 14 a ≡ ok c))
  unfolding handle_property_update handle_workflow begin_workflow
  handlers_total none force a = ((set_update_state p failed_state a, refl), handle_startup-Ends a)
  handlers_total (some n) force a =
      let next = new_workflow p n force in
      let action = p.action_of n in
      let b = install_workflow action next a in
      let begins = begin_workflow p 14 action next a in
      let begun =
        either a.startup_idle_call_sent (handle_update_action p 14 b) (handle_startup p 14 b)
          (handle_update_action-Ends b) (handle_startup-Ends b) in
      (
        by_job a.job begins (λ j. by_action p 14 action begins j next a) begun
            (λ j. by_action-Ends action begins j next a begun),
        handle_startup-Ends a,
      )
