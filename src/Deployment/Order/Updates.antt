-- ===== src/Deployment/Order/Updates.antt =====
-- The handlers of agent_workflow.cpp keep the order of the calls.
use mbed_ce_client_for_azure.Base.{
  ℕ, ◌≡◌, refl, true, false, ◌&&◌, ◌||◌, Bool, if◌then◌else◌, Option, Run, ok, fault, out_of_fuel,
  ◌>>=◌, some, none, Bool-cases, inl, inr,
}
use mbed_ce_client_for_azure.Workflow.{idle, failed_state, no_cancellation, normal}
use mbed_ce_client_for_azure.Deployment.{
  undefined_action, process_action, cancel_action, UpdateAction, cancel_callback, set_job, Job,
  Agent, Platform, of_job, record_event,
}
use mbed_ce_client_for_azure.Deployment.Reports.{
  set_update_state, set_installed_update_id_and_go_to_idle,
}
use mbed_ce_client_for_azure.Deployment.Engine.{
  is_cancel, no_cancel, cancelling, is_normal, is_process, is_replace_or_retry,
  handle_update_action,
}
use mbed_ce_client_for_azure.Deployment.Updates.{
  started_up, startup_action, startup_job, handle_startup, new_workflow, retry_token_of,
  is_no_cancellation, install_workflow, begin_workflow, retrying, retry_update, replacing,
  transferred, replace_update, cancel_update, by_action, handle_workflow, handle_property_update,
}
use mbed_ce_client_for_azure.Deployment.Order.{
  last_report, is_ordered, IsSound, set_update_state-IsSound, installed-IsSound, quiet, relabel,
  set_job-IsSound,
}
use mbed_ce_client_for_azure.Deployment.Order.Steps.{kept, start_action-IsSound}

pub handle_update_action-IsSound :
    (p : Platform) (fuel : ℕ) (a c : Agent)
    → IsSound a
    → handle_update_action p fuel a ≡ ok c
    → IsSound c
unfolding handle_update_action is_ordered last_report
handle_update_action-IsSound p fuel a c sound run =
    let action = of_job undefined_action (λ j. p.action_of j.id) a in
    let cancellation = of_job normal (λ j. j.cancellation_type) a in
    let asked = is_cancel action || is_normal cancellation in
    let b = no_cancel a in
    let sound1 =
      set_job-IsSound
        (λ j. record j { operation_cancelled = false; cancellation_type = no_cancellation }) a
        sound in
    elim (Bool-cases (asked || (is_process action && is_replace_or_retry cancellation))) [
      | inr plain ↦ start_action-IsSound p fuel action a c sound (rw plain at run)
      | inl stop ↦ elim (Bool-cases (of_job false (λ j. j.operation_in_progress) a)) [
        | inl busy ↦
            let d = record_event cancel_callback (cancelling a) in
            kept d c (quiet a d sound refl refl refl) (rw (stop, busy) at run)
        | inr free ↦ elim (Bool-cases asked) [
          | inl ended ↦ kept b c sound1 (rw (stop, free, ended) at run)
          | inr again ↦
              start_action-IsSound p fuel action b c sound1 (rw (stop, free, again) at run)
        ]
      ]
    ]

-- Whichever branch runs, soundness is kept.
either :
    (b : Bool) (x y : Run Agent) (c : Agent)
    → (x ≡ ok c → IsSound c)
    → (y ≡ ok c → IsSound c)
    → (if b then x else y) ≡ ok c
    → IsSound c
either true x y c left right run = left run
either false x y c left right run = right run

by_job :
    (o : Option Job) (x : Run Agent) (f : Job → Run Agent) (c : Agent)
    → (x ≡ ok c → IsSound c)
    → ((j : Job) → f j ≡ ok c → IsSound c)
    → (elim o [ none ↦ x | some j ↦ f j ]) ≡ ok c
    → IsSound c
by_job none x f c left right run = left run
by_job (some j) x f c left right run = right j run

-- What is bound to a run keeps soundness.
bind_kept :
    (m : Run Agent) (f : Agent → Agent) (c : Agent)
    → ((b : Agent) → m ≡ ok b → IsSound b)
    → ((b : Agent) → IsSound b → IsSound (f b))
    → (m >>= (λ b. ok (f b))) ≡ ok c
    → IsSound c
bind_kept (ok b) f c sound keeps run = kept (f b) c (keeps b (sound b refl)) run
bind_kept fault f c sound keeps run = absurd (cc)
bind_kept out_of_fuel f c sound keeps run = absurd (cc)

started_up-IsSound : (a : Agent) → IsSound a → IsSound (started_up a)
started_up-IsSound a sound = quiet a (started_up a) sound refl refl refl

startup_action-IsSound :
    (p : Platform) (fuel : ℕ) (a c : Agent) → IsSound a → startup_action p fuel a ≡ ok c → IsSound c
unfolding startup_action
startup_action-IsSound p fuel a c sound run =
    let b = record a { last_reported_state = idle } in
    bind_kept (handle_update_action p fuel b) started_up c
      (λ d e. handle_update_action-IsSound p fuel b d (relabel a idle sound refl) e)
      started_up-IsSound run

startup_job-IsSound :
    (p : Platform) (fuel : ℕ) (action : UpdateAction) (a c : Agent)
    → IsSound a
    → startup_job p fuel action a ≡ ok c
    → IsSound c
unfolding startup_job
startup_job-IsSound p fuel undefined_action a c sound run =
    kept (started_up a) c (started_up-IsSound a sound) run
startup_job-IsSound p fuel cancel_action a c sound run =
    let b = record a { current_action = cancel_action } in
    let sound1 : IsSound b = quiet a b sound refl refl refl in
    let d = set_update_state p idle b in
    kept (started_up d) c (started_up-IsSound d (set_update_state-IsSound p idle b sound1)) run
startup_job-IsSound p fuel process_action a c sound run =
    let d = set_installed_update_id_and_go_to_idle p a in
    either (p.is_installed a.history) (ok (started_up d)) (startup_action p fuel a) c
      (kept (started_up d) c (started_up-IsSound d (installed-IsSound p a sound)))
      (startup_action-IsSound p fuel a c sound) run

pub handle_startup-IsSound :
    (p : Platform) (fuel : ℕ) (a c : Agent) → IsSound a → handle_startup p fuel a ≡ ok c → IsSound c
unfolding handle_startup
handle_startup-IsSound p fuel a c sound run =
    let go = startup_action p fuel a in
    let starts = λ (j : Job). startup_job p fuel (p.action_of j.id) a in
    either a.startup_idle_call_sent (ok a) (elim a.job [ none ↦ go | some j ↦ starts j ]) c
      (kept a c sound)
      (by_job a.job go starts c (startup_action-IsSound p fuel a c sound)
        (λ j. startup_job-IsSound p fuel (p.action_of j.id) a c sound))
      run

begin_workflow-IsSound :
    (p : Platform) (fuel : ℕ) (action : UpdateAction) (next : Job) (a c : Agent)
    → IsSound a
    → begin_workflow p fuel action next a ≡ ok c
    → IsSound c
unfolding begin_workflow
begin_workflow-IsSound p fuel action next a c sound run =
    let b = install_workflow action next a in
    let sound1 : IsSound b = quiet a b sound refl refl refl in
    either a.startup_idle_call_sent (handle_update_action p fuel b) (handle_startup p fuel b) c
      (handle_update_action-IsSound p fuel b c sound1) (handle_startup-IsSound p fuel b c sound1)
      run

-- A change of the object before an update action.
changed :
    (p : Platform) (fuel : ℕ) (f : Job → Job) (a c : Agent)
    → IsSound a
    → handle_update_action p fuel (set_job f a) ≡ ok c
    → IsSound c
changed p fuel f a c sound run =
    handle_update_action-IsSound p fuel (set_job f a) c (set_job-IsSound f a sound) run

retry_update-IsSound :
    (p : Platform) (fuel : ℕ) (j next : Job) (a c : Agent)
    → IsSound a
    → retry_update p fuel j next a ≡ ok c
    → IsSound c
unfolding retry_update
retry_update-IsSound p fuel j next a c sound run =
    let token = retry_token_of p next in
    either (p.is_retry_applicable (retry_token_of p j) token)
      (handle_update_action p fuel (retrying token a)) (ok a) c (changed p fuel _ a c sound)
      (kept a c sound) run

replace_update-IsSound :
    (p : Platform) (fuel : ℕ) (j next : Job) (begins : Run Agent) (a c : Agent)
    → IsSound a
    → (begins ≡ ok c → IsSound c)
    → replace_update p fuel j next begins a ≡ ok c
    → IsSound c
unfolding replace_update
replace_update-IsSound p fuel j next begins a c sound begun run =
    let defers = handle_update_action p fuel (replacing next a) in
    let transfers = handle_update_action p fuel (transferred next a) in
    either _ begins (if j.operation_in_progress then defers else transfers) c begun
      (either j.operation_in_progress defers transfers c (changed p fuel _ a c sound)
        (changed p fuel _ a c sound))
      run

cancel_update-IsSound :
    (p : Platform) (fuel : ℕ) (j : Job) (a c : Agent)
    → IsSound a
    → cancel_update p fuel j a ≡ ok c
    → IsSound c
unfolding cancel_update
cancel_update-IsSound p fuel j a c sound run =
    either (is_no_cancellation j.cancellation_type) _ (ok a) c (changed p fuel _ a c sound)
      (kept a c sound) run

by_action-IsSound :
    (p : Platform) (fuel : ℕ) (action : UpdateAction) (begins : Run Agent) (j next : Job)
    (a c : Agent)
    → IsSound a
    → (begins ≡ ok c → IsSound c)
    → by_action p fuel action begins j next a ≡ ok c
    → IsSound c
unfolding by_action
by_action-IsSound p fuel undefined_action begins j next a c sound begun run = begun run
by_action-IsSound p fuel cancel_action begins j next a c sound begun run =
    cancel_update-IsSound p fuel j a c sound run
by_action-IsSound p fuel process_action begins j next a c sound begun run =
    either _ (retry_update p fuel j next a) (replace_update p fuel j next begins a) c
      (retry_update-IsSound p fuel j next a c sound)
      (replace_update-IsSound p fuel j next begins a c sound begun) run

pub handle_property_update-IsSound :
    (p : Platform) (fuel : ℕ) (parsed : Option ℕ) (force : Bool) (a c : Agent)
    → IsSound a
    → handle_property_update p fuel parsed force a ≡ ok c
    → IsSound c
unfolding handle_property_update handle_workflow
handle_property_update-IsSound p fuel none force a c sound run =
    kept (set_update_state p failed_state a) c (set_update_state-IsSound p failed_state a sound) run
handle_property_update-IsSound p fuel (some n) force a c sound run =
    let next = new_workflow p n force in
    let action = p.action_of n in
    let begins = begin_workflow p fuel action next a in
    let begun = begin_workflow-IsSound p fuel action next a c sound in
    by_job a.job begins (λ j. by_action p fuel action begins j next a) c begun
      (λ j. by_action-IsSound p fuel action begins j next a c sound begun) run
