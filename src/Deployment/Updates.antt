-- ===== src/Deployment/Updates.antt =====
-- ADUC_Workflow_HandleStartupWorkflowData and ADUC_Workflow_HandlePropertyUpdate of agent_workflow.cpp:
-- the start of the agent, and a new desired property. What workflow_init makes of the property is an
-- argument: a number for what the new object holds, or none. The working folders are left out.
use mbed_ce_client_for_azure.Base.{
  ℕ, Bool, true, false, not, ◌&&◌, ◌||◌, Option, none, some, if◌then◌else◌, Run, ok, ◌>>=◌,
}
use mbed_ce_client_for_azure.Workflow.{
  idle, failed_state, WorkflowStep, undefined, CancellationType, no_cancellation, normal,
  replacement, retry,
}
use mbed_ce_client_for_azure.Deployment.{
  UpdateAction, undefined_action, process_action, cancel_action, Job, Agent, Platform, set_job,
  same_state,
}
use mbed_ce_client_for_azure.Deployment.Reports.{
  set_update_state, set_installed_update_id_and_go_to_idle,
}
use mbed_ce_client_for_azure.Deployment.Engine.{is_cancel, handle_update_action}

abbrev pub started_up : Agent → Agent
started_up a = record a { startup_idle_call_sent = true }

-- A pending action: the state that counts as reported is set, so that the action can go on.
unfoldable pub startup_action : Platform → ℕ → Agent → Run Agent
startup_action p fuel a =
    handle_update_action p fuel (record a { last_reported_state = idle }) >>= λ b. ok (started_up b)

-- With an object, by its action.
unfoldable pub startup_job : Platform → ℕ → UpdateAction → Agent → Run Agent
startup_job p fuel undefined_action a = ok (started_up a)
startup_job p fuel cancel_action a =
    ok (started_up (set_update_state p idle (record a { current_action = cancel_action })))
startup_job p fuel process_action a =
    let go = startup_action p fuel a in
    if p.is_installed a.history
    then ok (started_up (set_installed_update_id_and_go_to_idle p a))
    else go

-- ADUC_Workflow_HandleStartupWorkflowData
unfoldable pub handle_startup : Platform → ℕ → Agent → Run Agent
handle_startup p fuel a =
    let go = startup_action p fuel a in
    if a.startup_idle_call_sent
    then ok a
    else elim a.job [ none ↦ go | some j ↦ startup_job p fuel (p.action_of j.id) a ]

-- The object that workflow_init makes, with the flag that is set on it.
abbrev pub new_workflow : Platform → ℕ → (force : Bool) → Job
new_workflow p n force = record {
  id = n;
  current_step = undefined;
  operation_in_progress = false;
  operation_cancelled = false;
  cancellation_type = no_cancellation;
  deferred = none;
  force_update = force;
  job_state = p.zero_state;
  retry_token = none;
}

abbrev pub retry_token_of : Platform → Job → Option ℕ
retry_token_of p j = elim j.retry_token [ none ↦ p.token_of j.id | some t ↦ some t ]

abbrev pub is_no_cancellation : CancellationType → Bool
is_no_cancellation no_cancellation = true
is_no_cancellation _ = false

abbrev pub is_undefined : WorkflowStep → Bool
is_undefined undefined = true
is_undefined _ = false

-- The object takes the place of the one before.
abbrev pub install_workflow : UpdateAction → Job → Agent → Agent
install_workflow action next a = record a {
  job =
      some
        (record next { cancellation_type = if is_cancel action then normal else no_cancellation });
}

unfoldable pub begin_workflow : Platform → ℕ → UpdateAction → Job → Agent → Run Agent
begin_workflow p fuel action next a =
    let b = install_workflow action next a in
    let acts = handle_update_action p fuel b in
    let starts = handle_startup p fuel b in if a.startup_idle_call_sent then acts else starts

-- workflow_update_retry_deployment: a timestamp that is NULL cannot be set.
abbrev pub retrying : Option ℕ → Agent → Agent
retrying token = set_job (λ j. record j {
  cancellation_type = retry;
  retry_token = elim token [ none ↦ j.retry_token | some t ↦ some t ];
})

-- The id is the same: possibly a retry.
unfoldable pub retry_update : Platform → ℕ → (j next : Job) → Agent → Run Agent
retry_update p fuel j next a =
    let token = retry_token_of p next in
    let again = handle_update_action p fuel (retrying token a) in
    if p.is_retry_applicable (retry_token_of p j) token then again else ok a

-- workflow_update_replacement_deployment, with an operation in progress
abbrev pub replacing : Job → Agent → Agent
replacing next = set_job (λ j. record j {
  cancellation_type = replacement;
  operation_cancelled = true;
  deferred = some next.id;
})

-- workflow_transfer_data
abbrev pub transferred : Job → Agent → Agent
transferred next = set_job (λ j. record j { id = next.id; retry_token = next.retry_token })

-- Another id, or an update that is forced: possibly a replacement.
unfoldable pub replace_update :
    Platform → ℕ → (j next : Job) → (begins : Run Agent) → Agent → Run Agent
replace_update p fuel j next begins a =
    let defers = handle_update_action p fuel (replacing next a) in
    let transfers = handle_update_action p fuel (transferred next a) in
    if same_state a.last_reported_state idle
      || same_state a.last_reported_state failed_state
      || is_undefined j.current_step
    then begins
    else if j.operation_in_progress
    then defers
    else transfers

-- A cancel action; a second one is ignored.
unfoldable pub cancel_update : Platform → ℕ → Job → Agent → Run Agent
cancel_update p fuel j a =
    let cancels =
      handle_update_action p fuel (set_job (λ k. record k { cancellation_type = normal }) a) in
    if is_no_cancellation j.cancellation_type then cancels else ok a

-- With an object in place, by the action of the new one.
unfoldable pub by_action :
    Platform → ℕ → UpdateAction → (begins : Run Agent) → (j next : Job) → Agent → Run Agent
by_action p fuel undefined_action begins j next a = begins
by_action p fuel cancel_action begins j next a = cancel_update p fuel j a
by_action p fuel process_action begins j next a =
    let retries = retry_update p fuel j next a in
    let replaces = replace_update p fuel j next begins a in
    if not next.force_update && p.same_id j.id next.id then retries else replaces

unfoldable pub handle_workflow : Platform → ℕ → Job → Agent → Run Agent
handle_workflow p fuel next a =
    let action = p.action_of next.id in
    let begins = begin_workflow p fuel action next a in
    elim a.job [ none ↦ begins | some j ↦ by_action p fuel action begins j next a ]

-- ADUC_Workflow_HandlePropertyUpdate
unfoldable pub handle_property_update :
    Platform → ℕ → (parsed : Option ℕ) → (force : Bool) → Agent → Run Agent
handle_property_update p fuel none force a = ok (set_update_state p failed_state a)
handle_property_update p fuel (some n) force a = handle_workflow p fuel (new_workflow p n force) a
