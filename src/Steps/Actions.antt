-- ===== src/Steps/Actions.antt =====
-- The methods of the steps handler in steps_handler.cpp.
use mbed_ce_client_for_azure.Base.{
  ℕ, zero, suc, ◌+◌, Bool, true, false, not, ◌&&◌, ◌||◌, Option, none, some, List, [], ◌∷◌, Bytes,
  length, get_elem?, ◌==◌, is_some, if◌then◌else◌,
}
use mbed_ce_client_for_azure.Workflow.{State, download_succeeded, install_succeeded, failed_state}
use mbed_ce_client_for_azure.Steps.{
  Code, failure, failure_cancelled, success, download_success, install_success, apply_success,
  backup_success, restore_success, installed, not_installed, install_skipped_installed,
  install_skipped_no_components, download_skipped_no_components, cancel_success, cancel_unable,
  Extended, invalid_components, set_components_failure, unsupported_contract,
  missing_child_in_download, missing_child_in_install, missing_child_in_is_installed, Result,
  is_failure, is_installed_code, plain, immediate_reboot, immediate_agent_restart, reboot,
  agent_restart, is_installed, download, backup, install, apply, restore, load, request_root, Task,
  Extensions, add_call, set_nth, set_step_result, act,
}
use mbed_ce_client_for_azure.Steps.Prepare.{prepare}

-- How a body of the loop over the steps ends: with the next step, at `componentDone` (or by a `break`,
-- which leads there), or at `done`.
pub data Flow : Type 0 where
  goes_on leaves ends : Flow

-- CreateComponentSerializedString: `none` for a null array and an index out of range.
unfoldable pub component_string : Option (List Bytes) → ℕ → Option Bytes
component_string none i = none
component_string (some components) i = get_elem? components i

-- GetSelectedComponentsArray
unfoldable pub selected_components_array : Extensions → Option Bytes → Result × Option (List Bytes)
selected_components_array X none = (plain failure, none)
selected_components_array X (some []) = (plain failure, none)
selected_components_array X (some (c ∷ cs)) = elim (X.parse_components (c ∷ cs)) [
  | none ↦ (record { code = failure; extended = invalid_components }, none)
  | some a ↦ elim a [
    | none ↦ (record { code = failure; extended = invalid_components }, none)
    | some components ↦ (plain success, some components)
  ]
]

-- A result that is a failure is replaced.
abbrev pub replace_failure : Code → Task → Task
replace_failure c t = if is_failure t.result.code then record t { result = plain c } else t

-- The components that a method goes through: their count, and the array.
pub record Targets : Type 0 where
  pub found : Result
  pub count : ℕ
  pub components : Option (List Bytes)

unfoldable pub targets : Extensions → Task → Targets
targets X t =
    let (r, components) = selected_components_array X t.selected in
    if t.level == 0 || not X.enumerator_registered
    then record { found = plain success; count = 1; components = none }
    else record {
      found = r;
      count = elim components [ none ↦ 0 | some cs ↦ length cs ];
      components = components;
    }

-- The child with its component, where it has one, behind the load of its handler.
unfoldable pub with_component : Option Bytes → ℕ → (selects : Bool) → Task → Task
with_component component i selects t = record t {
  children =
      if selects then set_nth i (λ s. record s { selected = component }) t.children else t.children;
  history = load i ∷ t.history;
}

-- The component and the handler of a child. The result of a load that fails is stored in the child
-- where `stores` says so.
unfoldable pub enter_child :
    Extensions → (stores : Bool) → Option Bytes → ℕ → Task → Bool × Result × Task
enter_child X stores component i t =
    let selects = is_some component && t.is_inline i in
    let t' = with_component component i selects t in
    let loaded = X.load_result t'.history in
    if selects && not (X.sets_components t.history)
    then (false, record { code = failure; extended = set_components_failure }, t)
    else if is_failure loaded.code
    then (false, loaded, if stores then set_step_result i loaded t' else t')
    else (true, loaded, t')

-- The beginning of each body of a loop over the steps.
unfoldable pub enter :
    Extensions
    → (stores : Bool) → Extended
    → Option Bytes
    → ℕ
    → Result
    → Task
    → Bool × Result × Task
enter X stores missing component i r t = elim (get_elem? t.children i) [
  | none ↦ (false, record r { extended = missing }, t)
  | some step ↦ enter_child X stores component i t
]

-- DoV1DownloadWork
unfoldable pub do_v1_download_work : Extensions → ℕ → Task → Result × Task
do_v1_download_work X i t =
    let (r, t') = act X is_installed i t in
    if is_installed_code r.code
    then (plain install_skipped_installed, set_step_result i (plain install_skipped_installed) t')
    else act X download i t'

unfoldable pub download_step : Extensions → Option Bytes → ℕ → Result → Task → Flow × Result × Task
download_step X component i r0 t0 =
    let (entered, r, t) = enter X true missing_child_in_download component i r0 t0 in
    let (r', t') = do_v1_download_work X i t in
    if not entered
    then (ends, r, t)
    else if X.is_v1_contract t.history
    then (if is_failure r'.code then ends else goes_on, r', t')
    else (ends, record { code = failure; extended = unsupported_contract }, t)

-- `instanceDone` of the installation: a request is passed on to the wrapping workflow.
unfoldable pub instance_done : Extensions → ℕ → Result → Task → Flow × Result × Task
instance_done X i r t =
    if X.requested immediate_reboot t.history
    then (ends, r, add_call (request_root immediate_reboot) t)
    else if X.requested immediate_agent_restart t.history
    then (ends, r, add_call (request_root immediate_agent_restart) t)
    else if X.requested reboot t.history
    then (leaves, r, add_call (request_root reboot) t)
    else if X.requested agent_restart t.history
    then (leaves, r, add_call (request_root agent_restart) t)
    else (if is_failure r.code then leaves else goes_on, r, set_step_result i r t)

abbrev pub is_skip : Code → Bool
is_skip install_skipped_installed = true
is_skip install_skipped_no_components = true
is_skip _ = false

-- The application behind an installation. A failure is followed by a restore, whose result is not used.
unfoldable pub apply_instance : Extensions → ℕ → Task → Flow × Result × Task
apply_instance X i t =
    let (r, t') = act X apply i t in
    instance_done X i r (if is_failure r.code then (act X restore i t').1 else t')

-- The installation behind a backup.
unfoldable pub install_instance : Extensions → ℕ → Task → Flow × Result × Task
install_instance X i t =
    let (r, t') = act X install i t in
    if X.requested immediate_reboot t'.history || X.requested immediate_agent_restart t'.history
    then instance_done X i r t'
    else if is_skip r.code
    then instance_done X i r t'
    else if is_failure r.code
    then (ends, r, (act X restore i t').1)
    else apply_instance X i t'

-- The handler of a step that is loaded.
unfoldable pub run_instance : Extensions → ℕ → Task → Flow × Result × Task
run_instance X i t =
    let (r, t') = act X is_installed i t in
    let (r', t'') = act X backup i t' in
    if is_installed_code r.code
    then instance_done X i (plain install_skipped_installed)
        (set_step_result i (plain install_skipped_installed) t')
    else if is_failure r'.code
    then (ends, r', t'')
    else install_instance X i t''

unfoldable pub install_step : Extensions → Option Bytes → ℕ → Result → Task → Flow × Result × Task
install_step X component i r0 t0 =
    let (entered, r, t) = enter X true missing_child_in_install component i r0 t0 in
    if entered then run_instance X i t else (ends, r, t)

-- A step that is installed has no failure for its result.
unfoldable pub check_step : Extensions → Option Bytes → ℕ → Result → Task → Flow × Result × Task
check_step X component i r0 t0 =
    let (entered, r, t) = enter X false missing_child_in_is_installed component i r0 t0 in
    let (r', t') = act X is_installed i t in
    let cleared : Task = record t' {
      children =
          set_nth i
            (λ s. elim s.result.code [
              | failure ↦ record s { result = plain install_skipped_installed }
              | failure_cancelled ↦ record s { result = plain install_skipped_installed }
              | _ ↦ s
            ])
            t'.children;
    } in
    if not entered
    then (ends, r, t)
    else if is_installed_code r'.code
    then (goes_on, r', cleared)
    else elim r'.code [
      | not_installed ↦ (ends, r', t')
      | other ↦ (if is_failure other then ends else goes_on, r', t')
    ]

-- Where a body leads: to the rest of the loop, or out of it. True at `done`.
unfoldable pub proceed : Flow → Result → Task → Bool × Result × Task → Bool × Result × Task
proceed goes_on r t rest = rest
proceed leaves r t rest = (false, r, t)
proceed ends r t rest = (true, r, t)

-- The loop over the steps from index `i` on.
unfoldable pub each_step :
    (ℕ → Result → Task → Flow × Result × Task)
    → (rounds i : ℕ) → Result
    → Task
    → Bool × Result × Task
each_step body zero i r t = (false, r, t)
each_step body (suc n) i r t =
    let (flow, r', t') = body i r t in
    let rest = each_step body n (i + 1) r' t' in proceed flow r' t' rest

-- The loop over the components. True at `done`.
unfoldable pub each_component :
    (Option Bytes → ℕ → Result → Task → Flow × Result × Task)
    → Option (List Bytes)
    → (steps rounds i : ℕ) → Result
    → Task
    → Bool × Result × Task
each_component body components steps zero i r t = (false, r, t)
each_component body components steps (suc n) i r t =
    let (ended, r', t') = each_step (body (component_string components i)) steps 0 r t in
    let rest = each_component body components steps n (i + 1) r' t' in
    if ended then (true, r', t') else if is_failure r'.code then (true, r', t') else rest

-- `done` of the download and the installation.
unfoldable pub finish : State → Result × Task → Result × Task
finish succeeded (r, t) =
    (r, record t { result = r; state = if is_failure r.code then failed_state else succeeded })

-- Where no component matches, the step is optional, which replaces a failure.
unfoldable pub optional : Code → Targets → Task → Task
optional c targets t = if targets.count == 0 then replace_failure c t else t

-- The array that HandleComponents finds is lost: it is given by value.
unfoldable pub download_all : Extensions → Task → Result × Task
download_all X t =
    let targets = targets X t in
    let t' = optional download_skipped_no_components targets t in
    let (ended, r, t'') =
      each_component (download_step X) none (length t'.children) targets.count 0 targets.found t' in
    if is_failure targets.found.code
    then (targets.found, t)
    else if ended
    then (r, t'')
    else (plain download_success, t'')

unfoldable pub steps_download : Extensions → Task → Result × Task
steps_download X t =
    let (r, t') = prepare X t in
    finish download_succeeded (
      if X.cancel_requested t.history
      then (plain failure_cancelled, t)
      else if is_failure r.code
      then (r, t')
      else download_all X t')

unfoldable pub install_all : Extensions → Task → Result × Task
install_all X t =
    let targets = targets X t in
    let t' = optional install_skipped_no_components targets t in
    let (ended, r, t'') =
      each_component (install_step X) targets.components (length t'.children) targets.count 0
        (if targets.count == 0 then plain install_skipped_no_components else targets.found) t' in
    if is_failure targets.found.code
    then (targets.found, t)
    else if ended
    then (r, t'')
    else if X.cancel_requested t''.history
    then (plain failure_cancelled, t'')
    else (plain install_success, t'')

unfoldable pub steps_install : Extensions → Task → Result × Task
steps_install X t =
    let (r, t') = prepare X t in
    finish install_succeeded (
      if X.cancel_requested t.history
      then (plain failure_cancelled, t)
      else if is_failure r.code
      then (r, t')
      else install_all X t')

unfoldable pub check_all : Extensions → Task → Result × Task
check_all X t =
    let targets = targets X t in
    let (ended, r, t') =
      each_component (check_step X) targets.components (length t.children) targets.count 0
        targets.found t in
    if is_failure targets.found.code
    then (targets.found, t)
    else if targets.count == 0
    then (plain installed, replace_failure download_skipped_no_components t)
    else if ended
    then (r, t')
    else (plain installed, replace_failure apply_success t')

unfoldable pub steps_is_installed : Extensions → Task → Result × Task
steps_is_installed X t =
    let (r, t') = prepare X t in if is_failure r.code then (r, t') else check_all X t'

unfoldable pub steps_apply : Extensions → Task → Result
steps_apply X t =
    if X.cancel_requested t.history then plain failure_cancelled else plain apply_success

unfoldable pub steps_backup : Extensions → Task → Result
steps_backup X t =
    if X.cancel_requested t.history then plain failure_cancelled else plain backup_success

unfoldable pub steps_restore : Task → Result
steps_restore t = plain restore_success

-- `requested` is what workflow_request_cancel gives.
unfoldable pub steps_cancel : (requested : Bool) → Result
steps_cancel requested = if requested then plain cancel_success else plain cancel_unable
