-- ===== src/Steps/Prepare.antt =====
-- PrepareStepsWorkflowDataObject of steps_handler.cpp: the children of the workflow, one for each step.
use mbed_ce_client_for_azure.Base.{
  ℕ, zero, suc, ◌+◌, Bool, true, false, Option, none, some, [], ◌∷◌, ◌++◌, Bytes, length, ◌==◌,
  if◌then◌else◌,
}
use mbed_ce_client_for_azure.Steps.{
  failure, success, file_entity_failure, compatibility_failed, set_components_failure,
  insert_failed, Result, is_failure, plain, create, Step, Task, Extensions, add_call,
}

-- A new step, with the components that it is for, where setting them succeeds.
abbrev new_step : Option Bytes → Bool → Step
new_step components sets = record {
  selected = if sets then components else none;
  result = plain failure;
}

-- An inline step takes the components of the workflow. It is created whether they are set or not.
unfoldable pub create_inline : Extensions → Task → Result × Step
create_inline X t = (X.inline_result t.history, new_step t.selected (X.sets_components t.history))

-- The components of a reference step, by its compatibility.
unfoldable pub select_for_step : Extensions → Task → Result → Result × Step
select_for_step X t r = elim (X.compatibility t.history) [
  | none ↦ (record { code = failure; extended = compatibility_failed }, new_step none false)
  | some c ↦
      if is_failure (X.select_result t.history).code
      then (X.select_result t.history, new_step none false)
      else if X.sets_components t.history
      then (X.select_result t.history, new_step (some (X.select_output t.history)) true)
      else (record { code = failure; extended = set_components_failure }, new_step none false)
]

-- A reference step comes from a manifest file of its own.
unfoldable pub create_reference : Extensions → ℕ → Task → Result × Step
create_reference X i t =
    if X.has_manifest_file i
    then if is_failure (X.manifest_download t.history).code
      then (X.manifest_download t.history, new_step none false)
      else if is_failure (X.file_result t.history).code
      then (X.file_result t.history, new_step none false)
      else if X.enumerator_registered
      then select_for_step X t (X.file_result t.history)
      else (X.file_result t.history, new_step none false)
    else (record { code = failure; extended = file_entity_failure }, new_step none false)

-- What a step is made of, by its kind.
unfoldable pub make_step : Extensions → ℕ → Task → Result × Step
make_step X i t = if t.is_inline i then create_inline X t else create_reference X i t

-- The new step joins the children, where nothing has failed.
unfoldable pub join_step : Extensions → Result × Step → Task → Result × Task
join_step X (r, step) t =
    if is_failure r.code
    then (r, t)
    else if X.inserts t.history
    then (r, record t { children = t.children ++ step ∷ [] })
    else (record { code = failure; extended = insert_failed }, t)

unfoldable pub create_step : Extensions → ℕ → Task → Result × Task
create_step X i t0 = let t = add_call (create i) t0 in join_step X (make_step X i t) t

-- The loop over the steps from index `i` on, which ends with the first failure.
unfoldable pub create_steps : Extensions → (rounds i : ℕ) → Task → Result × Task
create_steps X zero i t = (plain success, t)
create_steps X (suc n) i t =
    let (r, t') = create_step X i t in
    let rest = create_steps X n (i + 1) t' in if is_failure r.code then (r, t') else rest

unfoldable pub prepare : Extensions → Task → Result × Task
prepare X t =
    if length t.children == t.step_count
    then (plain success, t)
    else create_steps X t.step_count 0 (record t { children = [] })
