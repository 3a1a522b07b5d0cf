-- ===== src/Workflow/Properties.antt =====
-- The properties of a workflow object of workflow_utils.c, and what is kept in them: its id, its
-- retry timestamp, its folder and the requests for a restart.
pub mod Ids
pub mod Root
pub mod RoundTrip
use mbed_ce_client_for_azure.Base.{
  ℕ, zero, suc, ◌==◌, Bool, true, false, not, Option, none, some, [], Bytes, codes, take,
  if◌then◌else◌, Run, ok, out_of_fuel, ◌>>=◌,
}
use mbed_ce_client_for_azure.Workflow.Parson.{Json}
use mbed_ce_client_for_azure.Workflow.{Ptr, null, Workflow, Store, load, write, peek}

abbrev pub property_id : Bytes
property_id = codes "_id"

abbrev pub property_retry_timestamp : Bytes
property_retry_timestamp = codes "_retryTimestamp"

abbrev pub property_workflow_dot_id : Bytes
property_workflow_dot_id = codes "workflow.id"

abbrev pub property_workflow_dot_retry_timestamp : Bytes
property_workflow_dot_retry_timestamp = codes "workflow.retryTimestamp"

abbrev pub property_sandbox_root_path : Bytes
property_sandbox_root_path = codes "_sandboxRootPath"

abbrev pub property_work_folder : Bytes
property_work_folder = codes "_workFolder"

abbrev pub property_cancel_requested : Bytes
property_cancel_requested = codes "_cancelRequested"

abbrev pub property_reboot_requested : Bytes
property_reboot_requested = codes "_rebootRequested"

abbrev pub property_immediate_reboot_requested : Bytes
property_immediate_reboot_requested = codes "_immediateRebootRequested"

abbrev pub property_agent_restart_requested : Bytes
property_agent_restart_requested = codes "_agentRestartRequested"

abbrev pub property_immediate_agent_restart_requested : Bytes
property_immediate_agent_restart_requested = codes "_immediateAgentRestartRequested"

abbrev pub property_selected_components : Bytes
property_selected_components = codes "_selectedComponents"

-- A value of another type gives -1, which is true.
abbrev pub truth : Option Bool → Bool
truth none = true
truth (some b) = b

module _ {J : Json} where
  -- A status with the object that is left.
  unfoldable pub stored : Store J → Ptr → Workflow J → J.Object → Option J.Object → Bool × Store J
  stored s p w o none = (false, write s p (record w { properties = some o }))
  stored s p w o (some o') = (true, write s p (record w { properties = some o' }))

  abbrev pub properties_or_new : Workflow J → Option J.Object
  properties_or_new w = elim w.properties [ none ↦ J.init_object | some o ↦ some o ]

  unfoldable pub set_string_property : Ptr → Bytes → Option Bytes → Store J → Run (Bool × Store J)
  unfolding stored
  set_string_property handle property value s =
      if handle == null
      then ok (false, s)
      else (load handle s >>= λ w. elim (properties_or_new w) [
        | none ↦ ok (false, s)
        | some o ↦ ok (
            stored s handle w o
              (elim value [ none ↦ J.set_null o property | some v ↦ J.set_string o property v ]))
      ])

  unfoldable pub get_string_property : Ptr → Bytes → Store J → Run (Option Bytes)
  get_string_property handle property = peek handle none (λ w. elim w.properties [
    | none ↦ none
    | some o ↦ if not (J.has_value o property) then none else J.get_string o property
  ])

  unfoldable pub set_boolean_property : Ptr → Bytes → Bool → Store J → Run (Bool × Store J)
  unfolding stored
  set_boolean_property handle property value s =
      if handle == null
      then ok (false, s)
      else (load handle s >>= λ w. elim w.properties [
        | none ↦ ok (false, s)
        | some o ↦ ok (stored s handle w o (J.set_boolean o property value))
      ])

  abbrev pub boolean_of : Workflow J → Bytes → Bool
  boolean_of w property = elim w.properties [
    | none ↦ false
    | some o ↦ if not (J.has_value o property) then false else truth (J.get_boolean o property)
  ]

  unfoldable pub get_boolean_property : Ptr → Bytes → Store J → Run Bool
  get_boolean_property handle property = peek handle false (λ w. boolean_of w property)

  -- `folder` is what `vsnprintf` formats: `none` for a null format, and then `none` for its error.
  unfoldable pub set_workfolder : Ptr → Option (Option Bytes) → Store J → Run (Bool × Store J)
  set_workfolder handle folder s = if handle == null then ok (false, s) else elim folder [
    | none ↦ set_string_property handle property_work_folder (some []) s
    | some none ↦ ok (false, s)
    | some (some text) ↦ set_string_property handle property_work_folder (some (take 1023 text)) s
  ]

  unfoldable pub set_selected_components : Ptr → Option Bytes → Store J → Run (Bool × Store J)
  set_selected_components handle = set_string_property handle property_selected_components

  unfoldable pub peek_selected_components : Ptr → Store J → Run (Option Bytes)
  peek_selected_components handle = get_string_property handle property_selected_components

  -- The loop of `workflow_get_root`, on fuel.
  unfoldable pub root_loop : ℕ → Ptr → Store J → Run Ptr
  root_loop zero wf s = out_of_fuel
  root_loop (suc fuel) wf s = load wf s >>= λ w.
      (let up = root_loop fuel w.parent s in if not (w.parent == null) then up else ok wf)

  unfoldable pub get_root : ℕ → Ptr → Store J → Run Ptr
  get_root fuel handle s = if handle == null then ok null else root_loop fuel handle s

  unfoldable pub set_sandbox : ℕ → Ptr → Option Bytes → Store J → Run (Bool × Store J)
  set_sandbox fuel handle sandbox s =
      if handle == null
      then ok (false, s)
      else (get_root fuel handle s >>= λ root.
          set_string_property root property_sandbox_root_path sandbox s)

  unfoldable pub is_cancel_requested : Ptr → Store J → Run Bool
  is_cancel_requested handle = get_boolean_property handle property_cancel_requested

  -- The four requests and tests, which go to the root, by their property.
  unfoldable pub is_requested : ℕ → Bytes → Ptr → Store J → Run Bool
  is_requested fuel property handle s =
      get_root fuel handle s >>= λ root. get_boolean_property root property s

  unfoldable pub request : ℕ → Bytes → Ptr → Store J → Run (Bool × Store J)
  request fuel property handle s =
      get_root fuel handle s >>= λ root. set_boolean_property root property true s
