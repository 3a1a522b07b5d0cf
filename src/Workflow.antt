-- ===== src/Workflow.antt =====
-- The workflow objects of
-- mbed/COMPONENT_AZIOT_OTA/iot-hub-device-update_patch/utils/workflow_utils/workflow_utils.c: the
-- objects at their addresses, and the getters and setters of one object.
pub mod Parson
pub mod Stores
pub mod Fields
pub mod Properties
pub mod Children
pub mod Lifecycle
pub mod Cancel
pub mod Folders
mod Tests
use mbed_ce_client_for_azure.Base.{
  ℕ, ◌==◌, Bool, Option, none, some, Bytes, if◌then◌else◌, Run, ok, fault, ◌>>=◌, ℤ, negsuc, List,
}
use Parson.{Json}

abbrev pub Ptr : Type 0
Ptr = ℕ

abbrev pub null : Ptr
null = 0

-- A word of the array of children: not written yet, a pointer, or overwritten in part.
pub data Cell : Type 0 where
  vacant : Cell
  child : Ptr → Cell
  torn : Cell

-- ADUCITF_State
pub data State : Type 0 where
  none_state idle deployment_in_progress download_started download_succeeded : State
  backup_started backup_succeeded install_started install_succeeded : State
  apply_started restore_started failed_state : State

-- ADUCITF_WorkflowStep
pub data WorkflowStep : Type 0 where
  undefined process_deployment download backup install apply restore : WorkflowStep

-- ADUC_WorkflowCancellationType
pub data CancellationType : Type 0 where
  no_cancellation normal replacement retry component_changed : CancellationType

pub record Result : Type 0 where
  pub result_code : ℕ
  pub extended_result_code : ℕ

-- A JSON object is owned by the field that points to it, so it is a value here.
pub record Workflow (J : Json) : Type 0 where
  pub parent : Ptr
  pub level : ℤ
  pub step_index : ℤ
  pub children : ℕ → Cell
  pub child_count : ℕ
  pub children_max : ℕ  -- 0 exactly if `Children` is NULL
  pub update_action : Option J.Object
  pub update_manifest : Option J.Object
  pub properties : Option J.Object
  pub results : Option J.Object
  pub workflow_state : State
  pub current_workflow_step : WorkflowStep
  pub operation_in_progress : Bool
  pub operation_cancelled : Bool
  pub cancellation_type : CancellationType
  pub deferred_replacement : Ptr
  pub force_update : Bool
  pub result : Result
  pub result_success_erc : ℕ
  pub result_details : Option Bytes  -- STRING_HANDLE
  pub installed_update_id : Option Bytes  -- STRING_HANDLE
  pub update_file_inodes : Option (List ℕ)

-- `none` at an address where no object is.
abbrev pub Store : Json → Type 0
Store J = Ptr → Option (Workflow J)

module _ {J : Json} where
  abbrev pub write : Store J → Ptr → Workflow J → Store J
  write s p w q = if q == p then some w else s q

  -- `*p`
  unfoldable pub load : Ptr → Store J → Run (Workflow J)
  load p s = if p == null then fault else elim (s p) [ none ↦ fault | some w ↦ ok w ]

  -- `d` for NULL, and a field of the object otherwise
  abbrev pub peek : {A : Type 0} → Ptr → A → (Workflow J → A) → Store J → Run A
  peek p d f s = if p == null then ok d else (load p s >>= λ w. ok (f w))

  -- Nothing for NULL, and a write of the object otherwise.
  abbrev pub poke : Ptr → (Workflow J → Workflow J) → Store J → Run (Store J)
  poke p f s = if p == null then ok s else (load p s >>= λ w. ok (write s p (f w)))

  unfoldable pub get_level : Ptr → Store J → Run ℤ
  get_level handle = peek handle (negsuc 0) (λ w. w.level)

  unfoldable pub set_level : Ptr → ℤ → Store J → Run (Store J)
  set_level handle l = poke handle (λ w. record w { level = l })

  unfoldable pub get_step_index : Ptr → Store J → Run ℤ
  get_step_index handle = peek handle (negsuc 0) (λ w. w.step_index)

  unfoldable pub set_step_index : Ptr → ℤ → Store J → Run (Store J)
  set_step_index handle i = poke handle (λ w. record w { step_index = i })

  unfoldable pub get_parent : Ptr → Store J → Run Ptr
  get_parent handle = peek handle null (λ w. w.parent)

  unfoldable pub get_children_count : Ptr → Store J → Run ℕ
  get_children_count handle = peek handle 0 (λ w. w.child_count)
