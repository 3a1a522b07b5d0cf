-- ===== src/Steps.antt =====
-- mbed/COMPONENT_AZIOT_OTA/iot-hub-device-update_patch/update_manifest_handlers/steps_handler/
-- steps_handler.cpp: an update whose steps are handled by other content handlers. A workflow object
-- has here the fields that the file uses, and its texts of details are left out.
pub mod Prepare
pub mod Actions
pub mod Loops
pub mod Order
pub mod Ordered
pub mod Grows
pub mod Complete
pub mod Installs
mod Tests
use mbed_ce_client_for_azure.Base.{ℕ, zero, suc, Bool, true, false, Option, List, [], ◌∷◌, Bytes}
use mbed_ce_client_for_azure.Workflow.{State}

-- The result codes that the file names, and the other ones.
pub data Code : Type 0 where
  failure failure_cancelled success download_success install_success apply_success : Code
  backup_success restore_success installed not_installed : Code
  install_skipped_installed install_skipped_no_components download_skipped_no_components : Code
  cancel_success cancel_unable : Code
  other_success other_failure : ℕ → Code

-- The extended result codes that the file names, and the other ones.
pub data Extended : Type 0 where
  no_code file_entity_failure compatibility_failed set_components_failure insert_failed : Extended
  missing_child_in_download missing_child_in_install missing_child_in_is_installed : Extended
  invalid_components unsupported_contract : Extended
  other_code : ℕ → Extended

-- ADUC_Result
pub record Result : Type 0 where
  pub code : Code
  pub extended : Extended

-- IsAducResultCodeFailure
abbrev pub is_failure : Code → Bool
is_failure failure = true
is_failure failure_cancelled = true
is_failure (other_failure n) = true
is_failure _ = false

abbrev pub is_installed_code : Code → Bool
is_installed_code installed = true
is_installed_code _ = false

abbrev pub plain : Code → Result
plain c = record { code = c; extended = no_code }

pub data StepRequest : Type 0 where
  immediate_reboot immediate_agent_restart reboot agent_restart : StepRequest

-- The methods of a content handler.
pub data Method : Type 0 where
  is_installed download backup install apply restore : Method

-- What happens outside the file, or to the objects of others: a method of the handler of a step, the
-- load of that handler, the creation of a step, a request on the root.
pub data StepCall : Type 0 where
  method : Method → (step : ℕ) → StepCall
  load : (step : ℕ) → StepCall
  create : (step : ℕ) → StepCall
  request_root : StepRequest → StepCall

-- A child of the workflow.
pub record Step : Type 0 where
  pub selected : Option Bytes
  pub result : Result

-- The workflow, with the calls so far, the last one first.
pub record Task : Type 0 where
  pub level : ℕ
  pub step_count : ℕ  -- workflow_get_instructions_steps_count
  pub is_inline : ℕ → Bool
  pub selected : Option Bytes
  pub result : Result
  pub state : State
  pub children : List Step
  pub history : List StepCall

-- What the parts outside the file answer, by what has happened. Other threads ask to cancel, and the
-- handlers ask for a restart.
pub record Extensions : Type 0 where
  pub enumerator_registered : Bool
  pub cancel_requested : List StepCall → Bool
  pub requested : StepRequest → List StepCall → Bool
  pub load_result : List StepCall → Result
  pub is_v1_contract : List StepCall → Bool
  pub method_answer : List StepCall → Result
  pub own_result : List StepCall → Result → Result  -- what a handler makes of its step's result
  pub sets_components : List StepCall → Bool
  pub parse_components : Bytes → Option (Option (List Bytes))  -- the JSON text, and its array
  pub inline_result : List StepCall → Result
  pub has_manifest_file : ℕ → Bool
  pub manifest_download : List StepCall → Result
  pub file_result : List StepCall → Result
  pub compatibility : List StepCall → Option Bytes
  pub select_result : List StepCall → Result
  pub select_output : List StepCall → Bytes
  pub inserts : List StepCall → Bool

abbrev pub add_call : StepCall → Task → Task
add_call c t = record t { history = c ∷ t.history }

abbrev pub set_nth {ℓ} : {A : Type ℓ} → ℕ → (A → A) → List A → List A
set_nth i f [] = []
set_nth zero f (x ∷ xs) = f x ∷ xs
set_nth (suc i) f (x ∷ xs) = x ∷ set_nth i f xs

-- `workflow_set_result` on a child
abbrev pub set_step_result : ℕ → Result → Task → Task
set_step_result i r t = record t { children = set_nth i (λ s. record s { result = r }) t.children }

-- A method of the handler of step `i`.
unfoldable pub act : Extensions → Method → ℕ → Task → Result × Task
act X m i t =
    let h = method m i ∷ t.history in
    (
      X.method_answer h,
      record t {
        history = h;
        children = set_nth i (λ s. record s { result = X.own_result h s.result }) t.children;
      },
    )
