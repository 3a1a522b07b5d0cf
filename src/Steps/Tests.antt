-- ===== src/Steps/Tests.antt =====
-- Handlers that do all that they are told, at which the theorems on steps_handler.cpp are applied.
use mbed_ce_client_for_azure.Base.{true, false, ◌≡◌, refl, some, none, codes, List, [], ◌∷◌, arith}
use mbed_ce_client_for_azure.Workflow.{idle}
use mbed_ce_client_for_azure.Steps.{
  Code, failure, success, download_success, install_success, apply_success, backup_success,
  restore_success, not_installed, Result, plain, Method, is_installed, download, backup, install,
  apply, restore, StepCall, method, load, create, Task, Extensions, is_failure, act,
}
use mbed_ce_client_for_azure.Steps.Prepare.{
  prepare, create_steps, create_step, join_step, make_step, create_inline,
}
use mbed_ce_client_for_azure.Steps.Actions.{
  steps_download, steps_install, steps_is_installed, install_all, each_component, each_step,
  targets, optional, install_step, run_instance, install_instance, apply_instance, instance_done,
  enter, enter_child, with_component, finish, proceed, component_string, selected_components_array,
}
use mbed_ce_client_for_azure.Steps.Order.{ordered}
use mbed_ce_client_for_azure.Steps.Ordered.{methods_ordered}
use mbed_ce_client_for_azure.Steps.Complete.{settles, NeverRequested}
use mbed_ce_client_for_azure.Steps.Installs.{steps_install-settles}

abbrev answer_of : Method → Code
answer_of is_installed = not_installed
answer_of download = download_success
answer_of backup = backup_success
answer_of install = install_success
answer_of apply = apply_success
answer_of restore = restore_success

abbrev willing_answer : List StepCall → Result
willing_answer (method m i ∷ h) = plain (answer_of m)
willing_answer h = plain failure

abbrev willing : Extensions
willing = record {
  enumerator_registered = true;
  cancel_requested = λ h. false;
  requested = λ q h. false;
  load_result = λ h. plain success;
  is_v1_contract = λ h. true;
  method_answer = willing_answer;
  own_result = λ h r. r;
  sets_components = λ h. true;
  parse_components = λ b. some (some (b ∷ []));
  inline_result = λ h. plain success;
  has_manifest_file = λ i. true;
  manifest_download = λ h. plain success;
  file_result = λ h. plain success;
  compatibility = λ h. some (codes "c");
  select_result = λ h. plain success;
  select_output = λ h. codes "s";
  inserts = λ h. true;
}

abbrev two_steps : Task
two_steps = record {
  level = 0;
  step_count = 2;
  is_inline = λ i. true;
  selected = none;
  result = plain failure;
  state = idle;
  children = [];
  history = [];
}

two_steps_installed :
    (steps_install willing two_steps).1.history
    ≡ method apply 1
      ∷ method install 1
      ∷ method backup 1
      ∷ method is_installed 1
      ∷ load 1
      ∷ method apply 0
      ∷ method install 0
      ∷ method backup 0
      ∷ method is_installed 0
      ∷ load 0
      ∷ create 1
      ∷ create 0
      ∷ []
unfolding steps_install finish prepare create_steps create_step join_step make_step create_inline
    install_all optional targets selected_components_array each_component each_step install_step
    enter enter_child with_component run_instance install_instance apply_instance instance_done
    proceed act component_string
two_steps_installed = refl

methods_ordered_example :
    (ordered willing (steps_download willing two_steps).1.history ≡ true)
    × (ordered willing (steps_install willing two_steps).1.history ≡ true)
    × (ordered willing (steps_is_installed willing two_steps).1.history ≡ true)
unfolding ordered
methods_ordered_example = methods_ordered willing two_steps refl

none_requested : NeverRequested willing
unfolding NeverRequested
none_requested q h = refl

two_steps_fine : is_failure (steps_install willing two_steps).0.code ≡ false
unfolding steps_install finish prepare create_steps create_step join_step make_step create_inline
    install_all optional targets selected_components_array each_component each_step install_step
    enter enter_child with_component run_instance install_instance apply_instance instance_done
    proceed act component_string
two_steps_fine = refl

steps_install-settles_example : settles willing 1 (steps_install willing two_steps).1.history ≡ true
steps_install-settles_example =
    steps_install-settles willing none_requested two_steps refl two_steps_fine 1 (omega arith)
