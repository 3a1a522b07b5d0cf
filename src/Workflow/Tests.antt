-- ===== src/Workflow/Tests.antt =====
-- A JSON library that keeps its objects as functions, and inputs at which the hypotheses of the
-- theorems on workflow_utils.c hold.
mod Properties
mod Lifecycle
use mbed_ce_client_for_azure.Base.{
  ℕ, ◌+◌, ◌≤◌, ◌≡◌, ◌≢◌, refl, ap, sym, ◌∙◌, Bool, true, false, Option, none, some, arith, Bytes,
  str_eq, str_eq_refl, is_some, if◌then◌else◌, ◌==◌, ok, fault, pos, negsuc, suc_ℤ,
}
use mbed_ce_client_for_azure.Workflow.Parson.{Json, IsJson}
use mbed_ce_client_for_azure.Workflow.{
  null, vacant, child, none_state, undefined, no_cancellation, Workflow, Store,
}
use mbed_ce_client_for_azure.Workflow.Children.{insert_child, remove_child, request_cancel}
use mbed_ce_client_for_azure.Workflow.Children.Cells.{insert_at, remove_at, place, child_list}
use mbed_ce_client_for_azure.Workflow.Children.Insert.{insert_child_lem}
use mbed_ce_client_for_azure.Workflow.Children.Remove.{remove_child_lem, remove_child_fault}
use mbed_ce_client_for_azure.Workflow.Cancel.{IsTree, node, Grows, AllCancelled}
use mbed_ce_client_for_azure.Workflow.Cancel.Request.{request_cancel_lem}

pub data Value : Type 0 where
  text : Bytes → Value
  flag : Bool → Value
  nothing : Value

abbrev pub text_of : Option Value → Option Bytes
text_of none = none
text_of (some (text s)) = some s
text_of (some (flag _)) = none
text_of (some nothing) = none

abbrev pub flag_of : Option Value → Option Bool
flag_of none = none
flag_of (some (text _)) = none
flag_of (some (flag b)) = some b
flag_of (some nothing) = none

abbrev pub Object : Type 0
Object = Bytes → Option Value

abbrev pub put : Object → Bytes → Value → Object
put o k v j = if str_eq j k then some v else o j

abbrev pub plain : Json
plain = record {
  Object = Object;
  init_object = some (λ j. none);
  has_value = λ o k. is_some (o k);
  get_string = λ o k. text_of (o k);
  get_boolean = λ o k. flag_of (o k);
  set_string = λ o k v. some (put o k (text v));
  set_null = λ o k. some (put o k nothing);
  set_boolean = λ o k b. some (put o k (flag b));
  dothas_value = λ o k. is_some (o k);
  dotget_string = λ o k. text_of (o k);
  dotget_number = λ o k. 0;
}

read : Bytes → Option Object → Option Value
read k none = none
read k (some f) = f k

put-get : (o o' : Object) (k : Bytes) (v : Value) → some (put o k v) ≡ some o' → o' k ≡ some v
unfolding read
put-get o o' k v h =
    let here : put o k v k ≡ some v = ground (arith, str_eq_refl k) in sym (ap (read k) h) ∙ here

put-other :
    (o o' : Object) (k j : Bytes) (v : Value)
    → some (put o k v) ≡ some o'
    → str_eq j k ≡ false
    → o' j ≡ o j
unfolding read
put-other o o' k j v h d =
    let there : put o k v j ≡ o j = ground arith in sym (ap (read j) h) ∙ there

pub laws : IsJson plain
laws = record {
  set_boolean-get = λ o o' k b h. let e = put-get o o' k (flag b) h in (ap is_some e, ap flag_of e);
  set_boolean-other = λ o o' k j b h d.
      let e = put-other o o' k j (flag b) h d in (ap is_some e, ap flag_of e, ap text_of e);
  set_string-get = λ o o' k v h. let e = put-get o o' k (text v) h in (ap is_some e, ap text_of e);
  set_string-other = λ o o' k j v h d.
      let e = put-other o o' k j (text v) h d in (ap is_some e, ap flag_of e, ap text_of e);
  set_null-get = λ o o' k h. ap text_of (put-get o o' k nothing h);
}

abbrev pub empty : Object
empty j = none

abbrev pub blank : Workflow plain
blank = record {
  parent = null;
  level = pos 0;
  step_index = pos 0;
  children = λ i. vacant;
  child_count = 0;
  children_max = 0;
  update_action = some empty;
  update_manifest = none;
  properties = some empty;
  results = none;
  workflow_state = none_state;
  current_workflow_step = undefined;
  operation_in_progress = false;
  operation_cancelled = false;
  cancellation_type = no_cancellation;
  deferred_replacement = null;
  force_update = false;
  result = record { result_code = 0; extended_result_code = 0 };
  result_success_erc = 0;
  result_details = none;
  installed_update_id = none;
  update_file_inodes = none;
}

-- A parent at 1, its child at 2, and an object on its own at 3.
abbrev pub family : Workflow plain
family = record blank {
  children = λ i. if i == 0 then child 2 else vacant;
  child_count = 1;
  children_max = 10;
  operation_in_progress = true;
}

abbrev pub kid : Workflow plain
kid = record blank { parent = 1; level = pos 1 }

abbrev pub store : Store plain
store p =
    if p == 1 then some family else if p == 2 then some kid else if p == 3 then some blank else none

tree : IsTree store 2 1
tree =
    node family (λ i. 2) (λ e. cc) refl (λ i h. ground arith)
      λ i h.
        node kid (λ j. null) (λ e. cc) refl (λ j a. absurd (omega (arith, a)))
          λ j a. absurd (omega (arith, a))

request_cancel_lem_example :
    (b : Bool) × (s' : Store plain) × (request_cancel 2 1 store ≡ ok (b, s'))
    × Grows store s'
    × (b ≡ true → AllCancelled s' 1)
request_cancel_lem_example = request_cancel_lem 2 2 1 store laws (omega arith) tree

insert_child_lem_example :
    (s' : Store plain) × (w' : Workflow plain) × (insert_child 1 true 1 (pos 0) 3 store
      ≡ ok (true, s'))
    × (s' 1 ≡ some w')
    × (child_list w' ≡ insert_at (place (pos 0) 1) (child 3) (child_list family))
    × (w'.children (place (pos 0) 1) ≡ child 3)
    × (w'.child_count ≡ 1 + 1)
    × (w'.child_count ≤ w'.children_max)
    × (s' 3 ≡ some (record blank { parent = 1; level = suc_ℤ (pos 0) }))
    × ((q : ℕ) → q ≢ 1 → q ≢ 3 → s' q ≡ store q)
insert_child_lem_example =
    insert_child_lem 1 1 (pos 0) 3 store family blank (λ e. cc) (λ e. cc) (λ e. cc) refl refl
      (omega arith) refl

remove_child_lem_example :
    (s' : Store plain) × (w' : Workflow plain) × (remove_child 1 1 (negsuc 0) store ≡ ok (2, s'))
    × (s' 1 ≡ some w')
    × (child_list w' ≡ remove_at 0 (child_list family))
    × (w'.child_count ≡ 0)
    × (s' 2 ≡ some (record kid { parent = null; level = pos 0 }))
    × ((q : ℕ) → q ≢ 1 → q ≢ 2 → s' q ≡ store q)
remove_child_lem_example =
    remove_child_lem 1 1 (negsuc 0) 0 0 2 store family kid (λ e. cc) (λ e. cc) (λ e. cc) refl refl
      refl refl refl λ h. absurd (omega (arith, h))

-- Ten children, which fill the array.
abbrev full : Workflow plain
full = record blank { children = λ i. child 2; child_count = 10; children_max = 10 }

abbrev full_store : Store plain
full_store p = if p == 1 then some full else none

remove_child_fault_example : remove_child 1 1 (pos 0) full_store ≡ fault
remove_child_fault_example =
    remove_child_fault 1 1 0 2 full_store full (λ e. cc) refl (omega arith) refl (omega arith)
