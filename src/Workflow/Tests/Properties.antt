-- ===== src/Workflow/Tests/Properties.antt =====
-- Inputs for the theorems on the properties and the ids of workflow_utils.c.
use mbed_ce_client_for_azure.Base.{◌≡◌, refl, true, false, some, arith, Bytes, codes, str_eq, ok}
use mbed_ce_client_for_azure.Workflow.{Store, load, write}
use mbed_ce_client_for_azure.Workflow.Properties.{
  property_id, property_reboot_requested, request, is_requested,
}
use mbed_ce_client_for_azure.Workflow.Properties.Ids.{
  set_id, peek_id, get_properties_id, isequal_id,
}
use mbed_ce_client_for_azure.Workflow.Properties.Root.{IsUnder, top, step, request_lem}
use mbed_ce_client_for_azure.Workflow.Properties.RoundTrip.{set_id_lem}
use mbed_ce_client_for_azure.Workflow.Tests.{
  text, flag, put, plain, laws, empty, blank, family, kid, store,
}

up_from_kid : IsUnder store 1 2 1
up_from_kid = step kid (λ e. cc) refl (λ e. cc) (top family (λ e. cc) refl refl)

request_lem_example :
    (s' : Store plain) × (request 2 property_reboot_requested 2 store ≡ ok (true, s'))
    × (is_requested 2 property_reboot_requested 1 s' ≡ ok true)
    × ((j : Bytes)
        → str_eq j property_reboot_requested ≡ false
        → is_requested 2 j 1 s' ≡ is_requested 2 j 1 store)
request_lem_example =
    request_lem 2 1 0 2 1 1 property_reboot_requested store family empty
      (put empty property_reboot_requested (flag true)) laws (omega arith) (omega arith) up_from_kid
      (top family (λ e. cc) refl refl) (λ e. cc) refl refl refl

abbrev named : Store plain
named =
    write store 3 (record blank { properties = some (put empty property_id (text (codes "a"))) })

sets_id : set_id 3 (codes "a") store ≡ ok (true, named)
unfolding set_id load
sets_id = refl

set_id_lem_example :
    (peek_id 3 named ≡ ok (some (codes "a"))) × (isequal_id 3 (some (codes "a")) named ≡ ok true)
set_id_lem_example = set_id_lem 3 (codes "a") store named laws sets_id

named_a : peek_id 3 named ≡ ok (some (codes "a"))
unfolding peek_id get_properties_id load
named_a = refl
