-- ===== src/Workflow/Tests/Lifecycle.antt =====
-- Inputs for the theorems on replacement, retry and folders of workflow_utils.c.
use mbed_ce_client_for_azure.Base.{ℕ, ◌≡◌, ◌≢◌, refl, true, some, codes, ok}
use mbed_ce_client_for_azure.Workflow.{null, replacement, Workflow, Store}
use mbed_ce_client_for_azure.Workflow.Fields.{reset_state}
use mbed_ce_client_for_azure.Workflow.Lifecycle.{
  Printing, update_replacement_deployment, update_for_replacement,
}
use mbed_ce_client_for_azure.Workflow.Lifecycle.Transfer.{taken, emptied}
use mbed_ce_client_for_azure.Workflow.Lifecycle.Replacement.{replacement_lem}
use mbed_ce_client_for_azure.Workflow.Tests.{plain, empty, blank, family, store}

abbrev printing : Printing
printing = record {
  downloads_folder = codes "/var";
  default_sandbox_root_path = codes "/tmp";
  null_text = codes "(null)";
}

replacement_lem_example :
    (s1 s2 : Store plain) × (a1 : Workflow plain) × (update_replacement_deployment 1 3 store
      ≡ ok (true, s1))
    × (s1 1 ≡ some a1)
    × (a1.operation_cancelled ≡ true)
    × (a1.cancellation_type ≡ replacement)
    × (update_for_replacement printing 1 s1 ≡ ok s2)
    × (s2 1 ≡ some (reset_state (taken (record family { deferred_replacement = null }) blank)))
    × (s2 3 ≡ some (emptied blank))
    × ((q : ℕ) → q ≢ 1 → q ≢ 3 → s2 q ≡ store q)
replacement_lem_example =
    replacement_lem printing 1 3 store family blank empty (λ e. cc) (λ e. cc) (λ e. cc) refl refl
      refl refl
