-- ===== src/Workflow/Stores.antt =====
-- Reading the objects of workflow_utils.c at their addresses.
use mbed_ce_client_for_azure.Base.{ℕ, ◌≡◌, ◌≢◌, arith, some, ok}
use mbed_ce_client_for_azure.Workflow.Parson.{Json}
use mbed_ce_client_for_azure.Workflow.{null, Workflow, Store, load}

module _ {J : Json} where
  pub load_at : (p : ℕ) (s : Store J) (w : Workflow J) → p ≢ null → s p ≡ some w → load p s ≡ ok w
  unfolding load
  load_at p s w h e = ground arith
