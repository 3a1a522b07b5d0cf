-- ===== src/Workflow/Lifecycle.antt =====
-- The replacement and the retry of a deployment in workflow_utils.c.
pub mod Transfer
pub mod Replacement
pub mod Retried
use mbed_ce_client_for_azure.Base.{
  ◌==◌, Bool, true, false, Option, none, some, ◌∷◌, ◌++◌, Bytes, if◌then◌else◌, Run, ok, ◌>>=◌,
}
use mbed_ce_client_for_azure.Workflow.Parson.{Json}
use mbed_ce_client_for_azure.Workflow.{Ptr, null, replacement, retry, Store, load, write}
use mbed_ce_client_for_azure.Workflow.Fields.{reset_state}
use mbed_ce_client_for_azure.Workflow.Properties.{set_workfolder}
use mbed_ce_client_for_azure.Workflow.Properties.Ids.{peek_id, set_retry_timestamp}

-- The build's ADUC_DOWNLOADS_FOLDER and DEFAULT_SANDBOX_ROOT_PATH, and what `printf` writes for a null string.
pub record Printing : Type 0 where
  pub downloads_folder : Bytes
  pub default_sandbox_root_path : Bytes
  pub null_text : Bytes

abbrev pub folder_of : Printing → Option Bytes → Bytes
folder_of p id = p.downloads_folder ++ b'/' ∷ (elim id [ none ↦ p.null_text | some i ↦ i ])

module _ {J : Json} where
  -- The three moves of `workflow_transfer_data`, each a read, a write and a reset of the source.
  unfoldable pub move_action : Ptr → Ptr → Store J → Run (Store J)
  move_action target source s = load source s >>= λ a. load target s >>= λ t.
      let s' = write s target (record t { update_action = a.update_action }) in
      load source s' >>= λ b. ok (write s' source (record b { update_action = none }))

  unfoldable pub move_manifest : Ptr → Ptr → Store J → Run (Store J)
  move_manifest target source s = load source s >>= λ a. load target s >>= λ t.
      let s' = write s target (record t { update_manifest = a.update_manifest }) in
      load source s' >>= λ b. ok (write s' source (record b { update_manifest = none }))

  unfoldable pub move_properties : Ptr → Ptr → Store J → Run (Store J)
  move_properties target source s = load source s >>= λ a. load target s >>= λ t.
      let s' = write s target (record t { properties = a.properties }) in
      load source s' >>= λ b. ok (write s' source (record b { properties = none }))

  unfoldable pub transfer_data : Printing → Ptr → Ptr → Store J → Run (Bool × Store J)
  transfer_data p target source s =
      if source == null
      then ok (false, s)
      else (load source s >>= λ a. elim a.update_action [
        | none ↦ ok (false, s)
        | some _ ↦ peek_id source s >>= λ id.
            set_workfolder target (some (some (folder_of p id))) s >>= λ (_, s0).
            move_action target source s0 >>= λ s1. move_manifest target source s1 >>= λ s2.
            move_properties target source s2 >>= λ s3. ok (true, s3)
      ])

  unfoldable pub update_retry_deployment : Ptr → Bytes → Store J → Run (Bool × Store J)
  update_retry_deployment handle retry_token s =
      if handle == null
      then ok (false, s)
      else (load handle s >>= λ w.
          set_retry_timestamp handle retry_token
            (write s handle (record w { cancellation_type = retry })))

  unfoldable pub update_replacement_deployment : Ptr → Ptr → Store J → Run (Bool × Store J)
  update_replacement_deployment current next s = load current s >>= λ w.
      if w.operation_in_progress
      then ok (
        true,
        write s current (record w {
          cancellation_type = replacement;
          operation_cancelled = true;
          deferred_replacement = next;
        }),
      )
      else ok (false, s)

  unfoldable pub update_for_replacement : Printing → Ptr → Store J → Run (Store J)
  update_for_replacement p handle s = load handle s >>= λ w.
      transfer_data p handle w.deferred_replacement
        (write s handle (record w { deferred_replacement = null }))
      >>= λ (_, s'). load handle s' >>= λ w'. ok (write s' handle (reset_state w'))

  unfoldable pub update_for_retry : Ptr → Store J → Run (Store J)
  update_for_retry handle s = load handle s >>= λ w. ok (write s handle (reset_state w))
