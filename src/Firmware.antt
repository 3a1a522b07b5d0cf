-- ===== src/Firmware.antt =====
-- mbed/COMPONENT_AZIOT_OTA/COMPONENT_AZIOT_OTA_PAL_MCUBOOT/mcubupdate_handler/mcubupdate_handler.cpp: the
-- handler that updates the firmware of the board, with the state that outlives a reset. The key-value
-- store, the bootloader and the flash areas are not part of the repository.
pub mod Settled
pub mod Programming
pub mod Ready
pub mod Parts
pub mod Written
pub mod Download
pub mod Downloaded
pub mod Operation
pub mod Received
pub mod Complete
pub mod Opened
mod Tests
use mbed_ce_client_for_azure.Base.{
  ℕ, ◌+◌, Bool, true, false, not, ◌&&◌, Option, none, some, [], Bytes, length, ◌==◌, leb, str_eq,
  if◌then◌else◌,
}
use mbed_ce_client_for_azure.Strings.Number.{is_null_or_empty}

abbrev pub installed_criteria_max_char : ℕ
installed_criteria_max_char = 64

-- OTA_NonVolatileImageUpgradeState_t. A number stands for an image_version.
pub record UpgradeState : Type 0 where
  pub stage_version_valid : Bool
  pub stage_version : ℕ
  pub install_rebooted_valid : Bool
  pub install_rebooted : Bool
  pub stage_criteria_valid : Bool
  pub stage_criteria : Bytes
  pub persistent_criteria_valid : Bool
  pub persistent_criteria : Bytes

abbrev pub no_upgrade : UpgradeState
no_upgrade = record {
  stage_version_valid = false;
  stage_version = 0;
  install_rebooted_valid = false;
  install_rebooted = false;
  stage_criteria_valid = false;
  stage_criteria = [];
  persistent_criteria_valid = false;
  persistent_criteria = [];
}

-- What the parts outside answer. A write of the key-value store succeeds by how many came before it.
pub record Hardware : Type 0 where
  pub kv_sets : ℕ → Bool
  pub sets_pending : Bool  -- boot_set_pending
  pub sets_confirmed : Bool  -- boot_set_confirmed
  pub opens_slot : Bool  -- flash_area_open of the primary slot
  pub reads_image_ok : Bool  -- boot_read_image_ok

-- The state of the board, as far as the file changes and reads it.
pub record Board : Type 0 where
  pub kv : Option UpgradeState  -- none where kv_get fails, or gives another size
  pub kv_calls : ℕ
  pub active_version : ℕ
  pub image_ok : Bool
  pub image_pending : Bool
  pub reboot_requested : Bool
  pub restarts : ℕ  -- NVIC_SystemReset

module _ (hw : Hardware) where
  unfoldable pub set_all : UpgradeState → Board → Bool × Board
  set_all u b =
      if hw.kv_sets b.kv_calls
      then (true, record b { kv = some u; kv_calls = b.kv_calls + 1 })
      else (false, record b { kv_calls = b.kv_calls + 1 })

  -- A change of the state in the store.
  abbrev pub update : (UpgradeState → UpgradeState) → Board → Bool × Board
  update f b = elim b.kv [ none ↦ (false, b) | some u ↦ set_all (f u) b ]

  -- What is behind `reserved` is kept.
  abbrev pub cleared_upgrade : UpgradeState → UpgradeState
  cleared_upgrade u = record no_upgrade {
    persistent_criteria_valid = u.persistent_criteria_valid;
    persistent_criteria = u.persistent_criteria;
  }

  unfoldable pub reset : (include_reserved : Bool) → Board → Bool × Board
  reset include_reserved b = elim b.kv [
    | none ↦ set_all no_upgrade b
    | some u ↦ set_all (if include_reserved then no_upgrade else cleared_upgrade u) b
  ]

  unfoldable pub set_stage_version : ℕ → Board → Bool × Board
  set_stage_version v = update (λ u. record u { stage_version = v; stage_version_valid = true })

  unfoldable pub set_install_rebooted : Bool → Board → Bool × Board
  set_install_rebooted r =
      update (λ u. record u { install_rebooted = r; install_rebooted_valid = true })

  unfoldable pub set_stage_criteria : Bytes → Board → Bool × Board
  set_stage_criteria criteria b =
      if leb (length criteria) installed_criteria_max_char
      then update (λ u. record u { stage_criteria = criteria; stage_criteria_valid = true }) b
      else (false, b)

  -- nvImgUpgSt_settleInstalledCriteria
  unfoldable pub settle_criteria : Board → Bool × Board
  settle_criteria b = elim b.kv [
    | none ↦ (false, b)
    | some u ↦
        if u.stage_criteria_valid && leb (length u.stage_criteria) installed_criteria_max_char
        then set_all
            (record u {
              persistent_criteria = u.stage_criteria;
              persistent_criteria_valid = true;
              stage_criteria_valid = false;
              stage_criteria = [];
            })
            b
        else (false, b)
  ]

  -- nvImgUpgSt_installed: whether the staged image is active after a reboot, and if so, is confirmed.
  unfoldable pub installed : Board → Option Bool
  installed b = elim b.kv [
    | none ↦ none
    | some u ↦
        if u.install_rebooted_valid
          && u.install_rebooted
          && u.stage_version_valid
          && u.stage_version == b.active_version
          && hw.opens_slot
        then some (hw.reads_image_ok && b.image_ok)
        else none
  ]

  unfoldable pub install_rebooted_of : Board → Option Bool
  install_rebooted_of b = elim b.kv [
    | none ↦ none
    | some u ↦ if u.install_rebooted_valid then some u.install_rebooted else none
  ]

  unfoldable pub persistent_criteria_of : (max_len : ℕ) → Board → Option Bytes
  persistent_criteria_of max_len b = elim b.kv [
    | none ↦ none
    | some u ↦
        if u.persistent_criteria_valid && leb (length u.persistent_criteria + 1) max_len
        then some u.persistent_criteria
        else none
  ]

  abbrev pub is_unset : Option Bool → Bool
  is_unset none = false
  is_unset (some b) = not b

  -- The confirmation of an image that is installed and not confirmed.
  unfoldable pub confirm : Board → Board
  confirm b =
      if is_unset (installed b) && hw.sets_confirmed then record b { image_ok = true } else b

  -- The end of the constructor: what becomes of the criteria.
  unfoldable pub conclude : Board → Board
  conclude b = elim (installed b) [
    | none ↦ b
    | some confirmed ↦
        let settled = (reset false (settle_criteria b).1).1 in
        let reverted = (reset false b).1 in
        if confirmed then settled else record reverted { restarts = reverted.restarts + 1 }
  ]

  -- The constructor of Update_NVImgUpgSt_PostReboot, which runs at each start.
  unfoldable pub post_reboot : Board → Board
  post_reboot b =
      conclude
        (confirm (if is_unset (install_rebooted_of b) then (set_install_rebooted true b).1 else b))

-- The results that the handler gives.
pub data HandlerResult : Type 0 where
  failure download_success install_success apply_success apply_required_reboot : HandlerResult
  backup_success_unsupported restore_success_unsupported : HandlerResult
  cancel_success cancel_unable is_installed not_installed : HandlerResult

-- MCUbUpdateHandlerImpl::Cancel: `requested` is what workflow_request_cancel gives.
unfoldable pub handler_cancel : (requested : Bool) → HandlerResult
handler_cancel requested = if requested then cancel_success else cancel_unable

module _ (hw : Hardware) where
  -- From the criteria in the store on: the mark on the secondary image, and the request of a reboot.
  unfoldable pub apply_pending : Board → HandlerResult × Board
  apply_pending b =
      let marked = record b { image_pending = true } in
      let (done, b') = set_install_rebooted hw false marked in
      if hw.sets_pending
      then if done
        then (apply_required_reboot, record b' { reboot_requested = true })
        else (failure, b')
      else (failure, b)

  -- MCUbUpdateHandlerImpl::Apply
  unfoldable pub handler_apply :
      (criteria : Option Bytes) (cancelled requested : Bool) → Board → HandlerResult × Board
  handler_apply none cancelled requested b = (failure, b)
  handler_apply (some c) cancelled requested b =
      let (staged, b') = set_stage_criteria hw c b in
      let applied = apply_pending b' in
      if is_null_or_empty (some c)
      then (failure, b)
      else if cancelled
      then (handler_cancel requested, b)
      else if staged
      then applied
      else (failure, b')

  -- MCUbUpdateHandlerImpl::IsInstalled
  unfoldable pub handler_is_installed : (criteria : Option Bytes) → Board → HandlerResult
  handler_is_installed none b = failure
  handler_is_installed (some c) b =
      if is_null_or_empty (some c)
      then failure
      else elim (persistent_criteria_of hw (installed_criteria_max_char + 1) b) [
        | none ↦ not_installed
        | some p ↦ if str_eq c p then is_installed else not_installed
      ]

unfoldable pub handler_backup : HandlerResult
handler_backup = backup_success_unsupported

unfoldable pub handler_install : HandlerResult
handler_install = install_success

unfoldable pub handler_restore : HandlerResult
handler_restore = restore_success_unsupported
