-- ===== src/Firmware/Settled.antt =====
-- How an update of mcubupdate_handler.cpp comes to count as installed.
use mbed_ce_client_for_azure.Base.{
  ℕ, ◌+◌, ◌≡◌, refl, arith, Bool, true, false, ◌&&◌, ◌||◌, ==_refl, Option, none, some, Bytes,
  length, ◌==◌, leb, str_eq_refl,
}
use mbed_ce_client_for_azure.Strings.Number.{is_null_or_empty}
use mbed_ce_client_for_azure.Firmware.{
  UpgradeState, no_upgrade, Hardware, Board, set_all, reset, set_stage_criteria,
  set_install_rebooted, settle_criteria, installed, install_rebooted_of, persistent_criteria_of,
  confirm, conclude, post_reboot, apply_required_reboot, is_installed, apply_pending, handler_apply,
  handler_is_installed,
}

-- The bootloader starts an image with this version.
abbrev pub boots : (version : ℕ) (image_ok : Bool) → Board → Board
boots version image_ok b = record b {
  active_version = version;
  image_ok = image_ok;
  image_pending = false;
}

module _ (hw : Hardware) where
  applied_lem :
      (b : Board) (u : UpgradeState) (c : Bytes)
      → ((n : ℕ) → hw.kv_sets n ≡ true)
      → hw.sets_pending ≡ true
      → b.kv ≡ some u
      → is_null_or_empty (some c) ≡ false
      → leb (length c) 64 ≡ true
      → handler_apply hw (some c) false false b ≡ (
        apply_required_reboot,
        record b {
          kv = some (record u {
            stage_criteria = c;
            stage_criteria_valid = true;
            install_rebooted = false;
            install_rebooted_valid = true;
          });
          kv_calls = b.kv_calls + 1 + 1;
          image_pending = true;
          reboot_requested = true;
        },
      )
  unfolding handler_apply set_stage_criteria apply_pending set_install_rebooted set_all
  applied_lem b u c writes marks held text short =
      rw (text, short, held, writes b.kv_calls, marks, writes (b.kv_calls + 1)) refl

  -- A start of the staged image, which is confirmed or gets so.
  settled_lem :
      (b : Board) (u : UpgradeState)
      → ((n : ℕ) → hw.kv_sets n ≡ true)
      → hw.opens_slot ≡ true
      → hw.reads_image_ok ≡ true
      → hw.sets_confirmed ≡ true
      → b.kv ≡ some u
      → u.install_rebooted_valid ≡ true
      → u.install_rebooted ≡ false
      → u.stage_version_valid ≡ true
      → u.stage_version == b.active_version ≡ true
      → u.stage_criteria_valid ≡ true
      → leb (length u.stage_criteria) 64 ≡ true
      → post_reboot hw b ≡ record b {
        kv = some (record no_upgrade {
          persistent_criteria = u.stage_criteria;
          persistent_criteria_valid = true;
        });
        kv_calls = b.kv_calls + 1 + 1 + 1;
        image_ok = true;
      }
  unfolding post_reboot install_rebooted_of set_install_rebooted set_all confirm installed conclude
      settle_criteria reset
  settled_lem b u writes opens reads confirms held valid fresh staged same criteria short = ground (
    arith,
    writes b.kv_calls,
    writes (b.kv_calls + 1),
    writes (b.kv_calls + 1 + 1),
    opens,
    reads,
    confirms,
    held,
    valid,
    fresh,
    staged,
    same,
    criteria,
    short,
  )

  -- The firmware that is downloaded is the one that runs, and it is confirmed or can be.
  unfoldable pub comes_up : Board → Bool
  comes_up b = elim b.kv [
    | none ↦ false
    | some u ↦
        u.stage_version_valid
        && u.stage_version == b.active_version
        && hw.opens_slot
        && hw.reads_image_ok
        && (b.image_ok || hw.sets_confirmed)
  ]

  persistent_kept :
      (n : ℕ) (b : Board)
      → comes_up b ≡ false
      → persistent_criteria_of hw n (post_reboot hw b) ≡ persistent_criteria_of hw n b
  unfolding comes_up post_reboot install_rebooted_of set_install_rebooted set_all confirm installed
      conclude settle_criteria reset persistent_criteria_of
  persistent_kept n b down = ground (arith, down)

  fits : (c : Bytes) → leb (length c) 64 ≡ true → leb (length c + 1) 65 ≡ true
  fits c short = ground (arith, short)

  -- With a store that can be written, a bootloader that can mark images, a primary slot that can be opened and
  -- an image_ok that can be read: an application of an update that is not cancelled, whose criteria have from
  -- one to 64 bytes and whose version the download has put into the store, asks for a reboot. When the board
  -- then starts with that version, the image is confirmed, no restart follows, and the update counts as
  -- installed.
  pub upgrade_settles :
      (b : Board) (u : UpgradeState) (c : Bytes) (image_ok : Bool)
      → ((n : ℕ) → hw.kv_sets n ≡ true)
      → hw.sets_pending ≡ true
      → hw.opens_slot ≡ true
      → hw.reads_image_ok ≡ true
      → hw.sets_confirmed ≡ true
      → b.kv ≡ some u
      → u.stage_version_valid ≡ true
      → is_null_or_empty (some c) ≡ false
      → leb (length c) 64 ≡ true
      → let applied = handler_apply hw (some c) false false b in
        let started = post_reboot hw (boots u.stage_version image_ok applied.1) in
        (applied.0 ≡ apply_required_reboot)
        × (applied.1.image_pending ≡ true)
        × (handler_is_installed hw (some c) started ≡ is_installed)
        × (started.image_ok ≡ true)
        × (started.restarts ≡ b.restarts)
  unfolding handler_is_installed persistent_criteria_of
  upgrade_settles b u c ok writes marks opens reads confirms held staged text short =
      let staged_state = record u {
        stage_criteria = c;
        stage_criteria_valid = true;
        install_rebooted = false;
        install_rebooted_valid = true;
      } in
      let booted = boots u.stage_version ok (record b {
        kv = some staged_state;
        kv_calls = b.kv_calls + 1 + 1;
        image_pending = true;
        reboot_requested = true;
      }) in
      let settled =
        settled_lem booted staged_state writes opens reads confirms refl refl refl staged
          (==_refl u.stage_version) refl short in
      rw (applied_lem b u c writes marks held text short, settled)
        (refl, refl, rw (text, fits c short, str_eq_refl c) refl, refl, refl)

  -- Where the firmware that is downloaded does not run after a start, or is not confirmed, the start leaves
  -- what counts as installed as it was.
  pub post_reboot_keeps :
      (b : Board) (c : Option Bytes)
      → comes_up b ≡ false
      → handler_is_installed hw c (post_reboot hw b) ≡ handler_is_installed hw c b
  unfolding handler_is_installed
  post_reboot_keeps b none down = refl
  post_reboot_keeps b (some c) down = rw (persistent_kept 65 b down) refl
