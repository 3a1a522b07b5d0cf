-- ===== src/Firmware/Tests.antt =====
-- A board on which an update is applied.
use mbed_ce_client_for_azure.Base.{
  ℕ, leb, ◌+◌, ◌≡◌, refl, arith, true, false, ◌==◌, some, codes, Run, ok, fault, out_of_fuel, List,
  [], ◌∷◌, Option, none, ◌≢◌, ◌⊎◌,
}
use mbed_ce_client_for_azure.Strings.Number.{is_null_or_empty}
use mbed_ce_client_for_azure.Firmware.{
  UpgradeState, no_upgrade, HandlerResult, reset, set_all, set_stage_version, handler_cancel,
  download_success, Hardware, Board, post_reboot, apply_required_reboot, is_installed,
  handler_apply, handler_is_installed,
}
use mbed_ce_client_for_azure.Firmware.Programming.{
  Buffer, Flash, copy_to, write_chunk, write_first, write_units, write_last, first_size,
  read_program_unit, program,
}
use mbed_ce_client_for_azure.Firmware.Ready.{IsReady}
use mbed_ce_client_for_azure.Firmware.Written.{write_chunk_lem}
use mbed_ce_client_for_azure.Firmware.Download.{
  Header, Sha, verify_signature, hash_blocks, receive, combined_download_install, install_caught,
  catch_header,
}
use mbed_ce_client_for_azure.Firmware.Downloaded.{IsStream, ReadsFile, verify_signature_lem}
use mbed_ce_client_for_azure.Firmware.Operation.{
  Secondary, Updater, Occasion, handler_download, ota_reinit, ota_deinit, open_device,
  transfer_file, check_download,
}
use mbed_ce_client_for_azure.Firmware.Complete.{IsComplete, handler_download_lem}
use mbed_ce_client_for_azure.Firmware.Opened.{IsTidy, ota_reinit_lem}
use mbed_ce_client_for_azure.Firmware.Settled.{boots, comes_up, upgrade_settles, post_reboot_keeps}

abbrev hardware : Hardware
hardware = record {
  kv_sets = λ n. true;
  sets_pending = true;
  sets_confirmed = true;
  opens_slot = true;
  reads_image_ok = true;
}

-- Version 7 is downloaded, and version 6 is running.
abbrev downloaded : UpgradeState
downloaded = record no_upgrade { stage_version_valid = true; stage_version = 7 }

abbrev board : Board
board = record {
  kv = some downloaded;
  kv_calls = 0;
  active_version = 6;
  image_ok = true;
  image_pending = false;
  reboot_requested = false;
  restarts = 0;
}

upgrade_settles_example :
    let applied = handler_apply hardware (some (codes "1.2")) false false board in
    let started = post_reboot hardware (boots 7 false applied.1) in
    (applied.0 ≡ apply_required_reboot)
    × (applied.1.image_pending ≡ true)
    × (handler_is_installed hardware (some (codes "1.2")) started ≡ is_installed)
    × (started.image_ok ≡ true)
    × (started.restarts ≡ 0)
upgrade_settles_example =
    upgrade_settles hardware board downloaded (codes "1.2") false (λ n. refl) refl refl refl refl
      refl refl (unfold is_null_or_empty in refl) refl

post_reboot_keeps_example :
    handler_is_installed hardware (some (codes "1.2")) (post_reboot hardware board)
    ≡ handler_is_installed hardware (some (codes "1.2")) board
post_reboot_keeps_example =
    post_reboot_keeps hardware board (some (codes "1.2")) (unfold comes_up in refl)

abbrev flash : Flash
flash = record {
  size = 64;
  unit = 4;
  block = 8;
  reads = λ a n. leb (a + n) 64;
  programs = λ a n. leb (a + n) 64;
}

flash-IsReady : IsReady flash
flash-IsReady = record {
  positive = omega arith;
  units = 2;
  has_units = omega arith;
  whole = refl;
  blocks = 8;
  whole_blocks = refl;
  bounded = omega arith;
  reads = λ a n. refl;
  programs = λ a n. refl;
}

abbrev erased : Buffer
erased i = 255

-- Seven bytes from the third, which begin and end inside of units.
write_chunk_lem_example :
    (s : Buffer) × (write_chunk flash erased 3 (λ i. i + 10) 7 ≡ ok (true, s))
    × ((x : ℕ) → s x ≡ copy_to erased 3 (λ i. i + 10) 7 x)
write_chunk_lem_example = write_chunk_lem flash erased (λ i. i + 10) 3 7 flash-IsReady (omega arith)

-- A digest that counts the bytes.
abbrev sha : Sha
sha = record {
  is_supported = true;
  State = ℕ;
  start = 0;
  input = λ h b n. h + n;
  is_expected = λ h. h == 11;
}

sha-IsStream : IsStream flash sha
unfolding IsStream
sha-IsStream = (λ h b m n. omega arith, λ h b. omega arith)

reads_file : ReadsFile flash sha 11
unfolding ReadsFile
reads_file k h = ground arith

-- One block and three bytes.
verify_signature_lem_example : verify_signature flash sha true 11 erased ≡ true
verify_signature_lem_example =
    verify_signature_lem flash sha true 11 erased (omega arith) reads_file sha-IsStream

-- An image header of four bytes, with the version in the second.
abbrev header : Header
header = record { size = 4; has_magic = λ b. b 0 == 61; version = λ b. b 1 }

abbrev secondary : Secondary
secondary = record { has_device = true; inits = true; erases = true; erased = erased }

abbrev updater : Updater
updater = record { board = board; slot = λ i. 0; has_context = false; inited = 0; buffers = 0 }

-- Eleven bytes in two chunks, of which the first has a part of the header.
abbrev occasion : Occasion
occasion = record {
  file_count = 1;
  has_file = true;
  size_in_bytes = 11;
  has_hash = true;
  has_active_magic = true;
  chunks =
      record { content = λ i. i + 61; length = 3 }
      ∷ record { content = λ i. i + 64; length = 8 }
      ∷ [];
  has_response = true;
  cancelled_before = false;
  cancelled = λ n. false;
  cancelled_after = false;
  cancels = true;
}

handler_download_lem_example :
    (result : HandlerResult) × (u : Updater) × (handler_download hardware flash header secondary sha
        occasion updater
      ≡ ok (result, u))
    × ((result ≢ download_success) ⊎ IsComplete hardware flash header secondary sha occasion u)
handler_download_lem_example =
    handler_download_lem hardware flash header secondary sha occasion updater flash-IsReady
      sha-IsStream

-- The result, the version that is stored, and bytes of both chunks and behind them.
abbrev seen :
    Run (HandlerResult × Updater) → Option (HandlerResult × (Option UpgradeState × List ℕ))
seen (ok r) =
    some
      (r.0, (r.1.board.kv, r.1.slot 0 ∷ r.1.slot 2 ∷ r.1.slot 3 ∷ r.1.slot 10 ∷ r.1.slot 11 ∷ []))
seen fault = none
seen out_of_fuel = none

downloads :
    seen (handler_download hardware flash header secondary sha occasion updater)
    ≡ some (
      download_success,
      (
        some (record no_upgrade { stage_version_valid = true; stage_version = 62 }),
        61 ∷ 63 ∷ 64 ∷ 71 ∷ 255 ∷ [],
      ),
    )
unfolding handler_download first_size ota_reinit reset ota_deinit set_all open_device transfer_file
    receive combined_download_install install_caught catch_header write_chunk write_first
    write_units write_last read_program_unit program set_stage_version hash_blocks verify_signature
    check_download handler_cancel
downloads = refl

ota_reinit_lem_example :
    let failing = record secondary { erases = false } in
    ((ota_reinit hardware failing updater).0 ≡ false)
    × ((ota_reinit hardware failing updater).1.has_context ≡ false)
    × ((ota_reinit hardware failing updater).1.inited ≡ 1)
    × ((ota_reinit hardware failing updater).1.buffers ≡ 2)
    × ((ota_deinit (ota_reinit hardware failing updater).1).inited ≡ 1)
    × ((ota_deinit (ota_reinit hardware failing updater).1).buffers ≡ 2)
unfolding reset set_all
ota_reinit_lem_example =
    ota_reinit_lem hardware (record secondary { erases = false }) updater
      (unfold IsTidy in (refl, refl))
