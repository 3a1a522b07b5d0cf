-- ===== src/Firmware/Operation.antt =====
-- MCUbUpdateHandlerImpl::OTACtx_Deinit, OTACtx_Reinit and Download of mcubupdate_handler.cpp. Memory is
-- always given.
use mbed_ce_client_for_azure.Base.{
  ℕ, ◌+◌, ◌-◌, Bool, true, false, not, ◌||◌, ◌==◌, List, if◌then◌else◌, Run, ok, ◌>>=◌,
}
use mbed_ce_client_for_azure.Firmware.{
  Hardware, Board, reset, HandlerResult, failure, download_success, handler_cancel,
}
use mbed_ce_client_for_azure.Firmware.Programming.{Buffer, Flash}
use mbed_ce_client_for_azure.Firmware.Download.{
  Header, Transfer, Chunk, receive, Sha, verify_signature,
}

-- What get_secondary_bd gives, and what is asked of the device before the download.
pub record Secondary : Type 0 where
  pub has_device : Bool
  pub inits : Bool
  pub erases : Bool
  pub erased : Buffer

-- The handler, with the device it holds: how often it is initialised, and the buffers that are allocated.
pub record Updater : Type 0 where
  pub board : Board
  pub slot : Buffer
  pub has_context : Bool  -- otaCtx_opaque
  pub inited : ℕ
  pub buffers : ℕ

-- The context holds the two buffers of an initialised device.
unfoldable pub ota_deinit : Updater → Updater
ota_deinit u =
    if u.has_context
    then record u { has_context = false; inited = u.inited - 1; buffers = u.buffers - 2 }
    else u

module _ (hw : Hardware) (D : Secondary) where
  -- Erasing comes last. Where it fails, only the context is deleted.
  unfoldable pub open_device : Updater → Bool × Updater
  open_device u =
      let opened = record u { inited = u.inited + 1; buffers = u.buffers + 2 } in
      if D.has_device
      then if D.inits
        then if D.erases
          then (true, record opened { slot = D.erased; has_context = true })
          else (false, opened)
        else (false, u)
      else (false, u)

  unfoldable pub ota_reinit : Updater → Bool × Updater
  ota_reinit u =
      let u' = ota_deinit u in
      let (stored, board) = reset hw false u'.board in
      let here = open_device (record u' { board = board }) in
      if stored then here else (false, record u' { board = board })

-- What a download finds: the file of the workflow, the transfer's chunks, and when a cancellation is
-- requested: before it, after so many bytes, or when the transfer has ended.
pub record Occasion : Type 0 where
  pub file_count : ℕ
  pub has_file : Bool  -- workflow_get_update_file
  pub size_in_bytes : ℕ
  pub has_hash : Bool
  pub has_active_magic : Bool  -- the header of the active image
  pub chunks : List Chunk
  pub has_response : Bool
  pub cancelled_before : Bool
  pub cancelled : ℕ → Bool
  pub cancelled_after : Bool
  pub cancels : Bool  -- workflow_request_cancel

module _ (hw : Hardware) (F : Flash) (I : Header) (D : Secondary) (S : Sha) where
  abbrev pub first_transfer : Updater → Transfer
  first_transfer u = record {
    board = u.board;
    slot = u.slot;
    header = λ i. 0;
    offset = 0;
    is_ready = true;
  }

  -- Behind the transfer
  unfoldable pub check_download : Occasion → Bool → ℕ → Buffer → HandlerResult
  check_download p received offset slot =
      let is_cancelled = p.cancelled offset || p.cancelled_after in
      if is_cancelled
      then handler_cancel p.cancels
      else if not p.has_response
      then failure
      else if not received
      then failure
      else if not (offset == p.size_in_bytes)
      then failure
      else if verify_signature F S p.has_hash p.size_in_bytes slot
      then download_success
      else failure

  unfoldable pub transfer_file : Occasion → Updater → Run (HandlerResult × Updater)
  transfer_file p u = receive hw F I p.cancelled p.chunks (first_transfer u) >>= λ r.
      let t = r.1 in
      ok (check_download p r.0 t.offset t.slot, record u { board = t.board; slot = t.slot })

  -- MCUbUpdateHandlerImpl::Download
  unfoldable pub handler_download : Occasion → Updater → Run (HandlerResult × Updater)
  handler_download p u =
      let (opened, u') = ota_reinit hw D u in
      let transferred = transfer_file p u' in
      if p.cancelled_before
      then ok (handler_cancel p.cancels, u)
      else if not (p.file_count == 1)
      then ok (failure, u)
      else if not p.has_file
      then ok (failure, u)
      else if not opened
      then ok (failure, u')
      else if not p.has_active_magic
      then ok (failure, u')
      else transferred
