-- ===== src/Firmware/Opened.antt =====
-- What the handler of mcubupdate_handler.cpp holds of the secondary device when a download begins.
use mbed_ce_client_for_azure.Base.{◌≡◌, arith, false, not, ◌&&◌, if◌then◌else◌}
use mbed_ce_client_for_azure.Firmware.{Hardware, reset}
use mbed_ce_client_for_azure.Firmware.Operation.{
  Secondary, Updater, ota_deinit, open_device, ota_reinit,
}

-- A handler with a context holds the device and its two buffers, one without it holds nothing.
unfoldable pub IsTidy : Updater → Type 0
IsTidy u =
    (u.inited ≡ (if u.has_context then 1 else 0)) × (u.buffers ≡ (if u.has_context then 2 else 0))

module _ (hw : Hardware) (D : Secondary) where
  -- A handler that is tidy has a context afterwards exactly if the state in the store is reset and the
  -- device is there, initialised and erased. It holds the device and two buffers already without the last:
  -- if the erasing fails then they are held without a context. An OTACtx_Deinit that follows gives back what
  -- is held with a context, and only that.
  pub ota_reinit_lem :
      (u : Updater)
      → IsTidy u
      → let inited = (reset hw false u.board).0 && (D.has_device && D.inits) in
        ((ota_reinit hw D u).0 ≡ inited && D.erases)
        × ((ota_reinit hw D u).1.has_context ≡ inited && D.erases)
        × ((ota_reinit hw D u).1.inited ≡ (if inited then 1 else 0))
        × ((ota_reinit hw D u).1.buffers ≡ (if inited then 2 else 0))
        × ((ota_deinit (ota_reinit hw D u).1).inited ≡ (if inited && not D.erases then 1 else 0))
        × ((ota_deinit (ota_reinit hw D u).1).buffers ≡ (if inited && not D.erases then 2 else 0))
  unfolding IsTidy ota_deinit open_device ota_reinit
  ota_reinit_lem u tidy = (
    ground (arith, tidy),
    ground (arith, tidy),
    ground (arith, tidy),
    ground (arith, tidy),
    ground (arith, tidy),
    ground (arith, tidy),
  )
