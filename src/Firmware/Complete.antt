-- ===== src/Firmware/Complete.antt =====
-- What a download of mcubupdate_handler.cpp has put into the secondary slot if it succeeds.
use mbed_ce_client_for_azure.Base.{
  ℕ, ◌*◌, ◌≤◌, ◌+◌, ◌≡◌, ◌≢◌, refl, sym, ap, ◌∙◌, arith, Bool, true, false, not, ◌&&◌, ◌==◌,
  if◌then◌else◌, Run, ok, inl, inr, ◌⊎◌,
}
use native.Mathlib.Nat.{mul-div_cancel}
use mbed_ce_client_for_azure.Firmware.{
  Hardware, HandlerResult, failure, download_success, install_success, apply_success,
  apply_required_reboot, backup_success_unsupported, restore_success_unsupported, cancel_success,
  cancel_unable, is_installed, not_installed, handler_cancel,
}
use mbed_ce_client_for_azure.Firmware.Programming.{Buffer, block_start, Flash}
use mbed_ce_client_for_azure.Firmware.Ready.{IsReady, block-positive, block-fits}
use mbed_ce_client_for_azure.Firmware.Download.{Header, Sha, verify_signature}
use mbed_ce_client_for_azure.Firmware.Downloaded.{IsStream, ReadsFile, verify_signature_lem}
use mbed_ce_client_for_azure.Firmware.Operation.{
  Secondary, Updater, Occasion, open_device, ota_reinit, first_transfer, check_download,
  transfer_file, handler_download,
}
use mbed_ce_client_for_azure.Firmware.Received.{received, total_length, receive_lem}

success_cases : (r : HandlerResult) → (r ≡ download_success) ⊎ (r ≢ download_success)
success_cases failure = inr (λ e. absurd cc)
success_cases download_success = inl refl
success_cases install_success = inr (λ e. absurd cc)
success_cases apply_success = inr (λ e. absurd cc)
success_cases apply_required_reboot = inr (λ e. absurd cc)
success_cases backup_success_unsupported = inr (λ e. absurd cc)
success_cases restore_success_unsupported = inr (λ e. absurd cc)
success_cases cancel_success = inr (λ e. absurd cc)
success_cases cancel_unable = inr (λ e. absurd cc)
success_cases is_installed = inr (λ e. absurd cc)
success_cases not_installed = inr (λ e. absurd cc)

not_success : (b : Bool) → handler_cancel b ≢ download_success
unfolding handler_cancel
not_success false = λ e. absurd cc
not_success true = λ e. absurd cc

module _ (hw : Hardware) (F : Flash) (I : Header) (D : Secondary) (S : Sha) where
  reinit_slot : (u : Updater) → (ota_reinit hw D u).0 ≡ true → (ota_reinit hw D u).1.slot ≡ D.erased
  unfolding ota_reinit open_device
  reinit_slot u h = ground (arith, h)

  check_lem :
      (p : Occasion) (done : Bool) (offset : ℕ) (slot : Buffer)
      → check_download hw F I D S p done offset slot ≡ download_success
      → (p.cancelled offset ≡ false)
        × (done ≡ true)
        × (offset ≡ p.size_in_bytes)
        × (verify_signature F S p.has_hash p.size_in_bytes slot ≡ true)
  unfolding check_download
  check_lem p done offset slot h =
      let never = not_success p.cancels in
      (
        ground (arith, h, never),
        ground (arith, h, never),
        ground (arith, h, never),
        ground (arith, h, never),
      )

  reads_file : (size : ℕ) → IsReady F → size ≤ F.size → ReadsFile F S size
  unfolding ReadsFile
  reads_file size ready on k h =
      let start : block_start F (k * F.block) ≡ k * F.block =
        ap (λ j. j * F.block) (mul-div_cancel k (block-positive F ready)) in
      let room : k * F.block + F.block ≤ F.size =
        omega (arith, block-fits F (k * F.block) ready (omega (arith, h, on)), start) in
      ready.reads (k * F.block) F.block ∙ ground (arith, room)

  unfoldable pub IsComplete : Occasion → Updater → Type 0
  IsComplete p u =
      (p.cancelled_before ≡ false)
      × (total_length p.chunks ≡ p.size_in_bytes)
      × (u.slot ≡ received D.erased 0 p.chunks)
      × ((if p.has_hash
            then S.is_supported
              && S.is_expected (S.input S.start (received D.erased 0 p.chunks) p.size_in_bytes)
            else true)
          ≡ true)

  abbrev Ends : Occasion → Run (HandlerResult × Updater) → Type 0
  Ends p run =
      (result : HandlerResult) × (u : Updater) × (run ≡ ok (result, u))
      × (result ≡ download_success → IsComplete p u)

  transfer_lem :
      (p : Occasion) (u : Updater)
      → IsReady F
      → IsStream F S
      → p.cancelled_before ≡ false
      → u.slot ≡ D.erased
      → Ends p (transfer_file hw F I D S p u)
  unfolding transfer_file IsComplete
  transfer_lem p u ready stream early erased =
      let (done, t, runs, on, bytes) =
        receive_lem hw F I p.cancelled p.chunks (first_transfer hw F I D S u) ready refl
          (omega arith) in
      (
        check_download hw F I D S p done t.offset t.slot,
        record u { board = t.board; slot = t.slot },
        rw runs refl,
        λ e.
            let (goes_on, all, size, verified) = check_lem p done t.offset t.slot e in
            let (slot, offset) = bytes all goes_on in
            let here : t.slot ≡ received D.erased 0 p.chunks =
              slot ∙ ap (λ b. received b 0 p.chunks) erased in
            (
              early,
              omega (arith, offset, size),
              here,
              let accepts : Buffer → Bool = λ b.
                    if p.has_hash
                    then S.is_supported && S.is_expected (S.input S.start b p.size_in_bytes)
                    else true in
                  ap accepts (sym here)
                  ∙ sym (
                      verify_signature_lem F S p.has_hash p.size_in_bytes t.slot
                        (block-positive F ready)
                        (reads_file p.size_in_bytes ready (omega (arith, on, size))) stream)
                  ∙ verified,
            ),
      )

  if_split :
      (p : Occasion) (b : Bool) (x y : Run (HandlerResult × Updater))
      → (b ≡ true → Ends p x)
      → (b ≡ false → Ends p y)
      → Ends p (if b then x else y)
  if_split p true x y f g = f refl
  if_split p false x y f g = g refl

  fails : (p : Occasion) (u : Updater) → Ends p (ok (failure, u))
  fails p u = (failure, u, refl, λ e. absurd cc)

  handler_download-Ends :
      (p : Occasion) (u : Updater)
      → IsReady F
      → IsStream F S
      → Ends p (handler_download hw F I D S p u)
  unfolding handler_download
  handler_download-Ends p u ready stream =
      let u' = (ota_reinit hw D u).1 in
      if_split p p.cancelled_before _ _
        (λ e. (handler_cancel p.cancels, u, refl, λ s. absurd (not_success p.cancels s)))
        (λ early.
          if_split p (not (p.file_count == 1)) _ _ (λ e. fails p u)
            (λ e.
              if_split p (not p.has_file) _ _ (λ e. fails p u)
                (λ e.
                  if_split p (not (ota_reinit hw D u).0) _ _ (λ e. fails p u')
                    (λ opened.
                      if_split p (not p.has_active_magic) _ _ (λ e. fails p u')
                        (λ e.
                          transfer_lem p u' ready stream early
                            (reinit_slot u (ground (arith, opened))))))))

  -- On a device of whole blocks that are whole program units, which ends a unit before 2 ^ 32 and does
  -- exactly what lies on it, and with a digest that can take its bytes in parts: a download ends without a
  -- fault, whatever is transferred, and if it succeeds then no cancellation was requested before it, as many
  -- bytes as the file has were transferred, the slot holds them one behind the other over the erased device,
  -- and where the file has a hash, its type is known and it is the hash of those bytes.
  pub handler_download_lem :
      (p : Occasion) (u : Updater)
      → IsReady F
      → IsStream F S
      → (result : HandlerResult) × (u' : Updater) × (handler_download hw F I D S p u
          ≡ ok (result, u'))
        × ((result ≢ download_success) ⊎ IsComplete p u')
  handler_download_lem p u ready stream =
      let (result, u', runs, complete) = handler_download-Ends p u ready stream in
      (result, u', runs, elim (success_cases result) [ inl e ↦ inr (complete e) | inr e ↦ inl e ])
