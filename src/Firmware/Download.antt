-- ===== src/Firmware/Download.antt =====
-- MCUbUpdateHandlerImpl::Download, CombinedDownloadInstall and VerifySignature of mcubupdate_handler.cpp.
-- The transfer calls back with one chunk after the other. The context is prepared, and the digests are
-- those of a library.
use mbed_ce_client_for_azure.Base.{
  ℕ, zero, suc, ◌+◌, ◌-◌, ◌*◌, ◌/◌, ◌%◌, ◌^◌, Bool, true, false, ◌&&◌, ◌==◌, ltb, List, [], ◌∷◌,
  if◌then◌else◌, Run, ok, ◌>>=◌,
}
use mbed_ce_client_for_azure.Firmware.{Hardware, Board, set_stage_version}
use mbed_ce_client_for_azure.Firmware.Programming.{Buffer, copy_to, Flash, write_chunk}

-- The header of an image, which is MCUboot's: its size, and what is read from its bytes.
pub record Header : Type 0 where
  pub size : ℕ  -- sizeof(struct image_header)
  pub has_magic : Buffer → Bool
  pub version : Buffer → ℕ

-- OTA_OperationContext_t, with the slot and the board.
pub record Transfer : Type 0 where
  pub board : Board
  pub slot : Buffer
  pub header : Buffer
  pub offset : ℕ
  pub is_ready : Bool  -- secondary_bd is initialised

pub record Chunk : Type 0 where
  pub content : Buffer
  pub length : ℕ

module _ (hw : Hardware) (F : Flash) (I : Header) where
  -- The bytes of the header that the chunk has.
  abbrev pub header_todo : (offset length : ℕ) → ℕ
  header_todo offset length = if ltb length (I.size - offset) then length else I.size - offset

  -- A header that is complete is checked, and its version is stored.
  unfoldable pub catch_header : Chunk → Transfer → Bool × Transfer
  catch_header c t =
      let todo = header_todo t.offset c.length in
      let t' = record t { header = copy_to t.header t.offset c.content todo } in
      let (stored, board) = set_stage_version hw (I.version t'.header) t.board in
      if ltb t.offset I.size
      then if t.offset + todo == I.size
        then if I.has_magic t'.header then (stored, record t' { board = board }) else (false, t')
        else (true, t')
      else (true, t)

  -- The chunk is written if its header is accepted and the device is ready.
  unfoldable pub install_caught : Chunk → Bool × Transfer → Run (Bool × Transfer)
  install_caught c (caught, t) =
      let written = write_chunk F t.slot t.offset c.content c.length >>= λ w. ok (
        w.0,
        record t { slot = w.1; offset = if w.0 then (t.offset + c.length) % 2 ^ 32 else t.offset },
      ) in
      if caught then if t.is_ready then written else ok (false, t) else ok (false, t)

  -- MCUbUpdateHandlerImpl::CombinedDownloadInstall
  unfoldable pub combined_download_install : Chunk → Transfer → Run (Bool × Transfer)
  combined_download_install c t = install_caught c (catch_header c t)

  -- The callback, for each chunk: nothing follows on a failure or on a request to cancel.
  unfoldable pub receive : (cancelled : ℕ → Bool) → List Chunk → Transfer → Run (Bool × Transfer)
  receive cancelled [] t = ok (true, t)
  receive cancelled (c ∷ cs) t =
      let here = combined_download_install c t >>= λ r.
      let rest = receive cancelled cs r.1 in if r.0 then rest else ok r in
      if cancelled t.offset then ok (true, t) else here

-- The digests of a library: whether the type of the file's first hash is known, a state, its updates by
-- bytes, which do not fail, and whether the text of its result is the one that is expected.
pub record Sha : Type 1 where
  pub is_supported : Bool
  pub State : Type 0
  pub start : State
  pub input : State → Buffer → ℕ → State
  pub is_expected : State → Bool

module _ (F : Flash) (S : Sha) where
  -- The blocks that are whole.
  unfoldable pub hash_blocks : (rounds : ℕ) → Buffer → (offset : ℕ) → S.State → Bool × S.State
  hash_blocks zero slot offset h = (true, h)
  hash_blocks (suc n) slot offset h =
      let rest =
        hash_blocks n slot (offset + F.block) (S.input h (λ i. slot (offset + i)) F.block) in
      if F.reads offset F.block then rest else (false, h)

  -- MCUbUpdateHandlerImpl::VerifySignature. A file without a hash is accepted.
  unfoldable pub verify_signature : (has_hash : Bool) → (size : ℕ) → Buffer → Bool
  verify_signature has_hash size slot =
      let whole = (size / F.block) * F.block in
      let (done, h) = hash_blocks (size / F.block) slot 0 S.start in
      let last = S.input h (λ i. slot (whole + i)) (size - whole) in
      if has_hash
      then if S.is_supported && done
        then if size - whole == 0
          then S.is_expected h
          else F.reads whole F.block && S.is_expected last
        else false
      else true
